-- ===== src/Service/Roots/Advance.antt =====
-- What a transition that is accepted proves, and one step of trust.
use limitlesslibrary.Base.{
  ℕ, ◌≡◌, refl, sym, ap, ◌∙◌, String, true, false, Option, none, some, [], ◌∷◌, ◌==◌, str_eq,
  eq_iff, length, ok, raised, require, bind_ok, arith, ◌⊎◌, inl, inr, ◌≢◌, and_parts,
}
use mathlib.Core.Path.{subst}
use limitlesslibrary.Base.Json.{Json, Fields}
use limitlesslibrary.Service.Shape.{Bytes, Toolkit, exact_fields, bytes_eq, base64url_decode}
use limitlesslibrary.Service.Roots.{
  Signature, RootKey, Unsigned, Transition, Roots, Expected, unsigned_json, signed_json, root_of,
  fault, fits_text, fits_number, fits_digest, verify,
}
use limitlesslibrary.Service.Roots.Transitions.{
  transition_fields, unsigned_of, transition_of, check_trusted, check_expected, expecting,
  successor_of, validate_root_key_transition, advance_root_trust,
}

eq_of_bytes_eq : (a b : Bytes) → bytes_eq a b ≡ true → a ≡ b
unfolding bytes_eq
eq_of_bytes_eq [] [] h = refl
eq_of_bytes_eq [] (b ∷ bs) h = ground arith
eq_of_bytes_eq (a ∷ rest) [] h = ground arith
eq_of_bytes_eq (a ∷ rest) (b ∷ bs) h =
    let tails : rest ≡ bs = eq_of_bytes_eq rest bs ((and_parts h).1) in ground arith

-- The bytes are among the trusted roots, where there are any.
abbrev pub Trusts : Option Roots → String → Bytes → Type 0
Trusts none key_id public = Unit
Trusts (some roots) key_id public = root_of roots key_id ≡ some public

only_root :
    (k j : String) (public : Bytes) → str_eq j k ≡ false → root_of ((k, public) ∷ []) j ≡ none
unfolding root_of
only_root k j public h = ground (arith, eq_iff k j, eq_iff j k)

pub eq_of_same : (m n : ℕ) → (m == n) ≡ true → m ≡ n
eq_of_same m n h = ground arith

module _ (kit : Toolkit) where
  -- The key verifies the signature of the canonical bytes.
  abbrev pub IsSigned : Bytes → Signature → Json → Type 0
  IsSigned public s payload =
      (value : Bytes) × (kit.decode64 s.value ≡ some value)
      × (kit.verifies public value (kit.canonical payload) ≡ true)

  abbrev pub Holds : RootKey → Bytes → Type 0
  Holds k public =
      (kit.decode64 k.public_key ≡ some public)
      × (length public ≡ 32)
      × (str_eq (kit.encode64 public) k.public_key ≡ true)

  -- What holds of an accepted transition.
  pub record IsAccepted (e : Expected) (t : Transition) : Type 0 where
    pub changes : str_eq t.unsigned.previous_key.key_id t.unsigned.next_key.key_id ≡ false
    pub bound : str_eq t.digest (kit.sha256 (kit.canonical (unsigned_json t.unsigned))) ≡ true
    pub previous_public : Bytes
    pub next_public : Bytes
    pub previous_holds : Holds t.unsigned.previous_key previous_public
    pub next_holds : Holds t.unsigned.next_key next_public
    pub trusted : Trusts e.roots t.unsigned.previous_key.key_id previous_public
    pub authorized : IsSigned previous_public t.authorization (signed_json t.unsigned t.digest)
    pub accepted : IsSigned next_public t.acceptance (signed_json t.unsigned t.digest)
    pub service : fits_text e.service_id t.unsigned.service_id ≡ true
    pub sequence : fits_number e.sequence t.unsigned.sequence ≡ true
    pub previous : fits_digest e.previous t.unsigned.previous_digest ≡ true

  pub base64url_decode-Holds :
      (k : RootKey) (label : String) (public : Bytes)
      → base64url_decode kit k.public_key 32 label ≡ ok public
      → Holds k public
  unfolding base64url_decode
  base64url_decode-Holds k label public h = ground arith

  verify-IsSigned :
      (payload : Json) (s : Signature) (public : Bytes)
      → verify kit payload s public ≡ ok tt
      → IsSigned public s payload
  unfolding verify base64url_decode
  verify-IsSigned payload s public h = ground arith

  check_trusted-Trusts :
      (roots : Option Roots) (key_id : String) (public : Bytes)
      → check_trusted roots key_id public ≡ ok tt
      → Trusts roots key_id public
  unfolding check_trusted
  check_trusted-Trusts none key_id public h = tt
  check_trusted-Trusts (some roots) key_id public h = found (root_of roots key_id) refl h
    where
      found :
          (o : Option Bytes)
          → root_of roots key_id ≡ o
          → (elim o [
            | none ↦ raised (fault "predecessor is not trusted")
            | some trusted ↦
                require (bytes_eq trusted public) (fault "predecessor material differs")
          ])
            ≡ ok tt
          → root_of roots key_id ≡ some public
      found none same k = ground arith
      found (some trusted) same k = let eq = eq_of_bytes_eq trusted public in ground (arith, eq)

  unsigned_of_changes :
      (item : Fields) (u : Unsigned)
      → unsigned_of kit item ≡ ok u
      → str_eq u.previous_key.key_id u.next_key.key_id ≡ false
  unfolding unsigned_of
  unsigned_of_changes item u h = ground arith

  transition_of_bound :
      (item : Fields) (t : Transition)
      → transition_of kit item ≡ ok t
      → (unsigned_of kit item ≡ ok t.unsigned)
        × (str_eq t.digest (kit.sha256 (kit.canonical (unsigned_json t.unsigned))) ≡ true)
  unfolding transition_of
  transition_of_bound item t h = ground arith

  check_expected_fits :
      (e : Expected) (s t : Transition)
      → check_expected kit e s ≡ ok t
      → (s ≡ t)
        × (fits_text e.service_id s.unsigned.service_id ≡ true)
        × (fits_number e.sequence s.unsigned.sequence ≡ true)
        × (fits_digest e.previous s.unsigned.previous_digest ≡ true)
  unfolding check_expected
  check_expected_fits e s t h = ground arith

  -- An accepted transition changes the key, its digest binds its content, its predecessor is
  -- trusted, both keys have signed it, and it is what the caller expects.
  pub validate_root_key_transition-IsAccepted :
      (value : Json) (e : Expected) (t : Transition)
      → validate_root_key_transition kit value e ≡ ok t
      → IsAccepted e t
  unfolding validate_root_key_transition
  validate_root_key_transition-IsAccepted value e t h =
      let (item, _, h1) = bind_ok (exact_fields value _ _) _ h in
      let (s, e1, h2) = bind_ok (transition_of kit item) _ h1 in
      let (p, e2, h3) =
        bind_ok (base64url_decode kit s.unsigned.previous_key.public_key 32 _) _ h2 in
      let (n, e3, h4) = bind_ok (base64url_decode kit s.unsigned.next_key.public_key 32 _) _ h3 in
      let (_, e4, h5) = bind_ok (check_trusted e.roots s.unsigned.previous_key.key_id p) _ h4 in
      let (_, e5, h6) =
        bind_ok (verify kit (signed_json s.unsigned s.digest) s.authorization p) _ h5 in
      let (_, e6, h7) =
        bind_ok (verify kit (signed_json s.unsigned s.digest) s.acceptance n) _ h6 in
      let (same, service, sequence, previous) = check_expected_fits e s t h7 in
      let (whole, bound) = transition_of_bound item s e1 in
      subst (IsAccepted e) same (record {
        changes = unsigned_of_changes item s.unsigned whole;
        bound = bound;
        previous_public = p;
        next_public = n;
        previous_holds = base64url_decode-Holds s.unsigned.previous_key _ p e2;
        next_holds = base64url_decode-Holds s.unsigned.next_key _ n e3;
        trusted = check_trusted-Trusts e.roots s.unsigned.previous_key.key_id p e4;
        authorized = verify-IsSigned (signed_json s.unsigned s.digest) s.authorization p e5;
        accepted = verify-IsSigned (signed_json s.unsigned s.digest) s.acceptance n e6;
        service = service;
        sequence = sequence;
        previous = previous;
      })

  -- The transition that is read depends on the value alone.
  pub validate_root_key_transition_content :
      (value : Json) (e : Expected) (t : Transition)
      → validate_root_key_transition kit value e ≡ ok t
      → (item : Fields) × (exact_fields value transition_fields "service root key transition"
          ≡ ok item)
        × (transition_of kit item ≡ ok t)
  unfolding validate_root_key_transition
  validate_root_key_transition_content value e t h =
      let (item, e0, h1) = bind_ok (exact_fields value _ _) _ h in
      let (s, e1, h2) = bind_ok (transition_of kit item) _ h1 in
      let (p, _, h3) =
        bind_ok (base64url_decode kit s.unsigned.previous_key.public_key 32 _) _ h2 in
      let (n, _, h4) = bind_ok (base64url_decode kit s.unsigned.next_key.public_key 32 _) _ h3 in
      let (_, _, h5) = bind_ok (check_trusted e.roots s.unsigned.previous_key.key_id p) _ h4 in
      let (_, _, h6) =
        bind_ok (verify kit (signed_json s.unsigned s.digest) s.authorization p) _ h5 in
      let (_, _, h7) = bind_ok (verify kit (signed_json s.unsigned s.digest) s.acceptance n) _ h6 in
      (item, e0, subst (λ x. transition_of kit item ≡ ok x) (check_expected_fits e s t h7).0 e1)

  pub same_transition :
      (value : Json) (e f : Expected) (s t : Transition)
      → validate_root_key_transition kit value e ≡ ok s
      → validate_root_key_transition kit value f ≡ ok t
      → s ≡ t
  same_transition value e f s t h k =
      let (item, i, r) = validate_root_key_transition_content value e s h in
      let (item', i', r') = validate_root_key_transition_content value f t k in cc

  -- What one step of trust leaves: the successor alone.
  pub record Advanced (roots : Roots) (service_id : String) (sequence : ℕ)
      (previous : Option String) (r : Roots × ℕ × String) (t : Transition) : Type 0 where
    pub accepted : IsAccepted (expecting roots service_id sequence previous) t
    pub successor : Bytes
    pub holds : Holds t.unsigned.next_key successor
    pub only : r.0 ≡ (t.unsigned.next_key.key_id, successor) ∷ []
    pub number : r.1 ≡ t.unsigned.sequence
    pub digest : r.2 ≡ t.digest
    pub expected_number : r.1 ≡ sequence
    pub dropped : root_of r.0 t.unsigned.previous_key.key_id ≡ none

  pub successor_of_ok :
      (t : Transition) (now : ℕ) (r : Roots × ℕ × String)
      → successor_of kit t now ≡ ok r
      → (public : Bytes) × Holds t.unsigned.next_key public
        × (r ≡ ((t.unsigned.next_key.key_id, public) ∷ [], t.unsigned.sequence, t.digest))
  unfolding successor_of base64url_decode
  successor_of_ok t now r h = ground arith

  pub advance_root_trust_ok :
      (value : Json) (roots : Roots) (service_id : String) (sequence : ℕ) (previous : Option String)
      (now : ℕ) (r : Roots × ℕ × String)
      → advance_root_trust kit value roots service_id sequence previous now ≡ ok r
      → (t : Transition) × (validate_root_key_transition kit value
            (expecting roots service_id sequence previous)
          ≡ ok t)
        × Advanced roots service_id sequence previous r t
  unfolding advance_root_trust
  advance_root_trust_ok value roots service_id sequence previous now r h =
      let e = expecting roots service_id sequence previous in
      let (t, e1, h1) = bind_ok (validate_root_key_transition kit value e) _ h in
      let a = validate_root_key_transition-IsAccepted value e t e1 in
      let (public, holds, same) = successor_of_ok t now r h1 in
      (
        t,
        e1,
        record {
          accepted = a;
          successor = public;
          holds = holds;
          only = ap (λ (x : Roots × ℕ × String). x.0) same;
          number = ap (λ (x : Roots × ℕ × String). x.1) same;
          digest = ap (λ (x : Roots × ℕ × String). x.2) same;
          expected_number =
              ap (λ (x : Roots × ℕ × String). x.1) same
              ∙ eq_of_same t.unsigned.sequence sequence a.sequence;
          dropped =
              ap (λ (x : Roots × ℕ × String). root_of x.0 t.unsigned.previous_key.key_id) same
              ∙ only_root t.unsigned.next_key.key_id t.unsigned.previous_key.key_id public
                  a.changes;
        },
      )

  -- A transition by which trust was advanced advances it no second time: not from the trust that
  -- it left, and at no later number.
  pub advance_root_trust_once :
      (value : Json) (roots : Roots) (service_id : String) (sequence : ℕ) (previous : Option String)
      (now : ℕ) (r : Roots × ℕ × String)
      → advance_root_trust kit value roots service_id sequence previous now ≡ ok r
      → (later_roots : Roots) (later : ℕ) (later_previous : Option String) (later_now : ℕ)
        (q : Roots × ℕ × String)
      → (later_roots ≡ r.0) ⊎ (later ≢ sequence)
      → ¬ (
          advance_root_trust kit value later_roots service_id later later_previous later_now ≡ ok q)
  advance_root_trust_once value roots service_id sequence previous now r h later_roots later
        later_previous later_now q differs k =
      let (t, e1, a) = advance_root_trust_ok value roots service_id sequence previous now r h in
      let (s, e2, b) =
        advance_root_trust_ok value later_roots service_id later later_previous later_now q k in
      let same =
        same_transition value (expecting roots service_id sequence previous)
          (expecting later_roots service_id later later_previous) t s e1 e2 in
      let number : s.unsigned.sequence ≡ later = sym b.number ∙ b.expected_number in
      let first : t.unsigned.sequence ≡ sequence = sym a.number ∙ a.expected_number in
      let trusted : root_of later_roots s.unsigned.previous_key.key_id
          ≡ some b.accepted.previous_public =
        b.accepted.trusted in
      let dropped : root_of r.0 t.unsigned.previous_key.key_id ≡ none = a.dropped in
      elim differs [
        | inl left ↦ cc
        | inr other ↦
            other (sym number ∙ (ap (λ (x : Transition). x.unsigned.sequence) (sym same) ∙ first))
      ]
