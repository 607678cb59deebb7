-- ===== src/Service/Roots/Follow.antt =====
-- A client that keeps its trust and advances it by one transition at a time.
use limitlesslibrary.Base.{
  ℕ, suc, ◌+◌, ◌≡◌, refl, sym, ◌∙◌, String, Option, some, List, [], ◌∷◌, length, Outcome, ok, ◌>>=◌,
  All, bind_ok, ok-injective, arith,
}
use mathlib.Core.Path.{subst}
use limitlesslibrary.Base.Json.{Json}
use limitlesslibrary.Service.Shape.{Failure, Bytes, Toolkit, base64url_decode}
use limitlesslibrary.Service.Roots.{Transition, Roots}
use limitlesslibrary.Service.Roots.Transitions.{
  successor_of, validate_root_key_transition, advance_root_trust,
}
use limitlesslibrary.Service.Roots.Advance.{
  base64url_decode-Holds, validate_root_key_transition-IsAccepted, successor_of_ok, eq_of_same,
}
use limitlesslibrary.Service.Roots.Chain.{last_digest, link_of, walk}

some-injective : {a b : Bytes} → ◌≡◌ {A = Option Bytes} (some a) (some b) → a ≡ b
some-injective h = cc

module _ (kit : Toolkit) where
  -- The state that a client persists: its roots, the last number and the last digest.
  abbrev pub Trust : Type 0
  Trust = Roots × ℕ × Option String

  -- The client's run over the values, at one time.
  unfoldable pub follow : List Json → String → Trust → ℕ → Outcome Failure Trust
  follow [] service_id trust now = ok trust
  follow (value ∷ values) service_id (roots, n, previous) now = do
    r ← advance_root_trust kit value roots service_id (suc n) previous now
    follow values service_id (r.0, r.1, some r.2) now

  -- The transition is effective, and its successor has not expired.
  abbrev pub IsCurrent : ℕ → Transition → Type 0
  IsCurrent now t = (r : Roots × ℕ × String) × (successor_of kit t now ≡ ok r)

  -- The roots behind a chain.
  abbrev pub IsLast : Roots → List Transition → Roots → Type 0
  IsLast roots [] last = roots ≡ last
  IsLast roots (t ∷ ts) last =
      (public : Bytes) × (kit.decode64 t.unsigned.next_key.public_key ≡ some public)
      × IsLast ((t.unsigned.next_key.key_id, public) ∷ []) ts last

  step :
      (value : Json) (roots : Roots) (service_id : String) (n : ℕ) (previous : Option String)
      (now : ℕ) (t : Transition) (public : Bytes)
      → validate_root_key_transition kit value
          (link_of kit (some roots) service_id (suc n) previous)
        ≡ ok t
      → base64url_decode kit t.unsigned.next_key.public_key 32
          "service root key transition set successor publicKey"
        ≡ ok public
      → IsCurrent now t
      → (advance_root_trust kit value roots service_id (suc n) previous now
          ≡ ok ((t.unsigned.next_key.key_id, public) ∷ [], suc n, t.digest))
        × (kit.decode64 t.unsigned.next_key.public_key ≡ some public)
  unfolding advance_root_trust
  step value roots service_id n previous now t public h k current =
      let (r, advanced) = current in
      let (successor, holds, left) = successor_of_ok kit t now r advanced in
      let (decoded, _, _) = base64url_decode-Holds kit t.unsigned.next_key _ public k in
      let a =
        validate_root_key_transition-IsAccepted kit value
          (link_of kit (some roots) service_id (suc n) previous) t h in
      let number : t.unsigned.sequence ≡ suc n =
        eq_of_same t.unsigned.sequence (suc n) a.sequence in
      let same : successor ≡ public = some-injective (sym (holds.0) ∙ decoded) in
      (rw (h, advanced, left, same, number) refl, decoded)

  -- If the walk accepts the values from the client's trust and each transition is current, then the
  -- client's run accepts them too. Its last number has grown by their count, its last digest is the
  -- last one's, and its roots are the last successor alone, or unchanged where there is none.
  pub walk-follow :
      (values : List Json) (roots : Roots) (service_id : String) (n : ℕ) (previous : Option String)
      (now : ℕ) (ts : List Transition)
      → walk kit values (some roots) service_id (suc n) previous ≡ ok ts
      → All (IsCurrent now) ts
      → (last : Roots) × (follow values service_id (roots, n, previous) now
          ≡ ok (last, n + length ts, last_digest previous ts))
        × IsLast roots ts last
  unfolding walk follow last_digest
  walk-follow [] roots service_id n previous now ts h current =
      subst
        (λ ts.
          (last : Roots) × (◌≡◌ {A = Outcome Failure Trust} (ok (roots, n, previous))
            (ok (last, n + length ts, last_digest previous ts)))
          × IsLast roots ts last)
        (ok-injective h) (roots, ground arith, refl)
  walk-follow (value ∷ values) roots service_id n previous now ts h current =
      let e = link_of kit (some roots) service_id (suc n) previous in
      let (t, e1, h1) = bind_ok (validate_root_key_transition kit value e) _ h in
      let (public, e2, h2) =
        bind_ok (base64url_decode kit t.unsigned.next_key.public_key 32 _) _ h1 in
      let next : Roots = (t.unsigned.next_key.key_id, public) ∷ [] in
      let (us, e3, h3) =
        bind_ok (walk kit values (some next) service_id (suc (suc n)) (some t.digest)) _ h2 in
      let split : t ∷ us ≡ ts = ok-injective h3 in
      let now_all : All (IsCurrent now) (t ∷ us) =
        subst (All (IsCurrent now)) (sym split) current in
      let (one, decoded) = step value roots service_id n previous now t public e1 e2 (now_all.0) in
      let (last, rest, ends) =
        walk-follow values next service_id (suc n) (some t.digest) now us e3 (now_all.1) in
      let shift : suc n + length us ≡ n + suc (length us) = omega arith in
      let run : follow (value ∷ values) service_id (roots, n, previous) now
          ≡ ok (last, suc n + length us, last_digest (some t.digest) us) =
        rw one rest in
      subst
        (λ ts.
          (last : Roots) × (follow (value ∷ values) service_id (roots, n, previous) now
            ≡ ok (last, n + length ts, last_digest previous ts))
          × IsLast roots ts last)
        split
        (
          last,
          subst
              (λ m.
                follow (value ∷ values) service_id (roots, n, previous) now
                ≡ ok (last, m, last_digest (some t.digest) us))
              shift run,
          (public, decoded, ends),
        )
