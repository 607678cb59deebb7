-- ===== src/Service/Roots/Trusted.antt =====
-- A validated set of transitions is a chain of authority, and following it step by step gives the
-- same trust.
use limitlesslibrary.Base.{
  ℕ, suc, ◌≡◌, refl, ap, ◌∙◌, String, true, Option, none, some, List, [], ◌∷◌, eq_iff, length, ok,
  bind_ok, require_ok, ok-injective, arith,
}
use mathlib.Core.Path.{subst}
use limitlesslibrary.Base.Json.{Json, get}
use limitlesslibrary.Service.Shape.{
  Bytes, Toolkit, exact_fields, bounded_text, bounded_int, base64url_decode,
}
use limitlesslibrary.Service.Roots.{Transition, Roots, same_digest}
use limitlesslibrary.Service.Roots.Transitions.{validate_root_key_transition}
use limitlesslibrary.Service.Roots.Advance.{
  Holds, IsAccepted, base64url_decode-Holds, validate_root_key_transition-IsAccepted,
}
use limitlesslibrary.Service.Roots.Chain.{
  TransitionSet, few_transitions, latest_digest_of, last_digest, link_of, walk,
  validate_transition_set,
}

eq_of_same_digest : (a b : Option String) → same_digest a b ≡ true → a ≡ b
eq_of_same_digest none none h = refl
eq_of_same_digest none (some b) h = ground arith
eq_of_same_digest (some a) none h = ground arith
eq_of_same_digest (some a) (some b) h = ap some ((eq_iff a b).0 h)

module _ (kit : Toolkit) where
  -- Each transition is accepted with the next number, the digest of the one before it, and its
  -- successor as the only root.
  pub IsChain : Option Roots → String → ℕ → Option String → List Transition → Type 0
  IsChain roots service_id sequence previous [] = Unit
  IsChain roots service_id sequence previous (t ∷ ts) =
      IsAccepted kit (link_of kit roots service_id sequence previous) t
      × ((public : Bytes) × Holds kit t.unsigned.next_key public
          × IsChain (some ((t.unsigned.next_key.key_id, public) ∷ [])) service_id (suc sequence)
              (some t.digest) ts)

  walk-IsChain :
      (values : List Json) (roots : Option Roots) (service_id : String) (sequence : ℕ)
      (previous : Option String) (ts : List Transition)
      → walk kit values roots service_id sequence previous ≡ ok ts
      → IsChain roots service_id sequence previous ts × (length ts ≡ length values)
  unfolding walk IsChain
  walk-IsChain [] roots service_id sequence previous ts h =
      subst (λ ts. IsChain roots service_id sequence previous ts × (length ts ≡ 0)) (ok-injective h)
        (tt, refl)
  walk-IsChain (value ∷ values) roots service_id sequence previous ts h =
      let e = link_of kit roots service_id sequence previous in
      let (t, e1, h1) = bind_ok (validate_root_key_transition kit value e) _ h in
      let (public, e2, h2) =
        bind_ok (base64url_decode kit t.unsigned.next_key.public_key 32 _) _ h1 in
      let next : Option Roots = some ((t.unsigned.next_key.key_id, public) ∷ []) in
      let (us, e3, h3) =
        bind_ok (walk kit values next service_id (suc sequence) (some t.digest)) _ h2 in
      let (chain, long) =
        walk-IsChain values next service_id (suc sequence) (some t.digest) us e3 in
      subst
        (λ ts. IsChain roots service_id sequence previous ts × (length ts ≡ suc (length values)))
        (ok-injective h3)
        (
          (
            validate_root_key_transition-IsAccepted kit value e t e1,
            (public, base64url_decode-Holds kit t.unsigned.next_key _ public e2, chain),
          ),
          ap (λ n. suc n) long,
        )

  latest_digest_of_long :
      (value : Json) (values : List Json) (n : ℕ) (d : Option String)
      → latest_digest_of value values n ≡ ok d
      → length values ≡ n
  unfolding latest_digest_of
  latest_digest_of_long value [] n d h = ground arith
  latest_digest_of_long value (v ∷ vs) n d h = ground arith

  -- A set that is accepted is a chain from the roots that are given: it is numbered from 1 without
  -- a gap, its transitions are as many as the latest number, and the latest digest is the last
  -- one's.
  pub validate_transition_set-IsChain :
      (value : Json) (roots : Option Roots) (s : TransitionSet)
      → validate_transition_set kit value roots ≡ ok s
      → IsChain roots s.service_id 1 none s.transitions
        × (length s.transitions ≡ s.latest_sequence)
        × (s.latest_digest ≡ last_digest none s.transitions)
  unfolding validate_transition_set
  validate_transition_set-IsChain value roots s h =
      let (document, _, h1) = bind_ok (exact_fields value _ _) _ h in
      let (_, h2) = require_ok _ _ _ h1 in
      let (service_id, _, h3) = bind_ok (bounded_text (get document "serviceId") _ _ _) _ h2 in
      let (values, _, h4) = bind_ok (few_transitions (get document "transitions")) _ h3 in
      let (n, _, h5) = bind_ok (bounded_int (get document "latestSequence") 0 16 _) _ h4 in
      let (digest, e1, h6) =
        bind_ok (latest_digest_of (get document "latestTransitionDigest") values n) _ h5 in
      let (ts, e2, h7) = bind_ok (walk kit values roots service_id 1 none) _ h6 in
      let (last, h8) = require_ok (same_digest digest (last_digest none ts)) _ _ h7 in
      let (_, h9) = require_ok _ _ _ h8 in
      let (chain, long) = walk-IsChain values roots service_id 1 none ts e2 in
      subst
        (λ s.
          IsChain roots s.service_id 1 none s.transitions
          × (length s.transitions ≡ s.latest_sequence)
          × (s.latest_digest ≡ last_digest none s.transitions))
        (ok-injective h9)
        (
          chain,
          long ∙ latest_digest_of_long (get document "latestTransitionDigest") values n digest e1,
          eq_of_same_digest digest (last_digest none ts) last,
        )
