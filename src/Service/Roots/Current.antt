-- ===== src/Service/Roots/Current.antt =====
-- The roots that the connector trusts at a time.
use limitlesslibrary.Base.{
  ℕ, ◌≡◌, refl, sym, ap, ◌∙◌, Bool, true, false, Option, none, some, List, [], ◌∷◌, ◌⊎◌, inl, inr,
  ok, ◌>>=◌, bind_ok, require_ok, ok-injective, leb, ltb,
}
use mathlib.Core.Path.{subst}
use limitlesslibrary.Base.Json.{str}
use limitlesslibrary.Service.Shape.{Bytes, Toolkit, timestamp}
use limitlesslibrary.Service.Roots.{Transition, Roots}
use limitlesslibrary.Service.Roots.Chain.{decode_key, effective_roots, unexpired, current_roots}

-- One of the transitions.
abbrev pub Some : (Transition → Type 0) → List Transition → Type 0
Some P [] = ⊥
Some P (t ∷ ts) = P t ⊎ Some P ts

module _ (kit : Toolkit) where
  -- The roots are the transition's successor, which is effective and ends at the given time.
  pub record IsInForce (now : ℕ) (found : Roots × Option ℕ) (t : Transition) : Type 0 where
    pub public : Bytes
    pub decoded : decode_key kit t.unsigned.next_key.public_key ≡ ok public
    pub only : found.0 ≡ (t.unsigned.next_key.key_id, public) ∷ []
    pub effective : ℕ
    pub read : timestamp kit (str t.unsigned.effective_at) "effectiveAt" ≡ ok effective
    pub begun : ltb now effective ≡ false
    pub until : ℕ
    pub until_read : timestamp kit (str t.unsigned.next_key.valid_until) "validUntil" ≡ ok until
    pub ends : found.1 ≡ some until

  effective_roots_cases :
      (ts : List Transition) (roots : Roots) (until : Option ℕ) (now : ℕ) (found : Roots × Option ℕ)
      → effective_roots kit ts roots until now ≡ ok found
      → ((roots, until) ≡ found) ⊎ Some (IsInForce now found) ts
  unfolding effective_roots
  effective_roots_cases [] roots until now found h = inl (ok-injective h)
  effective_roots_cases (t ∷ ts) roots until now found h =
      let (effective, e1, h1) =
        bind_ok (timestamp kit (str t.unsigned.effective_at) "effectiveAt") _ h in
      step (λ r u k. effective_roots_cases ts r u now found k) effective e1 (ltb now effective) refl
        h1
    where
      step :
          ((r : Roots) (u : Option ℕ)
            → effective_roots kit ts r u now ≡ ok found
            → ((r, u) ≡ found) ⊎ Some (IsInForce now found) ts)
          → (effective : ℕ)
          → timestamp kit (str t.unsigned.effective_at) "effectiveAt" ≡ ok effective
          → (b : Bool) → ltb now effective ≡ b
          → (elim b [
            | true ↦ ok (roots, until)
            | false ↦ decode_key kit t.unsigned.next_key.public_key >>= λ public.
                timestamp kit (str t.unsigned.next_key.valid_until) "validUntil" >>= λ next_until.
                effective_roots kit ts
                  ((t.unsigned.next_key.key_id, public) ∷ [])
                  (some next_until)
                  now
          ])
            ≡ ok found
          → ((roots, until) ≡ found) ⊎ Some (IsInForce now found) (t ∷ ts)
      step ih effective e1 true same k = inl (ok-injective k)
      step ih effective e1 false same k =
          let (public, e2, k1) = bind_ok (decode_key kit t.unsigned.next_key.public_key) _ k in
          let (next_until, e3, k2) =
            bind_ok (timestamp kit (str t.unsigned.next_key.valid_until) "validUntil") _ k1 in
          let next : Roots = (t.unsigned.next_key.key_id, public) ∷ [] in
          elim (ih next (some next_until) k2) [
            | inl here ↦ inr (
                inl (record {
                  public = public;
                  decoded = e2;
                  only = sym (ap (λ (x : Roots × Option ℕ). x.0) here);
                  effective = effective;
                  read = e1;
                  begun = same;
                  until = next_until;
                  until_read = e3;
                  ends = sym (ap (λ (x : Roots × Option ℕ). x.1) here);
                }))
            | inr later ↦ inr (inr later)
          ]

  -- The root in force: a transition's successor that has begun and not ended.
  pub record IsTrusted (now : ℕ) (roots : Roots) (t : Transition) : Type 0 where
    pub in_force : (until : ℕ) × IsInForce now (roots, some until) t × (leb now until ≡ true)

  in_force_unexpired :
      (now : ℕ) (found : Roots × Option ℕ) (ts : List Transition)
      → unexpired kit found.1 now ≡ true
      → Some (IsInForce now found) ts
      → Some (IsTrusted now found.0) ts
  in_force_unexpired now found [] live h = h
  in_force_unexpired now (roots, until) (t ∷ ts) live (inl f) =
      let ends : until ≡ some f.until = f.ends in
      inl (record {
        in_force = (
          f.until,
          subst (λ u. IsInForce now (roots, u) t) ends f,
          subst (λ u. unexpired kit u now ≡ true) ends live,
        );
      })
  in_force_unexpired now found (t ∷ ts) live (inr later) =
      inr (in_force_unexpired now found ts live later)

  -- The roots that the connector trusts at a time are the profile's own, or one transition's
  -- successor alone, which is effective at that time and has not expired.
  pub current_roots-IsTrusted :
      (ts : List Transition) (initial : Roots) (now : ℕ) (roots : Roots)
      → current_roots kit ts initial now ≡ ok roots
      → (initial ≡ roots) ⊎ Some (IsTrusted now roots) ts
  unfolding current_roots
  current_roots-IsTrusted ts initial now roots h =
      let (found, e1, h1) = bind_ok (effective_roots kit ts initial none now) _ h in
      let (live, h2) = require_ok (unexpired kit found.1 now) _ _ h1 in
      let same : found.0 ≡ roots = ok-injective h2 in
      elim (effective_roots_cases ts initial none now found e1) [
        | inl here ↦ inl (ap (λ (x : Roots × Option ℕ). x.0) here ∙ same)
        | inr some_one ↦ inr (
            subst (λ r. Some (IsTrusted now r) ts) same
              (in_force_unexpired now found ts live some_one))
      ]
