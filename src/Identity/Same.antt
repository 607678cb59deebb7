-- ===== src/Identity/Same.antt =====
-- A state that is made of another one, and validated, is of the same installation.
use limitlesslibrary.Base.{◌≡◌, sym, ◌∙◌, String, eq_iff, Option-cases, inl, inr, ok, arith}
use mathlib.Core.Path.{subst}
use limitlesslibrary.Base.Json.{Json, str, obj, Fields}
use limitlesslibrary.Service.Shape.{Bytes, Toolkit}
use limitlesslibrary.Identity.Custody.{
  Keys, State, state_dict, state_with, state_item, service_name, from_encoded, cached_session_of,
  validate_state,
}
use limitlesslibrary.Identity.Valid.{IsRead, validate_state-IsRead}

module _ (kit : Toolkit) (keys : Keys) where
  -- The same installation, with the same key.
  pub record Same (s t : State) : Type 0 where
    pub service : t.service_id ≡ s.service_id
    pub installation : t.installation_id ≡ s.installation_id
    pub key : t.private_key ≡ s.private_key

  service_name_str : (a b : String) → service_name (str a) ≡ ok b → b ≡ a
  unfolding service_name
  service_name_str a b h = ground arith

  from_encoded_str :
      (a : String) (m : Bytes) → from_encoded kit keys (str a) ≡ ok m → kit.encode64 m ≡ a
  unfolding from_encoded
  from_encoded_str a m h = elim (Option-cases (kit.decode64 a)) [
    | inl e ↦ ground (arith, e)
    | inr (b, e) ↦ let same = (eq_iff (kit.encode64 b) a).0 in ground (arith, e, same)
  ]

  item_same : (d e : Fields) → state_item (obj d) ≡ ok e → e ≡ d
  unfolding state_item
  item_same d e h = ground arith

  -- A validated state with these fields is of the same installation, and has read its session from
  -- that field.
  pub state_with-Same :
      (s : State) (a b : Json) (t : State)
      → validate_state kit keys (state_with s a b) ≡ ok t
      → Same s t
        × (cached_session_of kit keys b t.service_id t.installation_id t.generation
              (keys.public_of t.signer)
              t.attestation
            ≡ ok t.session)
  state_with-Same s a b t h =
      let (d, whole, r) = validate_state-IsRead kit keys (state_with s a b) t h in
      let f : IsRead kit keys (state_dict s a b) t =
        subst (λ e. IsRead kit keys e t) (item_same (state_dict s a b) d whole) r in
      (
        record {
          service = service_name_str s.service_id t.service_id f.service;
          installation = sym ((eq_iff s.installation_id t.installation_id).0 f.installation);
          key = f.key_text ∙ from_encoded_str s.private_key t.signer f.signer;
        },
        f.session,
      )
