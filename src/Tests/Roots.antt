-- ===== src/Tests/Roots.antt =====
-- A service that hands its root from the key `a` to the key `b`. Times are texts of that length,
-- and a key or a signature is the same character throughout.
use limitlesslibrary.Base.{ℕ, ◌≡◌, refl, ◌<>◌, none, some, [], ◌∷◌, ok, inl, ◌⊎◌}
use limitlesslibrary.Service.Shape.{
  exact_fields, bounded_text, digest_text, is_identifier, is_base64url, bounded_int, bytes_eq,
  parse_utc, timestamp, base64url_decode,
}
use limitlesslibrary.Wire.Shape.{is_text, is_digest}
use limitlesslibrary.Tests.Kits.{ticks, repeated, text_a, text_b, zeros, kit}
use limitlesslibrary.Service.Roots.{
  RootKey, Transition, Roots, transition_json, root_of, within_lifetime, signature, verify,
  root_key,
}
use limitlesslibrary.Service.Roots.Transitions.{
  previous_digest, timing, unsigned_of, transition_of, check_trusted, check_expected,
  validate_root_key_transition, successor_of, advance_root_trust,
}
use limitlesslibrary.Service.Roots.Advance.{advance_root_trust_once}
use limitlesslibrary.Service.Roots.Chain.{
  TransitionSet, set_json, few_transitions, latest_digest_of, last_digest, walk,
  validate_transition_set, decode_key, effective_roots, current_roots,
}
use limitlesslibrary.Service.Roots.Trusted.{IsChain, validate_transition_set-IsChain}
use limitlesslibrary.Service.Roots.Follow.{IsCurrent, IsLast, follow, walk-follow}
use limitlesslibrary.Service.Roots.Current.{Some, IsTrusted, current_roots-IsTrusted}

abbrev key_a : RootKey
key_a = record { key_id = "a"; public_key = text_a; valid_from = ticks 1; valid_until = ticks 9 }

abbrev key_b : RootKey
key_b = record { key_id = "b"; public_key = text_b; valid_from = ticks 3; valid_until = ticks 12 }

abbrev handover : Transition
handover = record {
  unsigned = record {
    service_id = "service";
    sequence = 1;
    previous_digest = none;
    previous_key = key_a;
    next_key = key_b;
    effective_at = ticks 3;
    issued_at = ticks 2;
  };
  digest = zeros;
  authorization = record { key_id = "a"; value = text_a <> text_a };
  acceptance = record { key_id = "b"; value = text_b <> text_b };
}

abbrev old_roots : Roots
old_roots = ("a", repeated 32 b'a') ∷ []

abbrev new_roots : Roots
new_roots = ("b", repeated 32 b'b') ∷ []

advances :
    advance_root_trust kit (transition_json handover) old_roots "service" 1 none 5
    ≡ ok (new_roots, 1, zeros)
unfolding advance_root_trust validate_root_key_transition exact_fields transition_of unsigned_of
    bounded_text is_text is_identifier bounded_int root_key timestamp within_lifetime is_base64url
    base64url_decode bytes_eq digest_text is_digest signature check_expected check_trusted
    previous_digest successor_of timing root_of verify parse_utc
advances = refl

advance_root_trust_once_example : ¬ (
    advance_root_trust kit (transition_json handover) new_roots "service" 2 (some zeros) 6
    ≡ ok (new_roots, 2, zeros))
advance_root_trust_once_example =
    advance_root_trust_once kit (transition_json handover) old_roots "service" 1 none 5
      (new_roots, 1, zeros) advances new_roots 2 (some zeros) 6 (new_roots, 2, zeros) (inl refl)

abbrev handover_set : TransitionSet
handover_set = record {
  service_id = "service";
  transitions = handover ∷ [];
  latest_sequence = 1;
  latest_digest = some zeros;
}

accepts_set : validate_transition_set kit (set_json handover_set) (some old_roots) ≡ ok handover_set
unfolding validate_transition_set few_transitions latest_digest_of walk last_digest
    validate_root_key_transition exact_fields transition_of unsigned_of bounded_text is_text
    is_identifier bounded_int root_key timestamp within_lifetime is_base64url base64url_decode
    bytes_eq digest_text is_digest signature check_expected check_trusted previous_digest timing
    root_of verify parse_utc
accepts_set = refl

validate_transition_set-IsChain_example :
    IsChain kit (some old_roots) "service" 1 none (handover ∷ [])
    × (◌≡◌ {A = ℕ} 1 1)
    × (some zeros ≡ last_digest none (handover ∷ []))
validate_transition_set-IsChain_example =
    validate_transition_set-IsChain kit (set_json handover_set) (some old_roots) handover_set
      accepts_set

walks :
    walk kit (transition_json handover ∷ []) (some old_roots) "service" 1 none ≡ ok (handover ∷ [])
unfolding walk validate_root_key_transition exact_fields transition_of unsigned_of bounded_text
    is_text is_identifier bounded_int root_key timestamp within_lifetime is_base64url
    base64url_decode bytes_eq digest_text is_digest signature check_expected check_trusted
    previous_digest timing root_of verify parse_utc
walks = refl

handover-IsCurrent : IsCurrent kit 5 handover
unfolding successor_of timestamp parse_utc base64url_decode bytes_eq
handover-IsCurrent = ((new_roots, 1, zeros), refl)

walk-follow_example :
    (last : Roots) × (follow kit (transition_json handover ∷ []) "service" (old_roots, 0, none) 5
      ≡ ok (last, 1, last_digest none (handover ∷ [])))
    × IsLast kit old_roots (handover ∷ []) last
walk-follow_example =
    walk-follow kit (transition_json handover ∷ []) old_roots "service" 0 none 5 (handover ∷ [])
      walks (handover-IsCurrent, tt)

trusts_successor : current_roots kit (handover ∷ []) old_roots 5 ≡ ok new_roots
unfolding current_roots effective_roots timestamp parse_utc decode_key
trusts_successor = refl

current_roots-IsTrusted_example :
    (old_roots ≡ new_roots) ⊎ Some (IsTrusted kit 5 new_roots) (handover ∷ [])
current_roots-IsTrusted_example =
    current_roots-IsTrusted kit (handover ∷ []) old_roots 5 new_roots trusts_successor
