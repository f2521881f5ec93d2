-- ===== src/Map/Samples.antt =====
-- One identity that moved, and one that is gone.
use mathlib.Core.List.Memᴰ
use onboard_core.Base.{String, ◌≡◌, refl, some, List, [], ◌∷◌, codes, sort_by, insert_by}
use onboard_core.Obs.{answered}
use onboard_core.Model.Enums.{IdentityStatus}
use onboard_core.Scope.Slugs.{matches_slug_pattern}
use onboard_core.Identity.Texts.{utf8_length, has_percent_triplet, split_from, partition}
use onboard_core.Identity.Uris.{
  Codec, uri_scheme, scheme_separator, identity_kinds, parse_uri, is_slug,
}
use onboard_core.Map.Moves.{
  StoredIdentity, ObservedIdentity, MoveCandidate, MoveOutcome, detect_moves, key_le,
}
use onboard_core.Map.Evidence.{IsEvident, detect_moves-IsEvident}
use onboard_core.Map.Accounting.{IsReported, detect_moves-IsReported}

abbrev codec : Codec
codec = record { normalize = λ t. t; quote = λ t. t; unquote = λ t. some t }

abbrev orders : String
orders = "onboard-v1://acme/pay/billing/prod/endpoint/-/orders"

abbrev orders_v2 : String
orders_v2 = "onboard-v1://acme/pay/billing/prod/endpoint/-/v2"

abbrev refunds : String
refunds = "onboard-v1://acme/pay/billing/prod/endpoint/-/refunds"

abbrev held : String → String → String → StoredIdentity
held id uri digest = record {
  identity_id = id;
  uri = uri;
  digest = some digest;
  status = IdentityStatus.active;
  extractor = some "web";
}

abbrev arrival : ObservedIdentity
arrival = record { uri = orders_v2; digest = "d1"; extractor = some "web" }

abbrev stored : List StoredIdentity
stored = held "idn_1" orders "d1" ∷ held "idn_2" refunds "d2" ∷ []

abbrev move : MoveCandidate
move = record { identity_id = "idn_1"; from_uri = orders; to = arrival }

abbrev outcome : MoveOutcome
outcome = record { moves = move ∷ []; absent = refunds ∷ []; ambiguous = [] }

detects : detect_moves codec (arrival ∷ []) stored ≡ answered outcome
unfolding detect_moves key_le parse_uri uri_scheme scheme_separator identity_kinds is_slug codes
    matches_slug_pattern utf8_length has_percent_triplet split_from partition sort_by insert_by
detects = refl

detect_moves-IsEvident_example : IsEvident codec (arrival ∷ []) stored move
detect_moves-IsEvident_example =
    detect_moves-IsEvident codec (arrival ∷ []) stored outcome move detects (Memᴰ.head refl)

detect_moves-IsReported_example : IsReported outcome (held "idn_2" refunds "d2")
unfolding detect_moves
detect_moves-IsReported_example =
    detect_moves-IsReported codec (arrival ∷ []) stored outcome (held "idn_2" refunds "d2") "d2"
      detects (Memᴰ.tail (Memᴰ.head refl)) refl refl
