-- ===== src/Map/Moves.antt =====
-- packages/adopt-map/src/adopt_map/moves.py: `detect_moves`, over the parser of identity URIs.
use onboard_core.Base.{
  String, Bool, true, false, Option, none, some, List, [], ◌∷◌, ◌++◌, map, filter, any, not, ltb,
  nat_eq, is_some, codes, text_le, sort_by, ◌==◌, ◌&&◌, ◌||◌, if◌then◌else◌,
}
use onboard_core.Obs.{Answer, answered, refused, broke}
use onboard_core.Model.Enums.{IdentityStatus}
use onboard_core.Identity.Texts.{Text, text_eq}
use onboard_core.Identity.Uris.{Codec, parse_uri}

-- Only the columns that the detection reads.
pub record StoredIdentity : Type 0 where
  pub identity_id : String
  pub uri : String
  pub digest : Option String
  pub status : IdentityStatus
  pub extractor : Option String

pub record ObservedIdentity : Type 0 where
  pub uri : String
  pub digest : String
  pub extractor : Option String

pub record MoveCandidate : Type 0 where
  pub identity_id : String
  pub from_uri : String
  pub to : ObservedIdentity

pub record MoveOutcome : Type 0 where
  pub moves : List MoveCandidate
  pub absent : List String
  pub ambiguous : List (List String)

-- `_PairKey`
pub record PairKey : Type 0 where
  pub digest : String
  pub kind : Text
  pub extractor : Option String

abbrev pub same_extractor : Option String → Option String → Bool
same_extractor none none = true
same_extractor none (some b) = false
same_extractor (some a) none = false
same_extractor (some a) (some b) = a == b

abbrev pub key_eq : PairKey → PairKey → Bool
key_eq a b = a.digest == b.digest && text_eq a.kind b.kind && same_extractor a.extractor b.extractor

-- The comparison of two keys in `sorted`, of which one names an extractor and the other none.
abbrev pub raises_type_error : PairKey → PairKey → Bool
raises_type_error a b =
    a.digest == b.digest
    && text_eq a.kind b.kind
    && not (same_extractor a.extractor b.extractor)
    && not (is_some a.extractor && is_some b.extractor)

unfoldable pub kind_le : Text → Text → Bool
kind_le [] b = true
kind_le (c ∷ cs) [] = false
kind_le (c ∷ cs) (d ∷ ds) = ltb c d || nat_eq c d && kind_le cs ds

abbrev pub extractor_le : Option String → Option String → Bool
extractor_le none b = true
extractor_le (some a) none = false
extractor_le (some a) (some b) = text_le a b

-- a <= b, for two keys that can be compared
unfoldable pub key_le : PairKey → PairKey → Bool
unfolding kind_le
key_le a b =
    if a.digest == b.digest
    then (if text_eq a.kind b.kind
        then extractor_le a.extractor b.extractor
        else kind_le a.kind b.kind)
    else text_le a.digest b.digest

unfoldable pub insert_key : PairKey → List PairKey → List PairKey
insert_key k [] = k ∷ []
insert_key k (l ∷ ls) = let rest = insert_key k ls in if key_le k l then k ∷ l ∷ ls else l ∷ rest

-- `disappeared` and `appeared` hold their rows under keys: each key once, then in order.
unfoldable pub sorted_keys : List PairKey → List PairKey
unfolding insert_key
sorted_keys [] = []
sorted_keys (k ∷ ks) =
    let rest = sorted_keys ks in if any (key_eq k) rest then rest else insert_key k rest

unfoldable pub cannot_be_sorted : List PairKey → Bool
cannot_be_sorted [] = false
cannot_be_sorted (k ∷ ks) = any (raises_type_error k) ks || cannot_be_sorted ks

-- `{entry.uri: entry for entry in observed}`: the last entry, in the place of the first.
unfoldable pub set_seen : ObservedIdentity → List ObservedIdentity → List ObservedIdentity
set_seen o [] = o ∷ []
set_seen o (p ∷ ps) = let rest = set_seen o ps in if p.uri == o.uri then o ∷ ps else p ∷ rest

unfoldable pub seen_from : List ObservedIdentity → List ObservedIdentity → List ObservedIdentity
unfolding set_seen
seen_from seen [] = seen
seen_from seen (o ∷ os) = seen_from (set_seen o seen) os

abbrev pub is_live : IdentityStatus → Bool
is_live IdentityStatus.active = true
is_live IdentityStatus.moved = false
is_live IdentityStatus.dead = false

-- The rows of the first loop, each with the digest that it has.
unfoldable pub gone_rows :
    List ObservedIdentity → List StoredIdentity → List (String × StoredIdentity)
gone_rows seen [] = []
gone_rows seen (e ∷ es) =
    let rest = gone_rows seen es in
    if is_live e.status && not (any (λ (o : ObservedIdentity). o.uri == e.uri) seen)
    then (elim e.digest [ none ↦ rest | some digest ↦ (digest, e) ∷ rest ])
    else rest

-- The rows of the second loop.
abbrev pub new_rows : List StoredIdentity → List ObservedIdentity → List ObservedIdentity
new_rows stored = filter (λ o. not (any (λ (e : StoredIdentity). e.uri == o.uri) stored))

module _ (codec : Codec) where
  -- `_kind_of`
  unfoldable pub kind_of : String → Answer Text
  kind_of uri = elim (parse_uri codec (codes uri)) [
    | answered u ↦ answered u.kind
    | refused e ↦ answered []
    | broke ↦ broke
  ]

  -- `_key_of`
  unfoldable pub key_of : String → String → Option String → Answer PairKey
  unfolding kind_of
  key_of digest uri extractor = elim (kind_of uri) [
    | answered kind ↦ answered (record { digest = digest; kind = kind; extractor = extractor })
    | refused e ↦ refused e
    | broke ↦ broke
  ]

-- The rows of a loop with their keys.
unfoldable pub keyed {ℓ} :
    {A : Type ℓ} → (A → Answer PairKey) → List A → Answer (List (PairKey × A))
keyed key [] = answered []
keyed key (a ∷ l) = elim (key a) [
  | refused e ↦ refused e
  | broke ↦ broke
  | answered k ↦ elim (keyed key l) [
    | refused e ↦ refused e
    | broke ↦ broke
    | answered rest ↦ answered ((k, a) ∷ rest)
  ]
]

-- `mapping.get(key, ())`
abbrev pub under {ℓ} : {A : Type ℓ} → PairKey → List (PairKey × A) → List A
under k l = map (λ row. row.1) (filter (λ row. key_eq k row.0) l)

abbrev pub gone_under : PairKey → List (PairKey × (String × StoredIdentity)) → List StoredIdentity
gone_under k gone = sort_by (λ e. e.uri) (map (λ row. row.1) (under k gone))

abbrev pub arrived_under : PairKey → List (PairKey × ObservedIdentity) → List ObservedIdentity
arrived_under k new = sort_by (λ o. o.uri) (under k new)

-- The body of the loop of `_pair`, for the rows under one key.
unfoldable pub pair_rows : List StoredIdentity → List ObservedIdentity → MoveOutcome
pair_rows gone [] = record { moves = []; absent = map (λ e. e.uri) gone; ambiguous = [] }
pair_rows (e ∷ []) (o ∷ []) = record {
  moves = record { identity_id = e.identity_id; from_uri = e.uri; to = o } ∷ [];
  absent = [];
  ambiguous = [];
}
pair_rows gone arrived = record {
  moves = [];
  absent = [];
  ambiguous = (map (λ e. e.uri) gone ++ map (λ o. o.uri) arrived) ∷ [];
}

-- The loop.
unfoldable pub pair_keys :
    List PairKey
    → List (PairKey × (String × StoredIdentity))
    → List (PairKey × ObservedIdentity)
    → MoveOutcome
unfolding pair_rows
pair_keys [] gone new = record { moves = []; absent = []; ambiguous = [] }
pair_keys (k ∷ ks) gone new =
    let here = pair_rows (gone_under k gone) (arrived_under k new) in
    let rest = pair_keys ks gone new in
    record {
      moves = here.moves ++ rest.moves;
      absent = here.absent ++ rest.absent;
      ambiguous = here.ambiguous ++ rest.ambiguous;
    }

-- `_pair`, where `broke` is the `TypeError` of `sorted`.
unfoldable pub pair :
    List (PairKey × (String × StoredIdentity))
    → List (PairKey × ObservedIdentity)
    → Answer MoveOutcome
unfolding sorted_keys cannot_be_sorted pair_keys
pair gone new =
    let keys = map (λ row. row.0) gone in
    let outcome = pair_keys (sorted_keys keys) gone new in
    if cannot_be_sorted keys
    then broke
    else answered (record outcome { absent = sort_by (λ uri. uri) outcome.absent })

module _ (codec : Codec) where
  abbrev pub gone_key : String × StoredIdentity → Answer PairKey
  gone_key row = key_of codec row.0 row.1.uri row.1.extractor

  abbrev pub new_key : ObservedIdentity → Answer PairKey
  new_key o = key_of codec o.digest o.uri o.extractor

  unfoldable pub detect_moves : List ObservedIdentity → List StoredIdentity → Answer MoveOutcome
  unfolding key_of seen_from gone_rows keyed pair
  detect_moves observed stored =
      let seen = seen_from [] observed in
      elim (keyed gone_key (gone_rows seen stored)) [
        | refused e ↦ refused e
        | broke ↦ broke
        | answered gone ↦ elim (keyed new_key (new_rows stored seen)) [
          | refused e ↦ refused e
          | broke ↦ broke
          | answered new ↦ pair gone new
        ]
      ]
