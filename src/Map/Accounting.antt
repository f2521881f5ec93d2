-- ===== src/Map/Accounting.antt =====
-- packages/adopt-map/src/adopt_map/moves.py: every identity that disappeared is reported.
use mathlib.Core.List.Memᴰ
use onboard_core.Base.{
  String, true, ◌≡◌, ◌⊎◌, refl, sym, ap, subst, some, List, [], ◌∷◌, map, Memᴰ, arith, inl, inr,
  sort_by, mem-sort_by,
}
use onboard_core.Obs.{answered}
use onboard_core.Identity.Uris.{Codec}
use onboard_core.Map.Moves.{
  StoredIdentity, ObservedIdentity, MoveCandidate, MoveOutcome, PairKey, gone_rows, gone_under,
  arrived_under, pair_rows, pair_keys, sorted_keys, pair, gone_key, detect_moves,
}
use onboard_core.Map.Keys.{mem-sorted_keys, mem-keyed}
use onboard_core.Map.Pairing.{is_unseen, gone_rows-mem, gone_under-mem}
use onboard_core.Map.Evidence.{seen, detect_moves-Detected}

-- The identity is moved, or its URI is reported as absent or in an ambiguous group.
abbrev pub IsReported : MoveOutcome → StoredIdentity → Type 0
IsReported outcome e =
    ((m : MoveCandidate) × Memᴰ m outcome.moves
      × (m.identity_id ≡ e.identity_id)
      × (m.from_uri ≡ e.uri))
    ⊎ (Memᴰ e.uri outcome.absent
        ⊎ ((group : List String) × Memᴰ group outcome.ambiguous × Memᴰ e.uri group))

uris : List StoredIdentity → List String
uris = map (λ e. e.uri)

pair_rows-IsReported :
    (gone : List StoredIdentity) (arrived : List ObservedIdentity) (e : StoredIdentity)
    → Memᴰ e gone
    → IsReported (pair_rows gone arrived) e
unfolding pair_rows
pair_rows-IsReported [] arrived e m = elim m [ ]
pair_rows-IsReported (f ∷ gone) [] e m = inr (inl (Memᴰ.map (λ t. t.uri) m))
pair_rows-IsReported (f ∷ []) (o ∷ []) e m =
    let same = sym (Memᴰ.eq_of_singleton m) in
    inl (
      record { identity_id = f.identity_id; from_uri = f.uri; to = o },
      Memᴰ.head refl,
      ap StoredIdentity.identity_id same,
      ap StoredIdentity.uri same,
    )
pair_rows-IsReported (f ∷ []) (o ∷ p ∷ os) e m =
    inr (inr (_, Memᴰ.head refl, Memᴰ.append_left _ (Memᴰ.map (λ t. t.uri) m)))
pair_rows-IsReported (f ∷ g ∷ gone) (o ∷ os) e m =
    inr (inr (_, Memᴰ.head refl, Memᴰ.append_left _ (Memᴰ.map (λ t. t.uri) m)))

module _ (gone : List (PairKey × (String × StoredIdentity)))
    (new : List (PairKey × ObservedIdentity)) where
  pair_keys-IsReported :
      (ks : List PairKey) (k : PairKey) (e : StoredIdentity)
      → Memᴰ k ks
      → IsReported (pair_rows (gone_under k gone) (arrived_under k new)) e
      → IsReported (pair_keys ks gone new) e
  unfolding pair_keys
  pair_keys-IsReported [] k e m r = elim m [ ]
  pair_keys-IsReported (j ∷ ks) k e m r = elim (Memᴰ.cases_cons m) [
    | inl here ↦
        let there =
          subst (λ t. IsReported (pair_rows (gone_under t gone) (arrived_under t new)) e) here r in
        elim there [
          | inl (c, moved, i, u) ↦ inl (c, Memᴰ.append_left _ moved, i, u)
          | inr (inl absent) ↦ inr (inl (Memᴰ.append_left _ absent))
          | inr (inr (group, listed, within)) ↦ inr (inr (group, Memᴰ.append_left _ listed, within))
        ]
    | inr later ↦ elim (pair_keys-IsReported ks k e later r) [
      | inl (c, moved, i, u) ↦ inl (c, Memᴰ.append_right _ moved, i, u)
      | inr (inl absent) ↦ inr (inl (Memᴰ.append_right _ absent))
      | inr (inr (group, listed, within)) ↦ inr (inr (group, Memᴰ.append_right _ listed, within))
    ]
  ]

-- When `detect_moves` answers, every live stored identity with a digest that the run did not see
-- is moved, or its URI is reported as absent or in an ambiguous group.
pub detect_moves-IsReported :
    (codec : Codec) (observed : List ObservedIdentity) (stored : List StoredIdentity)
    (outcome : MoveOutcome) (e : StoredIdentity) (digest : String)
    → detect_moves codec observed stored ≡ answered outcome
    → Memᴰ e stored
    → is_unseen (seen codec observed stored) e ≡ true
    → e.digest ≡ some digest
    → IsReported outcome e
unfolding pair
detect_moves-IsReported codec observed stored outcome e digest answers listed unseen has =
    let d = detect_moves-Detected codec observed stored outcome answers in
    let rows = gone_rows (seen codec observed stored) stored in
    let row = gone_rows-mem (seen codec observed stored) stored digest e listed unseen has in
    let (k, there, named) = mem-keyed (gone_key codec) rows d.gone d.gone_keyed row in
    let keys = map (λ (row : PairKey × (String × StoredIdentity)). row.0) d.gone in
    let key_listed =
      mem-sorted_keys keys
        (Memᴰ.map (λ (row : PairKey × (String × StoredIdentity)). row.0) there) in
    let all_of = pair_keys (sorted_keys keys) d.gone d.new in
    let reported = pair_keys-IsReported d.gone d.new (sorted_keys keys) k e key_listed (
      pair_rows-IsReported (gone_under k d.gone) (arrived_under k d.new) e
        (gone_under-mem d.gone d.new digest there)) in
    let made : outcome ≡ record all_of { absent = sort_by (λ uri. uri) all_of.absent } =
      ground (arith, d.paired) in
    subst (λ t. IsReported t e) (sym made)
      (elim reported [
        | inl moved ↦ inl moved
        | inr (inl absent) ↦ inr (inl ((mem-sort_by (λ uri. uri) all_of.absent).1 absent))
        | inr (inr group) ↦ inr (inr group)
      ])
