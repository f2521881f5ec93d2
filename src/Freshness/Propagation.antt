-- ===== src/Freshness/Propagation.antt =====
-- packages/adopt-freshness/src/adopt_freshness/resolve.py: the part of the bindings in a resolution.
use onboard_core.Base.{
  Bool, true, false, some, ap, ℕ, String, ◌≡◌, refl, sym, ◌∙◌, Option, List, [], ◌∷◌, map, Memᴰ,
  arith, filter, sort_by, mem-sort_by,
}
use mathlib.Core.List.Memᴰ
use onboard_core.Model.Enums.{BindingStatus, IdentityStatus}
use onboard_core.Model.Tables.{Binding}
use onboard_core.Freshness.Resolve.{
  FreshnessRecords, is_consulted, binding_blocker, load_bearing_blocker_in, load_bearing_blocker,
  item_blocker, resolve_item, resolve_freshness,
}
use onboard_core.Freshness.Bindings.{load_bearing_blocker-filter}

-- What a status query says of an id does not depend on the other ids that it asks for.
pub record IsKeyed (records : FreshnessRecords) : Type 0 where
  pub bindings_keyed :
      (ids : List String) (id : String)
      → Memᴰ id ids
      → records.head_binding_statuses ids id ≡ records.head_binding_statuses (id ∷ []) id
  pub identities_keyed :
      (ids : List String) (id : String)
      → Memᴰ id ids
      → records.head_identity_statuses ids id ≡ records.head_identity_statuses (id ∷ []) id

module _ (records : FreshnessRecords) where
  abbrev pub binding_status : String → Option BindingStatus
  binding_status id = records.head_binding_statuses (id ∷ []) id

  abbrev pub identity_status : String → Option IdentityStatus
  identity_status id = records.head_identity_statuses (id ∷ []) id

  -- A load-bearing binding whose head revision, if there is one, does not say that it moved.
  abbrev pub is_carrying : Binding → Bool
  is_carrying b = elim b.is_load_bearing [
    | false ↦ false
    | true ↦ elim (binding_status b.id) [ some BindingStatus.moved ↦ false | _ ↦ true ]
  ]

  -- The same store without the other bindings.
  abbrev pub only_carrying : FreshnessRecords
  only_carrying = record records {
    bindings_for_item = λ id. filter is_carrying (records.bindings_for_item id);
  }

  is_consulted-carrying : (b : Binding) → is_consulted binding_status b ≡ is_carrying b
  unfolding is_consulted
  is_consulted-carrying b = ground arith

  filter-carrying :
      (l : List Binding) → filter (is_consulted binding_status) l ≡ filter is_carrying l
  filter-carrying [] = refl
  filter-carrying (b ∷ l) = ground (arith, is_consulted-carrying b, filter-carrying l)

is_consulted-agree :
    (s t : String → Option BindingStatus) (b : Binding)
    → s b.id ≡ t b.id
    → is_consulted s b ≡ is_consulted t b
unfolding is_consulted
is_consulted-agree s t b e = rw e

binding_blocker-agree :
    (s t : String → Option BindingStatus) (i j : String → Option IdentityStatus) (b : Binding)
    → s b.id ≡ t b.id
    → i b.identity_id ≡ j b.identity_id
    → binding_blocker s i b ≡ binding_blocker t j b
unfolding binding_blocker
binding_blocker-agree s t i j b e f = rw (e, f)

module _ (s t : String → Option BindingStatus) (i j : String → Option IdentityStatus) where
  -- The mappings agree on the ids that the rows of a list name.
  abbrev Agree : List Binding → Type 0
  Agree l = (b : Binding) → Memᴰ b l → (s b.id ≡ t b.id) × (i b.identity_id ≡ j b.identity_id)

  load_bearing_blocker_in-Agree :
      (l : List Binding) → Agree l → load_bearing_blocker_in s i l ≡ load_bearing_blocker_in t j l
  unfolding load_bearing_blocker_in
  load_bearing_blocker_in-Agree [] h = refl
  load_bearing_blocker_in-Agree (b ∷ l) h =
      let (e, f) = h b (Memᴰ.head refl) in
      let same = is_consulted-agree s t b e in
      let said = binding_blocker-agree s t i j b e f in
      let rest = load_bearing_blocker_in-Agree l (λ c m. h c (Memᴰ.tail m)) in
      ground (arith, same, said, rest)

  load_bearing_blocker-Agree :
      (l : List Binding) → Agree l → load_bearing_blocker s i l ≡ load_bearing_blocker t j l
  unfolding load_bearing_blocker
  load_bearing_blocker-Agree l h =
      load_bearing_blocker_in-Agree (sort_by (λ row. row.id) l)
        (λ b m. h b ((mem-sort_by (λ row. row.id) l).0 m))

module _ (records : FreshnessRecords) (keyed : IsKeyed records) (now : ℕ) where
  -- The blocker of an item is that of its bindings under the statuses of single ids.
  item_blocker-keyed :
      (id : String)
      → item_blocker records now id
        ≡ load_bearing_blocker
            (binding_status records)
            (identity_status records)
            (records.bindings_for_item id)
  unfolding item_blocker
  item_blocker-keyed id =
      load_bearing_blocker-Agree (records.head_binding_statuses (map (λ row. row.id) bindings))
        (binding_status records)
        (records.head_identity_statuses (map (λ row. row.identity_id) bindings))
        (identity_status records) bindings
        (λ b m. (
          keyed.bindings_keyed (map (λ row. row.id) bindings) b.id (Memᴰ.map (λ row. row.id) m),
          keyed.identities_keyed (map (λ row. row.identity_id) bindings) b.identity_id
              (Memᴰ.map (λ row. row.identity_id) m),
        ))
    where
      bindings : List Binding
      bindings = records.bindings_for_item id

only_carrying-IsKeyed :
    (records : FreshnessRecords) → IsKeyed records → IsKeyed (only_carrying records)
only_carrying-IsKeyed records keyed = record {
  bindings_keyed = keyed.bindings_keyed;
  identities_keyed = keyed.identities_keyed;
}

-- If what a status query says of an id does not depend on the other ids that it asks for, then
-- every item resolves as it would if the bindings that are not load-bearing, and those whose head
-- revision says that they moved, were not there at all.
pub resolve_freshness-only_carrying :
    (records : FreshnessRecords) (keyed : IsKeyed records) (now : ℕ) (id : String)
    → resolve_freshness (only_carrying records) now id ≡ resolve_freshness records now id
unfolding resolve_freshness resolve_item
resolve_freshness-only_carrying records keyed now id = ground (arith, same)
  where
    same : item_blocker (only_carrying records) now id ≡ item_blocker records now id
    same =
        item_blocker-keyed (only_carrying records) (only_carrying-IsKeyed records keyed) now id
        ∙ ap (load_bearing_blocker (binding_status records) (identity_status records))
            (sym (filter-carrying records (records.bindings_for_item id)))
        ∙ sym (
            load_bearing_blocker-filter (binding_status records) (identity_status records)
              (records.bindings_for_item id))
        ∙ sym (item_blocker-keyed records keyed now id)
