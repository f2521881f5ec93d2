-- ===== src/Freshness/Bindings.antt =====
-- packages/adopt-freshness/src/adopt_freshness/resolve.py: `_load_bearing_blocker`.
use mathlib.Core.List.Memᴰ
use onboard_core.Base.{
  String, true, ◌≡◌, refl, ap, ◌∙◌, Option, none, some, List, [], ◌∷◌, Memᴰ, Permᴰ, inl, inr, arith,
  filter, sort_by, mem-sort_by, KeysDiffer, sort_by-perm, IsSorted, sort_by-IsSorted,
  filter-sort_by, text_le, text_le_refl, Bool-cases, Option-cases,
}
use onboard_core.Model.Enums.{BindingStatus, IdentityStatus}
use onboard_core.Model.Tables.{Binding}
use onboard_core.Freshness.Resolve.{
  FreshnessLevel, Rule, is_consulted, binding_blocker, load_bearing_blocker_in,
  load_bearing_blocker,
}

abbrev pub by_id : Binding → String
by_id row = row.id

module _ (statuses : String → Option BindingStatus)
    (identities : String → Option IdentityStatus) where
  load_bearing_blocker_in-filter :
      (l : List Binding)
      → load_bearing_blocker_in statuses identities l
        ≡ load_bearing_blocker_in statuses identities (filter (is_consulted statuses) l)
  unfolding load_bearing_blocker_in
  load_bearing_blocker_in-filter [] = refl
  load_bearing_blocker_in-filter (b ∷ l) = ground (arith, load_bearing_blocker_in-filter l)

  -- Removing every binding that is not load-bearing or was superseded changes nothing.
  pub load_bearing_blocker-filter :
      (l : List Binding)
      → load_bearing_blocker statuses identities l
        ≡ load_bearing_blocker statuses identities (filter (is_consulted statuses) l)
  unfolding load_bearing_blocker
  load_bearing_blocker-filter l =
      load_bearing_blocker_in-filter (sort_by by_id l)
      ∙ ap (load_bearing_blocker_in statuses identities)
          (filter-sort_by by_id (is_consulted statuses) l)

  -- If no two bindings of a list share an id, then the order in which the rows arrive changes
  -- nothing in what blocks the item.
  pub load_bearing_blocker-perm :
      {l m : List Binding}
      → Permᴰ l m
      → KeysDiffer by_id l
      → load_bearing_blocker statuses identities l ≡ load_bearing_blocker statuses identities m
  unfolding load_bearing_blocker
  load_bearing_blocker-perm p d =
      ap (load_bearing_blocker_in statuses identities) (sort_by-perm by_id p d)

  abbrev pub Blocks : Binding → FreshnessLevel × Rule → Type 0
  Blocks b v = (is_consulted statuses b ≡ true) × (binding_blocker statuses identities b ≡ some v)

  load_bearing_blocker_in-none :
      (l : List Binding)
      → load_bearing_blocker_in statuses identities l ≡ none
      → (b : Binding) (v : FreshnessLevel × Rule) → Memᴰ b l
      → ¬ Blocks b v
  unfolding load_bearing_blocker_in
  load_bearing_blocker_in-none [] e b v m k = elim m [ ]
  load_bearing_blocker_in-none (c ∷ l) e b v (Memᴰ.head h) k = ground arith
  load_bearing_blocker_in-none (c ∷ l) e b v (Memᴰ.tail m) k =
      load_bearing_blocker_in-none l (ground arith) b v m k

  -- `b` blocks with `v`, and no blocking binding of `l` has a smaller id.
  pub record IsFirstBlocker (l : List Binding) (v : FreshnessLevel × Rule) : Type 0 where
    pub blocker : Binding
    pub listed : Memᴰ blocker l
    pub blocks : Blocks blocker v
    pub first :
        (c : Binding) (w : FreshnessLevel × Rule)
        → Memᴰ c l
        → Blocks c w
        → text_le blocker.id c.id ≡ true

  IsFirstBlocker-cons :
      (c : Binding) {l : List Binding} {v : FreshnessLevel × Rule}
      → ((w : FreshnessLevel × Rule) → ¬ Blocks c w)
      → IsFirstBlocker l v
      → IsFirstBlocker (c ∷ l) v
  IsFirstBlocker-cons c silent f = record {
    blocker = f.blocker;
    listed = Memᴰ.tail f.listed;
    blocks = f.blocks;
    first = λ d w m k. elim (Memᴰ.cases_cons m) [
      | inl h ↦ absurd (silent w (rw h at k))
      | inr t ↦ f.first d w t k
    ];
  }

  load_bearing_blocker_in-some :
      (l : List Binding)
      → IsSorted by_id l
      → (v : FreshnessLevel × Rule) → load_bearing_blocker_in statuses identities l ≡ some v
      → IsFirstBlocker l v
  unfolding load_bearing_blocker_in
  load_bearing_blocker_in-some [] s v e = cc
  load_bearing_blocker_in-some (c ∷ l) s v e = elim (Bool-cases (is_consulted statuses c)) [
    | inr skipped ↦
        IsFirstBlocker-cons c (λ w k. cc (k.0))
          (load_bearing_blocker_in-some l s.1 v (ground arith))
    | inl consulted ↦ elim (Option-cases (binding_blocker statuses identities c)) [
      | inl silent ↦
          IsFirstBlocker-cons c (λ w k. cc (k.1))
            (load_bearing_blocker_in-some l s.1 v (ground arith))
      | inr (w, found) ↦ record {
        blocker = c;
        listed = Memᴰ.head refl;
        blocks = (consulted, ground arith);
        first = λ d w' m k. elim (Memᴰ.cases_cons m) [
          | inl h ↦ rw h (text_le_refl c.id)
          | inr t ↦ s.0 d t
        ];
      }
    ]
  ]

  -- If the bindings of an item block it, then with the level and the rule of a blocking binding of
  -- the list, and no blocking binding of the list has a smaller id.
  pub load_bearing_blocker-some :
      (l : List Binding) (v : FreshnessLevel × Rule)
      → load_bearing_blocker statuses identities l ≡ some v
      → IsFirstBlocker l v
  unfolding load_bearing_blocker
  load_bearing_blocker-some l v e =
      let f = load_bearing_blocker_in-some (sort_by by_id l) (sort_by-IsSorted by_id l) v e in
      record {
        blocker = f.blocker;
        listed = (mem-sort_by by_id l).0 f.listed;
        blocks = f.blocks;
        first = λ c w m k. f.first c w ((mem-sort_by by_id l).1 m) k;
      }

  -- Nothing blocks exactly when no consulted binding does.
  pub load_bearing_blocker-none :
      (l : List Binding)
      → load_bearing_blocker statuses identities l ≡ none
      → (b : Binding) (v : FreshnessLevel × Rule) → Memᴰ b l
      → ¬ Blocks b v
  unfolding load_bearing_blocker
  load_bearing_blocker-none l e b v m =
      load_bearing_blocker_in-none (sort_by by_id l) e b v ((mem-sort_by by_id l).1 m)
