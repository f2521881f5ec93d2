-- ===== src/Map/Pairing.antt =====
-- packages/adopt-map/src/adopt_map/moves.py: what `detect_moves` pairs.
use mathlib.Core.List.Memᴰ
use onboard_core.Base.{
  String, Bool, true, ◌≡◌, refl, sym, ap, ◌∙◌, subst, Option, some, List, [], ◌∷◌, map, any, not,
  Memᴰ, arith, ◌&&◌, ◌==◌, Bool-cases, Option-cases, inl, inr, mem-sort_by,
}
use onboard_core.Obs.{answered, Answer-cases}
use onboard_core.Identity.Uris.{Codec}
use onboard_core.Map.Moves.{
  StoredIdentity, ObservedIdentity, MoveCandidate, PairKey, is_live, gone_rows, kind_of, key_of,
  under, gone_under, arrived_under, pair_rows, pair_keys,
}
use onboard_core.Map.Keys.{under-mem, mem-under}

-- A live identity that the run did not see.
abbrev pub is_unseen : List ObservedIdentity → StoredIdentity → Bool
is_unseen seen e = is_live e.status && not (any (λ (o : ObservedIdentity). o.uri == e.uri) seen)

abbrev pub is_unknown : List StoredIdentity → ObservedIdentity → Bool
is_unknown stored o = not (any (λ (e : StoredIdentity). e.uri == o.uri) stored)

pub mem-gone_rows :
    (seen : List ObservedIdentity) (stored : List StoredIdentity) {digest : String}
    {e : StoredIdentity}
    → Memᴰ (digest, e) (gone_rows seen stored)
    → Memᴰ e stored × (is_unseen seen e ≡ true) × (e.digest ≡ some digest)
unfolding gone_rows
mem-gone_rows seen [] m = elim m [ ]
mem-gone_rows seen (f ∷ stored) {digest} {e} m = elim (Bool-cases (is_unseen seen f)) [
  | inr out ↦ let (there, u, d) = mem-gone_rows seen stored (rw out at m) in (Memᴰ.tail there, u, d)
  | inl unseen ↦ elim (Option-cases f.digest) [
    | inl bare ↦
        let (there, u, d) = mem-gone_rows seen stored (rw (unseen, bare) at m) in
        (Memᴰ.tail there, u, d)
    | inr (held, has) ↦ elim (Memᴰ.cases_cons (rw (unseen, has) at m)) [
      | inl here ↦
          let same : e ≡ f = ap (λ r. r.1) here in
          (
            Memᴰ.head same,
            ap (is_unseen seen) same ∙ unseen,
            ap (λ (t : StoredIdentity). t.digest) same ∙ has ∙ ap some (sym (ap (λ r. r.0) here)),
          )
      | inr later ↦ let (there, u, d) = mem-gone_rows seen stored later in (Memᴰ.tail there, u, d)
    ]
  ]
]

pub gone_rows-mem :
    (seen : List ObservedIdentity) (stored : List StoredIdentity) (digest : String)
    (e : StoredIdentity)
    → Memᴰ e stored
    → is_unseen seen e ≡ true
    → e.digest ≡ some digest
    → Memᴰ (digest, e) (gone_rows seen stored)
unfolding gone_rows
gone_rows-mem seen [] digest e m u d = elim m [ ]
gone_rows-mem seen (f ∷ stored) digest e m u d = elim (Memᴰ.cases_cons m) [
  | inl here ↦
      let unseen = sym (ap (is_unseen seen) here) ∙ u in
      let has = sym (ap (λ (t : StoredIdentity). t.digest) here) ∙ d in
      rw (unseen, has) (Memᴰ.head (ap (λ (t : StoredIdentity). (digest, t)) here))
  | inr later ↦
      let there = gone_rows-mem seen stored digest e later u d in
      elim (Bool-cases (is_unseen seen f)) [
        | inr out ↦ rw out there
        | inl unseen ↦ elim (Option-cases f.digest) [
          | inl bare ↦ rw (unseen, bare) there
          | inr (held, has) ↦ rw (unseen, has) (Memᴰ.tail there)
        ]
      ]
]

module _ (codec : Codec) where
  pub key_of-answered :
      (digest uri : String) (extractor : Option String) (k : PairKey)
      → key_of codec digest uri extractor ≡ answered k
      → (k.digest ≡ digest) × (kind_of codec uri ≡ answered k.kind) × (k.extractor ≡ extractor)
  unfolding key_of
  key_of-answered digest uri extractor k e = elim (Answer-cases (kind_of codec uri)) [
    | inl (kind, found) ↦ ground (arith, found, e)
    | inr other ↦ elim other [
      | inl (c, bad) ↦ absurd (ground (arith, bad, e))
      | inr bad ↦ absurd (ground (arith, bad, e))
    ]
  ]

pub mem-pair_rows :
    (gone : List StoredIdentity) (arrived : List ObservedIdentity) (m : MoveCandidate)
    → Memᴰ m (pair_rows gone arrived).moves
    → (e : StoredIdentity) × (o : ObservedIdentity) × (gone ≡ e ∷ [])
      × (arrived ≡ o ∷ [])
      × (m ≡ record { identity_id = e.identity_id; from_uri = e.uri; to = o })
unfolding pair_rows
mem-pair_rows gone [] m k = elim k [ ]
mem-pair_rows [] (o ∷ os) m k = elim k [ ]
mem-pair_rows (e ∷ []) (o ∷ []) m k = (e, o, refl, refl, Memᴰ.eq_of_singleton k)
mem-pair_rows (e ∷ f ∷ gone) (o ∷ os) m k = elim k [ ]
mem-pair_rows (e ∷ []) (o ∷ p ∷ os) m k = elim k [ ]

module _ (gone : List (PairKey × (String × StoredIdentity)))
    (new : List (PairKey × ObservedIdentity)) where
  pub mem-pair_keys :
      (ks : List PairKey) (m : MoveCandidate)
      → Memᴰ m (pair_keys ks gone new).moves
      → (k : PairKey) × Memᴰ m (pair_rows (gone_under k gone) (arrived_under k new)).moves
  unfolding pair_keys
  mem-pair_keys [] m there = elim there [ ]
  mem-pair_keys (k ∷ ks) m there =
      elim (Memᴰ.append_cases (pair_rows (gone_under k gone) (arrived_under k new)).moves there) [
        | inl here ↦ (k, here)
        | inr later ↦ mem-pair_keys ks m later
      ]

  pub mem-gone_under :
      {k : PairKey} {e : StoredIdentity}
      → Memᴰ e (gone_under k gone)
      → (digest : String) × Memᴰ (k, (digest, e)) gone
  mem-gone_under {k} {e} m =
      let (row, there, made) =
        Memᴰ.of_map (λ (row : String × StoredIdentity). row.1) (under k gone)
          ((mem-sort_by (λ (t : StoredIdentity). t.uri)
              (map (λ (row : String × StoredIdentity). row.1) (under k gone))).0
            m) in
      (
        row.0,
        mem-under gone (subst (λ (t : StoredIdentity). Memᴰ (row.0, t) (under k gone)) made there),
      )

  pub gone_under-mem :
      {k : PairKey} {e : StoredIdentity} (digest : String)
      → Memᴰ (k, (digest, e)) gone
      → Memᴰ e (gone_under k gone)
  gone_under-mem {k} {e} digest m =
      (mem-sort_by (λ (t : StoredIdentity). t.uri)
          (map (λ (row : String × StoredIdentity). row.1) (under k gone))).1
        (Memᴰ.map (λ (row : String × StoredIdentity). row.1) (under-mem gone m))

  pub mem-arrived_under :
      {k : PairKey} {o : ObservedIdentity} → Memᴰ o (arrived_under k new) → Memᴰ (k, o) new
  mem-arrived_under {k} m =
      mem-under new ((mem-sort_by (λ (t : ObservedIdentity). t.uri) (under k new)).0 m)

  pub arrived_under-mem :
      {k : PairKey} {o : ObservedIdentity} → Memᴰ (k, o) new → Memᴰ o (arrived_under k new)
  arrived_under-mem {k} m =
      (mem-sort_by (λ (t : ObservedIdentity). t.uri) (under k new)).1 (under-mem new m)
