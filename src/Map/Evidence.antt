-- ===== src/Map/Evidence.antt =====
-- packages/adopt-map/src/adopt_map/moves.py: the moves that `detect_moves` reports, and the identities
-- that it accounts for.
use mathlib.Core.List.Memᴰ
use onboard_core.Base.{
  String, true, ◌≡◌, refl, sym, ap, ◌∙◌, subst, some, List, [], map, Memᴰ, mem-filter, filter-mem,
  arith, inl, inr,
}
use onboard_core.Obs.{answered, Answer-cases}
use onboard_core.Identity.Uris.{Codec}
use onboard_core.Map.Moves.{
  StoredIdentity, ObservedIdentity, MoveCandidate, MoveOutcome, PairKey, seen_from, gone_rows,
  new_rows, kind_of, keyed, gone_under, arrived_under, pair_rows, pair_keys, sorted_keys, pair,
  gone_key, new_key, detect_moves,
}
use onboard_core.Map.Keys.{keyed-mem, mem-keyed}
use onboard_core.Map.Pairing.{
  is_unseen, is_unknown, mem-gone_rows, gone_rows-mem, key_of-answered, mem-pair_rows,
  mem-pair_keys, mem-gone_under, gone_under-mem, mem-arrived_under, arrived_under-mem,
}

module _ (codec : Codec) (observed : List ObservedIdentity) (stored : List StoredIdentity) where
  abbrev pub seen : List ObservedIdentity
  seen = seen_from [] observed

  -- A stored identity and an observed one that could be one referent.
  pub record Matches (e : StoredIdentity) (o : ObservedIdentity) : Type 0 where
    pub listed : Memᴰ e stored
    pub unseen : is_unseen seen e ≡ true
    pub arrived : Memᴰ o seen
    pub unknown : is_unknown stored o ≡ true
    pub same_digest : e.digest ≡ some o.digest
    pub same_kind : kind_of codec e.uri ≡ kind_of codec o.uri
    pub same_extractor : e.extractor ≡ o.extractor

  -- The move is of one identity that matches, and neither side matches anything else.
  pub record IsEvident (m : MoveCandidate) : Type 0 where
    pub from : StoredIdentity
    pub named : m.identity_id ≡ from.identity_id
    pub addressed : m.from_uri ≡ from.uri
    pub matches : Matches from m.to
    pub only_gone : (e : StoredIdentity) → Matches e m.to → e ≡ from
    pub only_new : (o : ObservedIdentity) → Matches from o → o ≡ m.to

  -- The keyed rows of a detection that answered.
  pub record Detected (outcome : MoveOutcome) : Type 0 where
    pub gone : List (PairKey × (String × StoredIdentity))
    pub new : List (PairKey × ObservedIdentity)
    pub gone_keyed : keyed (gone_key codec) (gone_rows seen stored) ≡ answered gone
    pub new_keyed : keyed (new_key codec) (new_rows stored seen) ≡ answered new
    pub paired : pair gone new ≡ answered outcome

  pub detect_moves-Detected :
      (outcome : MoveOutcome)
      → detect_moves codec observed stored ≡ answered outcome
      → Detected outcome
  unfolding detect_moves
  detect_moves-Detected outcome e =
      elim (Answer-cases (keyed (gone_key codec) (gone_rows seen stored))) [
        | inr other ↦ elim other [
          | inl (c, bad) ↦ absurd (ground (arith, bad, e))
          | inr bad ↦ absurd (ground (arith, bad, e))
        ]
        | inl (gone, first) ↦ elim (Answer-cases (keyed (new_key codec) (new_rows stored seen))) [
          | inr other ↦ elim other [
            | inl (c, bad) ↦ absurd (ground (arith, first, bad, e))
            | inr bad ↦ absurd (ground (arith, first, bad, e))
          ]
          | inl (new, second) ↦ record {
            gone = gone;
            new = new;
            gone_keyed = first;
            new_keyed = second;
            paired = ground (arith, first, second, e);
          }
        ]
      ]

  module _ (outcome : MoveOutcome) (d : Detected outcome) where
    gone_of :
        {k : PairKey} {digest : String} {e : StoredIdentity}
        → Memᴰ (k, (digest, e)) d.gone
        → Memᴰ e stored
          × (is_unseen seen e ≡ true)
          × (e.digest ≡ some k.digest)
          × (kind_of codec e.uri ≡ answered k.kind)
          × (k.extractor ≡ e.extractor)
    gone_of {k} {digest} {e} m =
        let (row, named) =
          keyed-mem (gone_key codec) (gone_rows seen stored) d.gone d.gone_keyed m in
        let (there, unseen, has) = mem-gone_rows seen stored row in
        let (same, kind, extractor) = key_of-answered codec digest e.uri e.extractor k named in
        (there, unseen, has ∙ ap some (sym same), kind, extractor)

    new_of :
        {k : PairKey} {o : ObservedIdentity}
        → Memᴰ (k, o) d.new
        → Memᴰ o seen
          × (is_unknown stored o ≡ true)
          × (k.digest ≡ o.digest)
          × (kind_of codec o.uri ≡ answered k.kind)
          × (k.extractor ≡ o.extractor)
    new_of {k} {o} m =
        let (row, named) = keyed-mem (new_key codec) (new_rows stored seen) d.new d.new_keyed m in
        let (there, unknown) = mem-filter (is_unknown stored) seen row in
        let (same, kind, extractor) = key_of-answered codec o.digest o.uri o.extractor k named in
        (there, unknown, same, kind, extractor)

    same_key :
        (j k : PairKey)
        → j.digest ≡ k.digest
        → answered j.kind ≡ answered k.kind
        → j.extractor ≡ k.extractor
        → j ≡ k
    same_key j k e f g = ground (arith, e, f, g)

    -- What matches an identity that stands under a key stands under it too.
    gone_by_key :
        (k : PairKey) (o : ObservedIdentity) (e : StoredIdentity)
        → Memᴰ (k, o) d.new
        → Matches e o
        → Memᴰ e (gone_under k d.gone)
    gone_by_key k o e m p =
        let (_, _, digest, kind, extractor) = new_of m in
        let row = gone_rows-mem seen stored o.digest e p.listed p.unseen p.same_digest in
        let (j, there, named) =
          mem-keyed (gone_key codec) (gone_rows seen stored) d.gone d.gone_keyed row in
        let (dj, kj, xj) = key_of-answered codec o.digest e.uri e.extractor j named in
        let same =
          same_key j k (dj ∙ sym digest) (sym kj ∙ p.same_kind ∙ kind)
            (xj ∙ p.same_extractor ∙ sym extractor) in
        gone_under-mem d.gone d.new o.digest
          (subst (λ (t : PairKey). Memᴰ (t, (o.digest, e)) d.gone) same there)

    new_by_key :
        (k : PairKey) (digest : String) (e : StoredIdentity) (o : ObservedIdentity)
        → Memᴰ (k, (digest, e)) d.gone
        → Matches e o
        → Memᴰ o (arrived_under k d.new)
    new_by_key k digest e o m p =
        let (_, _, has, kind, extractor) = gone_of m in
        let row = filter-mem (is_unknown stored) seen p.arrived p.unknown in
        let (j, there, named) =
          mem-keyed (new_key codec) (new_rows stored seen) d.new d.new_keyed row in
        let (dj, kj, xj) = key_of-answered codec o.digest o.uri o.extractor j named in
        let digests : j.digest ≡ k.digest = ground (arith, dj, has, p.same_digest) in
        let same =
          same_key j k digests (sym kj ∙ sym p.same_kind ∙ kind)
            (xj ∙ sym p.same_extractor ∙ sym extractor) in
        arrived_under-mem d.gone d.new (subst (λ (t : PairKey). Memᴰ (t, o) d.new) same there)

    evident :
        (k : PairKey) (m : MoveCandidate)
        → Memᴰ m (pair_rows (gone_under k d.gone) (arrived_under k d.new)).moves
        → IsEvident m
    evident k m there =
        let (e, o, g, a, made) =
          mem-pair_rows (gone_under k d.gone) (arrived_under k d.new) m there in
        let (digest, gone_row) =
          mem-gone_under d.gone d.new (subst (λ l. Memᴰ e l) (sym g) (Memᴰ.head refl)) in
        let new_row =
          mem-arrived_under d.gone d.new (subst (λ l. Memᴰ o l) (sym a) (Memᴰ.head refl)) in
        let (listed, unseen, has, kind, extractor) = gone_of gone_row in
        let (observed_here, unknown, same, kind_new, extractor_new) = new_of new_row in
        subst IsEvident (sym made) (record {
          from = e;
          named = refl;
          addressed = refl;
          matches = record {
            listed = listed;
            unseen = unseen;
            arrived = observed_here;
            unknown = unknown;
            same_digest = has ∙ ap some same;
            same_kind = kind ∙ sym kind_new;
            same_extractor = sym extractor ∙ extractor_new;
          };
          only_gone =
              λ f p. Memᴰ.eq_of_singleton (subst (λ l. Memᴰ f l) g (gone_by_key k o f new_row p));
          only_new = λ p q.
              Memᴰ.eq_of_singleton (subst (λ l. Memᴰ p l) a (new_by_key k digest e p gone_row q));
        })

  -- Every move that `detect_moves` answers with is of a live stored identity that the run did not
  -- see to an observed one that the store did not know, with the same digest, the same kind read
  -- off the URI and the same extractor, and neither of the two matches any other in that way.
  pub detect_moves-IsEvident :
      (outcome : MoveOutcome) (m : MoveCandidate)
      → detect_moves codec observed stored ≡ answered outcome
      → Memᴰ m outcome.moves
      → IsEvident m
  unfolding pair
  detect_moves-IsEvident outcome m e there =
      let d = detect_moves-Detected outcome e in
      let keys = sorted_keys (map (λ row. row.0) d.gone) in
      let made : outcome.moves ≡ (pair_keys keys d.gone d.new).moves = ground (arith, d.paired) in
      let (k, here) = mem-pair_keys d.gone d.new keys m (subst (λ l. Memᴰ m l) made there) in
      evident outcome d k m here
