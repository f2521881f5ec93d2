-- ===== src/Revisions/Chains.antt =====
-- packages/adopt-store/src/adopt_store/revisions.py: `append_revision` over the chains and heads.
use onboard_core.Base.{
  String, true, ◌≡◌, refl, sym, ap, ◌∙◌, subst, Option, none, some, [], ◌∷◌, ◌++◌, map, ◌≢◌, inl,
  inr, arith, eq_iff, eq_refl, Bool-cases,
}
use onboard_core.Obs.{Result-cases, Result, ok, err, ErrorCode, revision_chain_fork}
use onboard_core.Model.Enums.{FreshnessState}
use onboard_core.Store.Tables.{Store, transaction}
use onboard_core.Revisions.Families.{Family, has_head_pointer, RevisionDraft}
use onboard_core.Revisions.Statements.{
  links, heads, holds, accepts, advance_head, point_heads, pointed, head_of, set_item_freshness,
}
use onboard_core.Revisions.Writer.{
  current_head, same_head, affirms, publish, append_body, append_to,
}
use onboard_core.Revisions.Rows.{Stamp, insert}
use onboard_core.Revisions.Inserts.{draft_family, stamp_link, Inserted, insert-Inserted}
use onboard_core.Revisions.Heads.{
  pointed_at, heads-point_heads, heads-point_heads-others, pointed-pointed_at,
  set_item_freshness-heads,
}

same_head-eq : (a b : Option String) → same_head a b ≡ true → a ≡ b
same_head-eq none none e = refl
same_head-eq none (some b) e = cc
same_head-eq (some a) none e = cc
same_head-eq (some a) (some b) e = ap some ((eq_iff a b).0 e)

-- What `publish` changes.
record Published (f : Family) (stamp : Stamp) (s s' : Store) : Type 0 where
  revisions : s'.revisions ≡ s.revisions
  here : heads f s'.parents ≡ heads f (point_heads f stamp.parent_id stamp.revision_id s.parents)
  others : (g : Family) → g ≢ f → heads g s'.parents ≡ heads g s.parents

advance-Published :
    (f : Family) (stamp : Stamp) (s s' : Store)
    → has_head_pointer f ≡ true
    → advance_head f stamp.parent_id stamp.revision_id s ≡ ok (tt, s')
    → Published f stamp s s'
unfolding advance_head
advance-Published f stamp s s' p e =
    let kept : s'.parents ≡ point_heads f stamp.parent_id stamp.revision_id s.parents =
      ground arith in
    record {
      revisions = ground arith;
      here = ap (heads f) kept;
      others = λ g n.
          ap (heads g) kept
          ∙ heads-point_heads-others f g stamp.parent_id stamp.revision_id s.parents n;
    }

publish-Published :
    (f : Family) (stamp : Stamp) (draft : RevisionDraft) (s s' : Store) (u : Unit {0})
    → has_head_pointer f ≡ true
    → publish f stamp draft s ≡ ok (u, s')
    → Published f stamp s s'
unfolding publish advance_head
publish-Published f stamp draft s s' u p e =
    let moved : Store = record s {
      parents = point_heads f stamp.parent_id stamp.revision_id s.parents;
    } in
    let start = advance-Published f stamp s moved p refl in
    elim (Bool-cases (affirms f draft)) [
      | inr silent ↦ subst (Published f stamp s) (ground arith) start
      | inl affirmed ↦
          let freshening : set_item_freshness stamp.parent_id FreshnessState.fresh stamp.created
                moved
              ≡ ok (u, s') =
            ground arith in
          let (kept, same) =
            set_item_freshness-heads stamp.parent_id FreshnessState.fresh stamp.created moved s' u
              freshening in
          record { revisions = kept; here = same f; others = λ g n. same g ∙ start.others g n }
    ]

-- What a successful append does to a store: one link after the others of its family, the head of its
-- parent moved to it, and every other chain and head as before.
pub record Appended (f : Family) (stamp : Stamp) (s s' : Store) : Type 0 where
  pub expected : head_of f stamp.parent_id s ≡ stamp.supersedes
  pub accepted : accepts f (stamp_link stamp) s ≡ true
  pub appended : links f s'.revisions ≡ links f s.revisions ++ stamp_link stamp ∷ []
  pub head : head_of f stamp.parent_id s' ≡ some stamp.revision_id
  pub other_parents : (q : String) → q ≢ stamp.parent_id → head_of f q s' ≡ head_of f q s
  pub other_links : (g : Family) → g ≢ f → links g s'.revisions ≡ links g s.revisions
  pub other_heads : (g : Family) (q : String) → g ≢ f → head_of g q s' ≡ head_of g q s

held_parent :
    (f : Family) (stamp : Stamp) (s : Store)
    → accepts f (stamp_link stamp) s ≡ true
    → holds stamp.parent_id (map (λ h. h.0) (heads f s.parents)) ≡ true
unfolding accepts
held_parent f stamp s e = ground arith

heads-joined :
    (f : Family) (stamp : Stamp) (s s1 s2 : Store)
    → has_head_pointer f ≡ true
    → Inserted f (stamp_link stamp) s s1
    → Published f stamp s1 s2
    → heads f s2.parents ≡ map (pointed_at stamp.parent_id stamp.revision_id) (heads f s.parents)
heads-joined f stamp s s1 s2 p i q =
    q.here
    ∙ ap (λ t. heads f (point_heads f stamp.parent_id stamp.revision_id t)) i.parents
    ∙ heads-point_heads f stamp.parent_id stamp.revision_id s.parents p

-- The two halves of an append, put together.
joined :
    (f : Family) (stamp : Stamp) (s s1 s2 : Store)
    → has_head_pointer f ≡ true
    → head_of f stamp.parent_id s ≡ stamp.supersedes
    → Inserted f (stamp_link stamp) s s1
    → Published f stamp s1 s2
    → Appended f stamp s s2
unfolding head_of
joined f stamp s s1 s2 p current i q =
    let moved = heads-joined f stamp s s1 s2 p i q in
    let looked = pointed-pointed_at stamp.parent_id stamp.revision_id (heads f s.parents) in
    record {
      expected = current;
      accepted = i.accepted;
      appended = ap (links f) q.revisions ∙ i.appended;
      head =
          ap (pointed stamp.parent_id) moved
          ∙ looked stamp.parent_id
          ∙ ground (arith, held_parent f stamp s i.accepted, eq_refl stamp.parent_id);
      other_parents =
          λ r n. ap (pointed r) moved ∙ looked r ∙ ground (arith, n, eq_iff r stamp.parent_id);
      other_links = λ g n. ap (links g) q.revisions ∙ i.others g n;
      other_heads = λ g r n. ap (pointed r) (q.others g n ∙ ap (heads g) i.parents);
    }

pub append-Appended :
    (f : Family) (stamp : Stamp) (draft : RevisionDraft) (s s' : Store) (id : String)
    → draft_family draft ≡ f
    → has_head_pointer f ≡ true
    → append_body f stamp draft s ≡ ok (id, s')
    → (id ≡ stamp.revision_id) × Appended f stamp s s'
unfolding append_body current_head
append-Appended f stamp draft s s' id same p e =
    elim (Bool-cases (same_head (head_of f stamp.parent_id s) stamp.supersedes)) [
      | inr stale ↦ absurd (ground (arith, p, stale, e))
      | inl current ↦ elim (Result-cases (insert stamp draft s)) [
        | inr (c, refused) ↦ absurd (ground (arith, p, current, refused, e))
        | inl ((u, s1), inserted) ↦ elim (Result-cases (publish f stamp draft s1)) [
          | inr (c, failed) ↦ absurd (ground (arith, p, current, inserted, failed, e))
          | inl ((v, s2), published) ↦
              let i =
                subst (λ g. Inserted g (stamp_link stamp) s s1) same
                  (insert-Inserted stamp draft s s1 u inserted) in
              let q = publish-Published f stamp draft s1 s2 v p published in
              let at_end : s' ≡ s2 = ground (arith, p, current, inserted, published, e) in
              (
                ground (arith, p, current, inserted, published, e),
                subst (Appended f stamp s) (sym at_end) (
                    joined f stamp s s1 s2 p
                      (same_head-eq (head_of f stamp.parent_id s) stamp.supersedes current) i q),
              )
        ]
      ]
    ]

pub append_to-ok :
    (f : Family) (stamp : Stamp) (draft : RevisionDraft) (s s' : Store) (id : String)
    → append_to f stamp draft s ≡ (ok id, s')
    → append_body f stamp draft s ≡ ok (id, s')
unfolding append_to transaction
append_to-ok f stamp draft s s' id e = elim (Result-cases (append_body f stamp draft s)) [
  | inl ((j, t), done) ↦ ground (arith, e, done)
  | inr (c, failed) ↦ absurd (ground (arith, e, failed))
]

append_to-err :
    (f : Family) (stamp : Stamp) (draft : RevisionDraft) (s s' : Store) (c : ErrorCode)
    → append_to f stamp draft s ≡ (err c, s')
    → s' ≡ s
unfolding append_to transaction
append_to-err f stamp draft s s' c e = ground (arith, e, Result-cases (append_body f stamp draft s))

-- What `append_revision` may answer, and the store that it leaves.
pub data Outcome (f : Family) (stamp : Stamp) (s : Store) : Result String × Store → Type 0 where
  appended : {s' : Store} → Appended f stamp s s' → Outcome f stamp s (ok stamp.revision_id, s')
  refused : {c : ErrorCode} → Outcome f stamp s (err c, s)

-- For a family with a head pointer and a draft of that family, an append either fails and leaves
-- the store as it was, or it returns the new id, and then the expected head was the head, the row
-- was acceptable, exactly one link is added after the others of the family, the head of its parent
-- is the new id, and the other heads and the links of the other families are as before.
pub append_to-Outcome :
    (f : Family) (stamp : Stamp) (draft : RevisionDraft) (s : Store)
    → draft_family draft ≡ f
    → has_head_pointer f ≡ true
    → Outcome f stamp s (append_to f stamp draft s)
unfolding append_to transaction
append_to-Outcome f stamp draft s same p = elim (Result-cases (append_body f stamp draft s)) [
  | inr (c, failed) ↦
      let left : append_to f stamp draft s ≡ (err c, s) = ground (arith, failed) in
      subst (Outcome f stamp s) (sym left) refused
  | inl ((id, t), done) ↦
      let (named, a) = append-Appended f stamp draft s t id same p done in
      let left : append_to f stamp draft s ≡ (ok stamp.revision_id, t) =
        ground (arith, done, named) in
      subst (Outcome f stamp s) (sym left) (appended a)
]

-- The new head is not the one that was expected.
moved_on :
    (f : Family) (stamp : Stamp) (s : Store)
    → accepts f (stamp_link stamp) s ≡ true
    → some stamp.revision_id ≢ stamp.supersedes
unfolding accepts
moved_on f stamp s e same = ground (arith, e, same)

-- For a family with a head pointer: after an append with a draft of that family has succeeded, a
-- second append to the same parent that expects the same head is refused with REVISION_CHAIN_FORK
-- and leaves the store as the first append left it.
pub append_to-second_writer :
    (f : Family) (first second : Stamp) (draft other : RevisionDraft) (s s' : Store) (id : String)
    → draft_family draft ≡ f
    → has_head_pointer f ≡ true
    → append_to f first draft s ≡ (ok id, s')
    → second.parent_id ≡ first.parent_id
    → second.supersedes ≡ first.supersedes
    → append_to f second other s' ≡ (err revision_chain_fork, s')
unfolding append_to transaction append_body current_head
append_to-second_writer f first second draft other s s' id same p e parent expects =
    let (_, a) =
      append-Appended f first draft s s' id same p (append_to-ok f first draft s s' id e) in
    let apart = moved_on f first s a.accepted in
    let here : head_of f second.parent_id s' ≡ some first.revision_id =
      ap (λ q. head_of f q s') parent ∙ a.head in
    elim (Bool-cases (same_head (head_of f second.parent_id s') second.supersedes)) [
      | inl agree ↦ absurd (
          apart (
            sym here
            ∙ same_head-eq (head_of f second.parent_id s') second.supersedes agree
            ∙ expects))
      | inr differs ↦ ground (arith, p, differs)
    ]
