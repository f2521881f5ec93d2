-- ===== src/Revisions/Invariant.antt =====
-- packages/adopt-store/src/adopt_store/revisions.py: the shape of the chains of the families with a
-- head pointer.
use onboard_core.Base.{
  String, true, ◌≡◌, refl, sym, ap, ◌∙◌, subst, Option, none, some, List, [], ◌∷◌, ◌++◌, ◌≢◌, ◌⊎◌,
  inl, inr, arith, eq_iff, eq_refl, ◌==◌, filter, filter-snoc, filter-snoc-out, Bool-cases,
}
use onboard_core.Obs.{Result}
use onboard_core.Store.Tables.{Store}
use onboard_core.Revisions.Families.{
  Family, identity, knowledge, binding, probe_definition, has_head_pointer, RevisionDraft,
}
use onboard_core.Revisions.Statements.{Link, links, head_of}
use onboard_core.Revisions.Writer.{append_to}
use onboard_core.Revisions.Rows.{Stamp}
use onboard_core.Revisions.Inserts.{draft_family, stamp_link}
use onboard_core.Revisions.Chains.{Appended, Outcome, appended, refused, append_to-Outcome}

-- Each link supersedes the one before it, the first supersedes `start`, and the last is `end`.
unfoldable pub IsChain : Option String → List Link → Option String → Type 0
IsChain start [] end = start ≡ end
IsChain start (l ∷ ls) end = (l.supersedes ≡ start) × IsChain (some l.id) ls end

IsChain-append :
    (start : Option String) (ls : List Link) (l : Link)
    → IsChain start ls l.supersedes
    → IsChain start (ls ++ l ∷ []) (some l.id)
unfolding IsChain
IsChain-append start [] l c = (sym c, refl)
IsChain-append start (k ∷ ls) l c = (c.0, IsChain-append (some k.id) ls l c.1)

abbrev pub chain_of : Family → String → Store → List Link
chain_of f parent_id s = filter (λ l. l.parent == parent_id) (links f s.revisions)

-- Every parent's revisions are one chain that ends in its head.
abbrev pub HeadsAreChains : Family → Store → Type 0
HeadsAreChains f s = (q : String) → IsChain none (chain_of f q s) (head_of f q s)

chain_of-here :
    (f : Family) (stamp : Stamp) (s s' : Store)
    → Appended f stamp s s'
    → chain_of f stamp.parent_id s' ≡ chain_of f stamp.parent_id s ++ stamp_link stamp ∷ []
chain_of-here f stamp s s' a =
    ap (filter (λ l. l.parent == stamp.parent_id)) a.appended
    ∙ filter-snoc (λ l. l.parent == stamp.parent_id) (links f s.revisions) (stamp_link stamp)
        (eq_refl stamp.parent_id)

chain_of-others :
    (f : Family) (stamp : Stamp) (s s' : Store) (q : String)
    → Appended f stamp s s'
    → q ≢ stamp.parent_id
    → chain_of f q s' ≡ chain_of f q s
chain_of-others f stamp s s' q a n =
    ap (filter (λ l. l.parent == q)) a.appended
    ∙ filter-snoc-out (λ l. l.parent == q) (links f s.revisions) (stamp_link stamp)
        (ground (arith, n, eq_iff stamp.parent_id q))

Appended-HeadsAreChains :
    (f : Family) (stamp : Stamp) (s s' : Store)
    → Appended f stamp s s'
    → HeadsAreChains f s
    → HeadsAreChains f s'
Appended-HeadsAreChains f stamp s s' a chains q = elim (Bool-cases (q == stamp.parent_id)) [
  | inl here ↦
      let before : IsChain none (chain_of f stamp.parent_id s) stamp.supersedes =
        rw a.expected at (chains stamp.parent_id) in
      let after = IsChain-append none (chain_of f stamp.parent_id s) (stamp_link stamp) before in
      subst (λ r. IsChain none (chain_of f r s') (head_of f r s'))
        (sym ((eq_iff q stamp.parent_id).0 here)) (rw (chain_of-here f stamp s s' a, a.head) after)
  | inr there ↦
      let n : q ≢ stamp.parent_id =
        λ k. absurd (ground (arith, there, (eq_iff q stamp.parent_id).1 k)) in
      rw (chain_of-others f stamp s s' q a n, a.other_parents q n) (chains q)
]

others-HeadsAreChains :
    (f g : Family) (stamp : Stamp) (s s' : Store)
    → Appended f stamp s s'
    → g ≢ f
    → HeadsAreChains g s
    → HeadsAreChains g s'
others-HeadsAreChains f g stamp s s' a n chains q =
    rw (ap (filter (λ l. l.parent == q)) (a.other_links g n), a.other_heads g q n) (chains q)

same_family : (g f : Family) → (g ≡ f) ⊎ (g ≢ f)
same_family identity identity = inl refl
same_family identity knowledge = inr (λ e. cc)
same_family identity binding = inr (λ e. cc)
same_family identity probe_definition = inr (λ e. cc)
same_family knowledge identity = inr (λ e. cc)
same_family knowledge knowledge = inl refl
same_family knowledge binding = inr (λ e. cc)
same_family knowledge probe_definition = inr (λ e. cc)
same_family binding identity = inr (λ e. cc)
same_family binding knowledge = inr (λ e. cc)
same_family binding binding = inl refl
same_family binding probe_definition = inr (λ e. cc)
same_family probe_definition identity = inr (λ e. cc)
same_family probe_definition knowledge = inr (λ e. cc)
same_family probe_definition binding = inr (λ e. cc)
same_family probe_definition probe_definition = inl refl

Outcome-HeadsAreChains :
    (f g : Family) (stamp : Stamp) (s : Store) (o : Result String × Store)
    → Outcome f stamp s o
    → HeadsAreChains g s
    → HeadsAreChains g (o.1)
Outcome-HeadsAreChains f g stamp s o refused chains = chains
Outcome-HeadsAreChains f g stamp s o (appended {s'} a) chains = elim (same_family g f) [
  | inl here ↦
      subst (λ h. HeadsAreChains h s') (sym here)
        (Appended-HeadsAreChains f stamp s s' a (subst (λ h. HeadsAreChains h s) here chains))
  | inr there ↦ others-HeadsAreChains f g stamp s s' a there chains
]

-- Let the revisions of every parent of a family be one chain, in which each revision supersedes
-- the one before it and the last is the head of the parent. Then they still are after an append to
-- any family that has a head pointer, with a draft of that family, whatever the append answers.
pub append_to-HeadsAreChains :
    (f g : Family) (stamp : Stamp) (draft : RevisionDraft) (s : Store)
    → draft_family draft ≡ f
    → has_head_pointer f ≡ true
    → HeadsAreChains g s
    → HeadsAreChains g (append_to f stamp draft s).1
append_to-HeadsAreChains f g stamp draft s same p =
    Outcome-HeadsAreChains f g stamp s (append_to f stamp draft s)
      (append_to-Outcome f stamp draft s same p)
