-- ===== src/Revisions/Heads.antt =====
-- What the writer's updates of the parent rows do to the head pointers.
use mathlib.Core.Path.{fun_ext}
use mathlib.Core.List.{map-map}
use onboard_core.Base.{
  ℕ, String, true, ◌≡◌, refl, sym, ap, ◌∙◌, Option, some, List, [], ◌∷◌, map, ◌≢◌, arith, eq_iff,
  ◌==◌, if◌then◌else◌, ◌&&◌,
}
use onboard_core.Model.Enums.{FreshnessState}
use onboard_core.Model.Tables.{KnowledgeItem, Binding, ProbeDefinition}
use onboard_core.Store.Tables.{Store, ParentTables}
use onboard_core.Obs.{ok}
use onboard_core.Revisions.Families.{
  Family, identity, knowledge, binding, probe_definition, has_head_pointer,
}
use onboard_core.Revisions.Statements.{
  heads, holds, point_heads, pointed, set_item_freshness, with_freshness,
}

abbrev pub pointed_at : String → String → String × Option String → String × Option String
pointed_at parent_id revision_id h = if h.0 == parent_id then (h.0, some revision_id) else h

pub heads-point_heads :
    (f : Family) (parent_id revision_id : String) (t : ParentTables)
    → has_head_pointer f ≡ true
    → heads f (point_heads f parent_id revision_id t)
      ≡ map (pointed_at parent_id revision_id) (heads f t)
unfolding heads point_heads has_head_pointer
heads-point_heads identity p r t h = cc
heads-point_heads knowledge p r t h =
    map-map (λ (k : KnowledgeItem). (k.id, k.current_revision_id))
      (λ k. if k.id == p then record k { current_revision_id = some r } else k) t.items
    ∙ ap (λ g. map g t.items) (fun_ext (λ k. ground arith))
    ∙ sym (map-map (pointed_at p r) (λ (k : KnowledgeItem). (k.id, k.current_revision_id)) t.items)
heads-point_heads binding p r t h =
    map-map (λ (k : Binding). (k.id, k.current_revision_id))
      (λ k. if k.id == p then record k { current_revision_id = some r } else k) t.bindings
    ∙ ap (λ g. map g t.bindings) (fun_ext (λ k. ground arith))
    ∙ sym (map-map (pointed_at p r) (λ (k : Binding). (k.id, k.current_revision_id)) t.bindings)
heads-point_heads probe_definition p r t h =
    map-map (λ (k : ProbeDefinition). (k.id, k.current_revision_id))
      (λ k. if k.id == p then record k { current_revision_id = some r } else k) t.probe_definitions
    ∙ ap (λ g. map g t.probe_definitions) (fun_ext (λ k. ground arith))
    ∙ sym (
        map-map (pointed_at p r) (λ (k : ProbeDefinition). (k.id, k.current_revision_id))
          t.probe_definitions)

pub heads-point_heads-others :
    (f g : Family) (parent_id revision_id : String) (t : ParentTables)
    → g ≢ f
    → heads g (point_heads f parent_id revision_id t) ≡ heads g t
unfolding heads point_heads
heads-point_heads-others identity g p r t n = refl
heads-point_heads-others knowledge identity p r t n = refl
heads-point_heads-others knowledge knowledge p r t n = absurd (n refl)
heads-point_heads-others knowledge binding p r t n = refl
heads-point_heads-others knowledge probe_definition p r t n = refl
heads-point_heads-others binding identity p r t n = refl
heads-point_heads-others binding knowledge p r t n = refl
heads-point_heads-others binding binding p r t n = absurd (n refl)
heads-point_heads-others binding probe_definition p r t n = refl
heads-point_heads-others probe_definition identity p r t n = refl
heads-point_heads-others probe_definition knowledge p r t n = refl
heads-point_heads-others probe_definition binding p r t n = refl
heads-point_heads-others probe_definition probe_definition p r t n = absurd (n refl)

pub pointed-pointed_at :
    (parent_id revision_id : String) (hs : List (String × Option String)) (q : String)
    → pointed q (map (pointed_at parent_id revision_id) hs)
      ≡ (if (q == parent_id) && holds q (map (λ h. h.0) hs) then some revision_id else pointed q hs)
unfolding pointed
pointed-pointed_at p r [] q = ground arith
pointed-pointed_at p r (h ∷ hs) q =
    ground (arith, pointed-pointed_at p r hs q, eq_iff (h.0) q, eq_iff (h.0) p, eq_iff q p)

abbrev pub freshened : String → FreshnessState → ℕ → List KnowledgeItem → List KnowledgeItem
freshened item_id value at = map (λ r. if r.id == item_id then with_freshness value at r else r)

heads-freshened :
    (g : Family) (item_id : String) (value : FreshnessState) (at : ℕ) (t : ParentTables)
    → heads g (record t { items = freshened item_id value at t.items }) ≡ heads g t
unfolding heads
heads-freshened identity p value at t = refl
heads-freshened binding p value at t = refl
heads-freshened probe_definition p value at t = refl
heads-freshened knowledge p value at t =
    map-map (λ (k : KnowledgeItem). (k.id, k.current_revision_id))
      (λ r. if r.id == p then with_freshness value at r else r) t.items
    ∙ ap (λ f. map f t.items) (fun_ext (λ k. ground arith))

-- A change of the freshness of an item moves no head and appends nothing.
pub set_item_freshness-heads :
    (item_id : String) (value : FreshnessState) (at : ℕ) (s s' : Store) (u : Unit {0})
    → set_item_freshness item_id value at s ≡ ok (u, s')
    → (s'.revisions ≡ s.revisions) × ((g : Family) → heads g s'.parents ≡ heads g s.parents)
unfolding set_item_freshness
set_item_freshness-heads p value at s s' u e =
    let kept : s'.parents ≡ record s.parents { items = freshened p value at s.parents.items } =
      ground arith in
    (ground arith, λ g. ap (heads g) kept ∙ heads-freshened g p value at s.parents)
