-- ===== src/Scope/Renders.antt =====
-- packages/adopt-scope: a scope that was resolved from a text, and its rendering.
use mathlib.Core.List.{map}
use onboard_core.Base.{
  ◌==◌, Option-cases, inl, inr, eq_iff, find?-some, String, ◌≡◌, refl, sym, ap, ◌∙◌, Option, none,
  some, List, [], ◌∷◌, arith, ◌&&◌,
}
use onboard_core.Obs.{Result-cases, ok}
use onboard_core.Model.Scopes.{Scope, ScopeNode}
use onboard_core.Model.Tables.{Firm, Engagement, System, Environment}
use onboard_core.Store.Tables.{Store}
use onboard_core.Scope.Statements.{find_firm, find_engagement, find_system, find_environment}
use onboard_core.Scope.Hierarchy.{
  ScopePath, resolve, resolve_engagement, resolve_system, resolve_environment,
}
use onboard_core.Scope.Paths.{
  ScopeLevel, strip, join, segments, parse, levels, levels_until, present, slugs, path,
  resolve_text,
}
use onboard_core.Scope.Segments.{
  requested, of_segments-requested, segments-join, parse-strip, parsed_segments, ok-inj,
}

find_firm-slug :
    (slug : String) (s : Store) (row : Firm) → find_firm slug s ≡ some row → row.slug ≡ slug
unfolding find_firm
find_firm-slug slug s row e =
    (eq_iff row.slug slug).0 (find?-some (λ r. r.slug == slug) s.scope.firms e).1

find_engagement-slug :
    (id slug : String) (s : Store) (row : Engagement)
    → find_engagement id slug s ≡ some row
    → row.slug ≡ slug
unfolding find_engagement
find_engagement-slug id slug s row e =
    (eq_iff row.slug slug).0 (
      ground (arith, (find?-some (λ r. r.firm_id == id && r.slug == slug) s.scope.engagements e).1))

find_system-slug :
    (id slug : String) (s : Store) (row : System)
    → find_system id slug s ≡ some row
    → row.slug ≡ slug
unfolding find_system
find_system-slug id slug s row e = (eq_iff row.slug slug).0 (
    ground (arith, (find?-some (λ r. r.engagement_id == id && r.slug == slug) s.scope.systems e).1))

find_environment-slug :
    (id slug : String) (s : Store) (row : Environment)
    → find_environment id slug s ≡ some row
    → row.slug ≡ slug
unfolding find_environment
find_environment-slug id slug s row e = (eq_iff row.slug slug).0 (
    ground
      (arith, (find?-some (λ r. r.system_id == id && r.slug == slug) s.scope.environments e).1))

abbrev below : List ScopeLevel → List (Option String) → List String
below ls values = map (λ l. l.1) (levels_until ls values)

resolve_environment-slugs :
    (p : ScopePath) (o : Option String)
    → p.environment ≡ o
    → (row : System) (f e n : ScopeNode) (s : Store) (r : Scope)
    → resolve_environment p row
        (record { firm = f; engagement = some e; system = some n; environment = none })
        s
      ≡ ok r
    → slugs r ≡ f.slug ∷ e.slug ∷ n.slug ∷ below (ScopeLevel.environment ∷ []) (p.environment ∷ [])
unfolding resolve_environment slugs present levels_until
resolve_environment-slugs p none q row f e n s r h = rw q (ap slugs (sym (ok-inj (rw q at h))))
resolve_environment-slugs p (some slug) q row f e n s r h =
    elim (Option-cases (find_environment row.id slug s)) [
      | inl missing ↦ let bad = rw (q, resolve_environment, missing) at h in cc
      | inr (env, there) ↦
          let same = ok-inj (rw (q, resolve_environment, there) at h) in
          rw q (
            ap slugs (sym same)
            ∙ ap (λ t. f.slug ∷ e.slug ∷ n.slug ∷ t ∷ [])
                (find_environment-slug row.id slug s env there))
    ]

resolve_system-slugs :
    (p : ScopePath) (o : Option String)
    → p.system ≡ o
    → (row : Engagement) (f e : ScopeNode) (s : Store) (r : Scope)
    → resolve_system p row
        (record { firm = f; engagement = some e; system = none; environment = none })
        s
      ≡ ok r
    → slugs r
      ≡ f.slug
        ∷ e.slug
        ∷ below (ScopeLevel.system ∷ ScopeLevel.environment ∷ []) (p.system ∷ p.environment ∷ [])
unfolding resolve_system slugs present levels_until
resolve_system-slugs p none q row f e s r h = rw q (ap slugs (sym (ok-inj (rw q at h))))
resolve_system-slugs p (some slug) q row f e s r h =
    elim (Option-cases (find_system row.id slug s)) [
      | inl missing ↦ let bad = rw (q, resolve_system, missing) at h in cc
      | inr (sys, there) ↦ rw q (
          resolve_environment-slugs p p.environment refl sys f e
            (record { id = sys.id; slug = sys.slug }) s r (rw (q, resolve_system, there) at h)
          ∙ ap (λ t. f.slug ∷ e.slug ∷ t ∷ below (ScopeLevel.environment ∷ []) (p.environment ∷ []))
              (find_system-slug row.id slug s sys there))
    ]

resolve_engagement-slugs :
    (p : ScopePath) (o : Option String)
    → p.engagement ≡ o
    → (row : Firm) (f : ScopeNode) (s : Store) (r : Scope)
    → resolve_engagement p row
        (record { firm = f; engagement = none; system = none; environment = none })
        s
      ≡ ok r
    → slugs r
      ≡ f.slug
        ∷ below
            (ScopeLevel.engagement ∷ ScopeLevel.system ∷ ScopeLevel.environment ∷ [])
            (p.engagement ∷ p.system ∷ p.environment ∷ [])
unfolding resolve_engagement slugs present levels_until
resolve_engagement-slugs p none q row f s r h = rw q (ap slugs (sym (ok-inj (rw q at h))))
resolve_engagement-slugs p (some slug) q row f s r h =
    elim (Option-cases (find_engagement row.id slug s)) [
      | inl missing ↦ let bad = rw (q, resolve_engagement, missing) at h in cc
      | inr (eng, there) ↦ rw q (
          resolve_system-slugs p p.system refl eng f (record { id = eng.id; slug = eng.slug }) s r
            (rw (q, resolve_engagement, there) at h)
          ∙ ap
              (λ t.
                f.slug
                ∷ t
                ∷ below (ScopeLevel.system ∷ ScopeLevel.environment ∷ [])
                    (p.system ∷ p.environment ∷ []))
              (find_engagement-slug row.id slug s eng there))
    ]

resolve-requested :
    (p : ScopePath) (s : Store) (r : Scope) → resolve p s ≡ ok r → slugs r ≡ requested p
unfolding resolve requested levels levels_until
resolve-requested p s r h = elim (Option-cases (find_firm p.firm s)) [
  | inl missing ↦ let bad = rw (resolve, missing) at h in cc
  | inr (row, there) ↦
      resolve_engagement-slugs p p.engagement refl row (record { id = row.id; slug = row.slug }) s r
        (rw (resolve, there) at h)
      ∙ ap
          (λ t.
            t
            ∷ below (ScopeLevel.engagement ∷ ScopeLevel.system ∷ ScopeLevel.environment ∷ [])
                (p.engagement ∷ p.system ∷ p.environment ∷ []))
          (find_firm-slug p.firm s row there)
]

resolve_text-strip : (text : String) (s : Store) → resolve_text (strip text) s ≡ resolve_text text s
unfolding resolve_text
resolve_text-strip text s = rw (resolve_text, parse-strip text) refl

-- When a text resolves to a scope, the scope renders as the text without the white space around
-- it, and that rendering resolves to the same scope in the same store.
pub resolve_text-path :
    (text : String) (s : Store) (scope : Scope)
    → resolve_text text s ≡ ok scope
    → (path scope ≡ strip text) × (resolve_text (path scope) s ≡ ok scope)
unfolding resolve_text path
resolve_text-path text s scope h = elim (Result-cases (parse text)) [
  | inl (p, parsed) ↦
      let rendered =
        ap join (
          resolve-requested p s scope (rw (resolve_text, parsed) at h)
          ∙ of_segments-requested (segments text) p (parsed_segments text p parsed))
        ∙ segments-join text in
      (rendered, ap (λ t. resolve_text t s) rendered ∙ resolve_text-strip text s ∙ h)
  | inr (e, refused) ↦ let bad = rw (resolve_text, refused) at h in cc
]
