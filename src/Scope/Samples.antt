-- ===== src/Scope/Samples.antt =====
-- A store with one system, what a transition makes of it, and two slugs.
use mathlib.Core.List.Memᴰ
use onboard_core.Base.{
  ◌↔◌, String, true, ◌≡◌, refl, ap, none, some, [], ◌∷◌, all, length, ◌≤◌, arith, codes,
}
use onboard_core.Model.Enums.{LifecycleState}
use onboard_core.Model.Tables.{System}
use onboard_core.Model.Scopes.{Scope}
use onboard_core.Store.Tables.{Store}
use onboard_core.Scope.Slugs.{is_slug_inner, matches_slug_pattern, slug_max_chars, is_valid_slug}
use onboard_core.Obs.{ok}
use onboard_core.Scope.Paths.{
  resolve_text, path, strip, parse, of_segments, segments, strip_right, strip_left, split, grow,
  padded,
}
use onboard_core.Scope.Grammar.{parse_iff, IsPathOf}
use onboard_core.Scope.Renders.{resolve_text-path}
use onboard_core.Scope.Statements.{find_system, find_firm, find_engagement}
use onboard_core.Scope.Hierarchy.{ScopePath, create_system, resolve}
use onboard_core.Scope.Lifecycle.{Transition, transition}
use onboard_core.Scope.Answers.{Answers, transition-Answers}
use onboard_core.Scope.Silent.{IsLogged, logged_state}
use onboard_core.Scope.Steps.{Reaches, start, next, moved, created_system}
use onboard_core.Scope.Reach.{Reaches-IsLogged, IsNamedBy, Reaches-IsNamedBy}
use onboard_core.Scope.Newlines.{is_valid_slug-newline, is_valid_slug-all}

abbrev system : System
system = record {
  id = "sys_1";
  engagement_id = "eng_1";
  slug = "billing";
  name = "Billing";
  archetype = none;
  lifecycle_state = LifecycleState.discovered;
  deployment_mode = none;
  created_at = 0;
  updated_at = 0;
}

abbrev before : Store
before = record {
  scope = record {
    firms = [];
    engagements =
        record {
          id = "eng_1";
          firm_id = "firm_1";
          slug = "rollout";
          name = "Rollout";
          client_label = none;
          created_at = 0;
        }
        ∷ [];
    systems = system ∷ [];
    environments = [];
    lifecycle_events = [];
  };
  parents = record { identities = []; items = []; bindings = []; probe_definitions = [] };
  revisions = record {
    identity_revisions = [];
    knowledge_revisions = [];
    binding_revisions = [];
    probe_definition_revisions = [];
  };
  observed = record {
    sensors = [];
    heartbeats = [];
    boundaries = [];
    audience_tags = [];
    classifier_versions = [];
  };
}

abbrev archiving : Transition
archiving = record {
  system_id = "sys_1";
  to_state = LifecycleState.archived;
  reason = "Replaced.";
  actor_id = none;
  related_system_id = none;
  event_id = "sle_1";
  counterpart_event_id = "sle_2";
  occurred_at = 5;
}

abbrev archived : Store
archived = (transition archiving before).1

-- The slug of the archived system is asked for again.
abbrev after : Store
after = (create_system "eng_1" "billing" "Billing again" none none "sys_2" 6 archived).1

reached : Reaches before after
reached =
    next (next start (moved archiving))
      (created_system "eng_1" "billing" "Billing again" none none "sys_2" 6)

transition-Answers_example : Answers archiving before (transition archiving before)
transition-Answers_example = transition-Answers archiving before

logged : IsLogged before
unfolding logged_state
logged = record {
  states = λ r m. ap (λ (q : System). q.lifecycle_state) (Memᴰ.eq_of_singleton m);
  known = λ e m. elim m [ ];
}

Reaches-IsLogged_example : IsLogged after
Reaches-IsLogged_example = Reaches-IsLogged before after logged reached

billing_named : IsNamedBy "eng_1" "billing" "sys_1" before
unfolding find_system
billing_named = record {
  system = system;
  found = refl;
  same = refl;
  only = λ r m e f. ap (λ (q : System). q.id) (Memᴰ.eq_of_singleton m);
}

Reaches-IsNamedBy_example : IsNamedBy "eng_1" "billing" "sys_1" after
Reaches-IsNamedBy_example =
    Reaches-IsNamedBy "eng_1" "billing" "sys_1" before after billing_named reached

abbrev slug : String
slug = "a-b"

abbrev ended : String
ended = "a-b\n"

valid : is_valid_slug slug ≡ true
unfolding is_valid_slug matches_slug_pattern codes
valid = refl

is_valid_slug-newline_example : is_valid_slug ended ≡ true
unfolding codes
is_valid_slug-newline_example = is_valid_slug-newline slug ended valid refl (ground arith) refl

is_valid_slug-all_example :
    (all is_slug_inner (codes slug) ≡ true)
    × (2 ≤ length (codes slug))
    × (length (codes slug) ≤ slug_max_chars)
unfolding codes
is_valid_slug-all_example = is_valid_slug-all slug valid refl

abbrev chartered : Store
chartered = record before {
  scope = record before.scope {
    firms = record { id = "firm_1"; slug = "acme"; name = "Acme"; created_at = 0 } ∷ [];
  };
}

abbrev billing : Scope
billing = record {
  firm = record { id = "firm_1"; slug = "acme" };
  engagement = some (record { id = "eng_1"; slug = "rollout" });
  system = some (record { id = "sys_1"; slug = "billing" });
  environment = none;
}

resolved : resolve_text " acme/rollout/billing\n" chartered ≡ ok billing
unfolding resolve_text parse of_segments segments strip strip_right strip_left split grow resolve
    find_firm padded find_engagement find_system
resolved = refl

resolve_text-path_example :
    (path billing ≡ strip " acme/rollout/billing\n")
    × (resolve_text (path billing) chartered ≡ ok billing)
resolve_text-path_example = resolve_text-path " acme/rollout/billing\n" chartered billing resolved

abbrev to_billing : ScopePath
to_billing = record {
  firm = "acme";
  engagement = some "rollout";
  system = some "billing";
  environment = none;
}

parse_iff_example :
    (parse " acme/rollout/billing\n" ≡ ok to_billing)
    ↔ IsPathOf " acme/rollout/billing\n" to_billing
parse_iff_example = parse_iff " acme/rollout/billing\n" to_billing
