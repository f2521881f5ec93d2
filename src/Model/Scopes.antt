-- ===== src/Model/Scopes.antt =====
-- packages/adopt-scope/src/adopt_scope/resolve.py: a resolved scope.
use onboard_core.Base.{Option, String}

pub record ScopeNode : Type 0 where
  pub id : String
  pub slug : String

pub record Scope : Type 0 where
  pub firm : ScopeNode
  pub engagement : Option ScopeNode
  pub system : Option ScopeNode
  pub environment : Option ScopeNode
