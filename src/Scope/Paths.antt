-- ===== src/Scope/Paths.antt =====
-- packages/adopt-scope/src/adopt_scope/resolve.py: how a scope path is parsed and how a scope is
-- rendered; and `resolve` of hierarchy.py when it is given a text.
use Prim.Native.Char.{Char, code}
use Prim.Native.String.{◌++◌ as append_text}
use onboard_core.Base.{
  ℕ, zero, suc, String, Bool, true, false, Option, none, some, List, [], ◌∷◌, any, ltb, leb, nat_eq,
  length, ◌||◌, ◌&&◌, if◌then◌else◌,
}
use onboard_core.Obs.{Result, ok, err, scope_slug_invalid}
use onboard_core.Model.Scopes.{Scope, ScopeNode}
use onboard_core.Store.Tables.{Store}
use onboard_core.Scope.Hierarchy.{ScopePath, resolve}

pub data ScopeLevel : Type 0 where
  firm engagement system environment : ScopeLevel

abbrev pub scope_levels : List ScopeLevel
scope_levels =
    ScopeLevel.firm ∷ ScopeLevel.engagement ∷ ScopeLevel.system ∷ ScopeLevel.environment ∷ []

-- `_PATH_SEPARATOR`
abbrev pub path_separator : String
path_separator = "/"

abbrev pub is_separator : Char → Bool
is_separator c = nat_eq (code c) b'/'

abbrev pub is_blank : String → Bool
is_blank String.[] = true
is_blank (String.◌∷◌ c s) = false

abbrev pub between : ℕ → ℕ → ℕ → Bool
between low high n = leb low n && leb n high

-- The code points that `str.strip` removes.
abbrev pub is_space : ℕ → Bool
is_space n =
    between 9 13 n
    || between 28 32 n
    || nat_eq n 133
    || nat_eq n 160
    || nat_eq n 5760
    || between 8192 8202 n
    || between 8232 8233 n
    || nat_eq n 8239
    || nat_eq n 8287
    || nat_eq n 12288

unfoldable pub strip_left : String → String
strip_left String.[] = String.[]
strip_left (String.◌∷◌ c s) =
    let rest = strip_left s in if is_space (code c) then rest else String.◌∷◌ c s

unfoldable pub strip_right : String → String
strip_right String.[] = String.[]
strip_right (String.◌∷◌ c s) =
    let rest = strip_right s in
    if is_space (code c) && is_blank rest then String.[] else String.◌∷◌ c rest

unfoldable pub strip : String → String
strip s = strip_right (strip_left s)

-- A character in front of the first part.
unfoldable pub grow : Char → List String → List String
grow c [] = String.◌∷◌ c String.[] ∷ []
grow c (s ∷ l) = String.◌∷◌ c s ∷ l

-- `split(_PATH_SEPARATOR)`
unfoldable pub split : String → List String
split String.[] = String.[] ∷ []
split (String.◌∷◌ c s) =
    let rest = split s in if is_separator c then String.[] ∷ rest else grow c rest

-- `_PATH_SEPARATOR.join`
unfoldable pub join : List String → String
join [] = String.[]
join (s ∷ []) = s
join (s ∷ t ∷ l) = append_text s (append_text path_separator (join (t ∷ l)))

-- `segments` of `ScopePath.parse`.
unfoldable pub segments : String → List String
segments path = if is_blank (strip path) then [] else split (strip path)

-- An index into `padded`, which is none past the last segment.
unfoldable pub padded : ℕ → List String → Option String
padded n [] = none
padded zero (s ∷ l) = some s
padded (suc n) (s ∷ l) = padded n l

-- The path of the segments, which are one to four and not empty.
unfoldable pub of_segments : List String → Result ScopePath
of_segments [] = err scope_slug_invalid
of_segments (f ∷ l) =
    if ltb (length scope_levels) (length (f ∷ l)) || any is_blank (f ∷ l)
    then err scope_slug_invalid
    else ok (record {
      firm = f;
      engagement = padded 1 (f ∷ l);
      system = padded 2 (f ∷ l);
      environment = padded 3 (f ∷ l);
    })

-- `ScopePath.parse`
unfoldable pub parse : String → Result ScopePath
parse text = of_segments (segments text)

-- The loop of `levels`, which stops at the first value that is absent.
unfoldable pub levels_until : List ScopeLevel → List (Option String) → List (ScopeLevel × String)
levels_until [] values = []
levels_until (level ∷ ls) [] = []
levels_until (level ∷ ls) (none ∷ values) = []
levels_until (level ∷ ls) (some value ∷ values) = (level, value) ∷ levels_until ls values

unfoldable pub levels : ScopePath → List (ScopeLevel × String)
levels p = levels_until scope_levels (some p.firm ∷ p.engagement ∷ p.system ∷ p.environment ∷ [])

-- The slugs of the levels that are present.
unfoldable pub present : List (Option ScopeNode) → List String
present [] = []
present (none ∷ l) = present l
present (some node ∷ l) = node.slug ∷ present l

unfoldable pub slugs : Scope → List String
slugs scope = present (some scope.firm ∷ scope.engagement ∷ scope.system ∷ scope.environment ∷ [])

abbrev depth : Scope → ℕ
depth scope = length (slugs scope)

-- `Scope.path`
unfoldable pub path : Scope → String
path scope = join (slugs scope)

-- `resolve` of a text.
unfoldable pub resolve_text : String → Store → Result Scope
resolve_text text s = elim (parse text) [ err e ↦ err e | ok p ↦ resolve p s ]
