-- ===== src/Identity/Uris.antt =====
-- packages/adopt-identity/src/adopt_identity/uri.py: building, parsing and validating an identity URI.
-- `unicodedata.normalize` and `urllib.parse` are parameters, on texts without lone surrogates.
use onboard_core.Base.{
  ℕ, Bool, false, Option, none, some, List, [], ◌∷◌, ◌++◌, map, any, length, ltb, leb, not, codes,
  ◌&&◌, ◌||◌, if◌then◌else◌,
}
use onboard_core.Obs.{
  Result, ok, err, Answer, answered, refused, broke, uri_malformed, uri_too_long,
  uri_scheme_unknown, uri_double_encoded,
}
use onboard_core.Model.Scopes.{Scope}
use onboard_core.Scope.Slugs.{matches_slug_pattern, slug_min_chars, slug_max_chars, is_valid_slug}
use onboard_core.Identity.Texts.{
  Text, text_eq, is_empty, utf8_length, has_percent_triplet, join, split, partition,
}

-- `normalize("NFC", ...)`, `quote(..., safe="")`, and `unquote(..., errors="strict")`, which is
-- `none` where it raises a `UnicodeDecodeError`.
pub record Codec : Type 0 where
  pub normalize : Text → Text
  pub quote : Text → Text
  pub unquote : Text → Option Text

-- adopt_const: URI_SCHEME and URI_MAX_BYTES
unfoldable pub uri_scheme : Text
unfolding codes
uri_scheme = codes "onboard-v1"

abbrev pub uri_max_bytes : ℕ
uri_max_bytes = 1024

unfoldable pub scheme_separator : Text
unfolding codes
scheme_separator = codes "://"

abbrev pub empty_namespace : Text
empty_namespace = b'-' ∷ []

-- IDENTITY_KINDS
unfoldable pub identity_kinds : List Text
unfolding codes
identity_kinds =
    codes "endpoint"
    ∷ codes "db_field"
    ∷ codes "state_transition"
    ∷ codes "symbol"
    ∷ codes "metadata_component"
    ∷ codes "prompt"
    ∷ codes "tool_schema"
    ∷ codes "model_pin"
    ∷ codes "retrieval_config"
    ∷ codes "flag"
    ∷ codes "job"
    ∷ codes "config_key"
    ∷ codes "ui_component"
    ∷ []

abbrev pub is_identity_kind : Text → Bool
is_identity_kind kind = any (text_eq kind) identity_kinds

-- `is_valid_slug` of a text.
unfoldable pub is_slug : Text → Bool
is_slug text =
    matches_slug_pattern text
    && leb slug_min_chars (length text)
    && leb (length text) slug_max_chars

pub record IdentityUri : Type 0 where
  pub firm : Text
  pub engagement : Text
  pub system : Text
  pub environment : Text
  pub kind : Text
  pub namespace : Option Text
  pub key : List Text

-- The `key` of `build_uri`.
pub data LocalKey : Type 0 where
  bare : Text → LocalKey
  sequence : List Text → LocalKey

abbrev pub key_segments : LocalKey → List Text
key_segments (bare text) = text ∷ []
key_segments (sequence texts) = texts

-- `_require_within_length`, by its test.
abbrev pub is_too_long : Text → Bool
is_too_long uri = ltb uri_max_bytes (utf8_length uri)

-- `_require_scope`
unfoldable pub require_scope : Scope → Result (Text × Text × Text × Text)
require_scope scope = elim scope.engagement [
  | none ↦ err uri_malformed
  | some engagement ↦ elim scope.system [
    | none ↦ err uri_malformed
    | some system ↦ elim scope.environment [
      | none ↦ err uri_malformed
      | some environment ↦
          if is_valid_slug scope.firm.slug
            && is_valid_slug engagement.slug
            && is_valid_slug system.slug
            && is_valid_slug environment.slug
          then ok (
            codes scope.firm.slug,
            codes engagement.slug,
            codes system.slug,
            codes environment.slug,
          )
          else err uri_malformed
    ]
  ]
]

module _ (codec : Codec) where
  abbrev pub rendered_namespace : Option Text → Text
  rendered_namespace none = empty_namespace
  rendered_namespace (some namespace) = codec.quote namespace

  -- `_assemble` and `render`
  unfoldable pub segments_of : IdentityUri → List Text
  segments_of u =
      u.firm
      ∷ u.engagement
      ∷ u.system
      ∷ u.environment
      ∷ u.kind
      ∷ rendered_namespace u.namespace
      ∷ map codec.quote u.key

  unfoldable pub render : IdentityUri → Text
  unfolding segments_of
  render u = uri_scheme ++ (scheme_separator ++ join (segments_of u))

  -- The namespace that is rendered: an empty one is none.
  abbrev pub normalized_namespace : Option Text → Option Text
  normalized_namespace none = none
  normalized_namespace (some namespace) =
      if is_empty (codec.normalize namespace) then none else some (codec.normalize namespace)

  abbrev pub is_ambiguous : Option Text → Bool
  is_ambiguous none = false
  is_ambiguous (some namespace) = text_eq namespace empty_namespace

  abbrev pub has_escape : Option Text → Bool
  has_escape none = false
  has_escape (some namespace) = has_percent_triplet namespace

  -- The checks of `build_uri` after the scope, and what they leave to assemble.
  unfoldable pub checked :
      Text × Text × Text × Text → Text → Option Text → LocalKey → Result IdentityUri
  checked slugs kind namespace key =
      let normalized_key = map codec.normalize (key_segments key) in
      let normalized = normalized_namespace namespace in
      if not (is_identity_kind (codec.normalize kind))
      then err uri_malformed
      else if is_empty normalized_key || any is_empty normalized_key
      then err uri_malformed
      else if is_ambiguous normalized
      then err uri_malformed
      else if has_escape normalized || any has_percent_triplet normalized_key
      then err uri_double_encoded
      else ok (record {
        firm = slugs.0;
        engagement = slugs.1;
        system = slugs.2;
        environment = slugs.3;
        kind = codec.normalize kind;
        namespace = normalized;
        key = normalized_key;
      })

  unfoldable pub build_uri : Scope → Text → Option Text → LocalKey → Result Text
  unfolding require_scope checked render
  build_uri scope kind namespace key = elim (require_scope scope) [
    | err e ↦ err e
    | ok slugs ↦ elim (checked slugs kind namespace key) [
      | err e ↦ err e
      | ok u ↦ if is_too_long (render u) then err uri_too_long else ok (render u)
    ]
  ]

  -- `_decode_once`
  unfoldable pub decode_once : Text → Answer Text
  decode_once segment = elim (codec.unquote segment) [
    | none ↦ broke
    | some decoded ↦
        if has_percent_triplet decoded then refused uri_double_encoded else answered decoded
  ]

  -- The generator of `key`.
  unfoldable pub decode_key : List Text → Answer (List Text)
  unfolding decode_once
  decode_key [] = answered []
  decode_key (part ∷ parts) = elim (decode_once part) [
    | refused e ↦ refused e
    | broke ↦ broke
    | answered decoded ↦ elim (decode_key parts) [
      | refused e ↦ refused e
      | broke ↦ broke
      | answered rest ↦ answered (codec.normalize decoded ∷ rest)
    ]
  ]

  unfoldable pub decode_namespace : Text → Answer (Option Text)
  unfolding decode_once
  decode_namespace namespace =
      if text_eq namespace empty_namespace then answered none else (elim (decode_once namespace) [
        | refused e ↦ refused e
        | broke ↦ broke
        | answered decoded ↦ answered (some (codec.normalize decoded))
      ])

  -- `parse_uri` from the segments on, once none is empty and there are seven.
  unfoldable pub parse_fixed :
      Text → Text → Text → Text → Text → Text → List Text → Answer IdentityUri
  unfolding is_slug decode_key decode_namespace
  parse_fixed firm engagement system environment kind namespace parts =
      if not (is_slug firm && is_slug engagement && is_slug system && is_slug environment)
      then refused uri_malformed
      else if not (is_identity_kind kind)
      then refused uri_malformed
      else (elim (decode_key parts) [
        | refused e ↦ refused e
        | broke ↦ broke
        | answered key ↦ elim (decode_namespace namespace) [
          | refused e ↦ refused e
          | broke ↦ broke
          | answered parsed ↦ answered (record {
            firm = firm;
            engagement = engagement;
            system = system;
            environment = environment;
            kind = kind;
            namespace = parsed;
            key = key;
          })
        ]
      ])

  unfoldable pub parse_segments : List Text → Answer IdentityUri
  unfolding parse_fixed
  parse_segments (f ∷ e ∷ s ∷ v ∷ kind ∷ namespace ∷ part ∷ parts) =
      if any is_empty (f ∷ e ∷ s ∷ v ∷ kind ∷ namespace ∷ part ∷ parts)
      then refused uri_malformed
      else parse_fixed f e s v kind namespace (part ∷ parts)
  parse_segments _ = refused uri_malformed

  unfoldable pub parse_uri : Text → Answer IdentityUri
  unfolding parse_segments
  parse_uri value =
      if is_too_long value then refused uri_too_long else (elim (partition scheme_separator value) [
        | none ↦ refused uri_scheme_unknown
        | some (label, remainder) ↦
            if text_eq label uri_scheme
            then parse_segments (split remainder)
            else refused uri_scheme_unknown
      ])

  unfoldable pub validate_uri : Text → Answer (Unit {0})
  unfolding parse_uri render
  validate_uri value = elim (parse_uri value) [
    | refused e ↦ refused e
    | broke ↦ broke
    | answered parsed ↦ if text_eq (render parsed) value then answered tt else refused uri_malformed
  ]
