-- ===== src/Identity/Samples.antt =====
-- A codec that quotes the slash and the percent sign, and a URI that is built over it.
use mathlib.Core.Option
use onboard_core.Base.{
  false, ◌≡◌, refl, Option, none, some, [], ◌∷◌, any, arith, nat_eq, codes, Bool-cases, inl, inr,
  if◌then◌else◌,
}
use onboard_core.Obs.{ok, answered}
use onboard_core.Model.Scopes.{Scope}
use onboard_core.Scope.Slugs.{is_valid_slug, matches_slug_pattern}
use onboard_core.Identity.Texts.{
  Text, has_slash, utf8_length, has_percent_triplet, join, split_from, partition,
}
use onboard_core.Identity.Uris.{
  Codec, IdentityUri, LocalKey, bare, key_segments, require_scope, uri_scheme, scheme_separator,
  identity_kinds, build_uri, parse_uri, validate_uri,
}
use onboard_core.Identity.RoundTrip.{IsCodec, build_uri-parse_uri, validate_uri_unique}

quote : Text → Text
quote [] = []
quote (c ∷ cs) =
    if nat_eq c b'/'
    then b'%' ∷ b'2' ∷ b'F' ∷ quote cs
    else if nat_eq c b'%'
    then b'%' ∷ b'2' ∷ b'5' ∷ quote cs
    else c ∷ quote cs

-- `read` is what was read of an escape.
unquote_from : Text → Text → Option Text
unquote_from read [] = some read
unquote_from [] (c ∷ cs) =
    let escape = unquote_from (c ∷ []) cs in
    let on = Option.map (λ t. c ∷ t) (unquote_from [] cs) in if nat_eq c b'%' then escape else on
unquote_from (p ∷ []) (c ∷ cs) = unquote_from (p ∷ c ∷ []) cs
unquote_from (p ∷ q ∷ r) (c ∷ cs) =
    Option.map (λ t. (if nat_eq c b'F' then b'/' else b'%') ∷ t) (unquote_from [] cs)

abbrev codec : Codec
codec = record { normalize = λ t. t; quote = quote; unquote = unquote_from [] }

unquote-quote : (t : Text) → unquote_from [] (quote t) ≡ some t
unfolding quote unquote_from
unquote-quote [] = refl
unquote-quote (c ∷ t) = elim (Bool-cases (nat_eq c b'/')) [
  | inl e ↦ ground (arith, e, unquote-quote t)
  | inr e ↦ elim (Bool-cases (nat_eq c b'%')) [
    | inl f ↦ ground (arith, e, f, unquote-quote t)
    | inr f ↦ ground (arith, e, f, unquote-quote t)
  ]
]

quote-slash : (t : Text) → has_slash (quote t) ≡ false
unfolding quote
quote-slash [] = refl
quote-slash (c ∷ t) = ground (arith, quote-slash t)

unquote-plain : (t : Text) → any (λ c. nat_eq c b'%') t ≡ false → unquote_from [] t ≡ some t
unfolding unquote_from
unquote-plain [] e = refl
unquote-plain (c ∷ t) e = ground (arith, e, unquote-plain t)

law : IsCodec codec
law = record {
  normal_again = λ t. refl;
  reads_back = unquote-quote;
  no_slash = quote-slash;
  plain = unquote-plain;
}

abbrev scope : Scope
scope = record {
  firm = record { id = "firm_1"; slug = "acme" };
  engagement = some (record { id = "eng_1"; slug = "pay" });
  system = some (record { id = "sys_1"; slug = "billing" });
  environment = some (record { id = "env_1"; slug = "prod" });
}

program : Unit {0}
unfolding build_uri parse_uri validate_uri codes is_valid_slug matches_slug_pattern utf8_length
    has_percent_triplet join split_from partition uri_scheme scheme_separator identity_kinds
    require_scope quote unquote_from
program = tt

abbrev endpoint : Text
unfolding codes
endpoint = codes "endpoint"

abbrev orders : LocalKey
unfolding codes
orders = bare (codes "GET /orders")

abbrev uri : Text
unfolding codes
uri = codes "onboard-v1://acme/pay/billing/prod/endpoint/-/GET %2Forders"

builds : build_uri codec scope endpoint none orders ≡ ok uri
unfolding program
builds = refl

build_uri-parse_uri_example :
    (u : IdentityUri) × (parse_uri codec uri ≡ answered u)
    × (require_scope scope ≡ ok (u.firm, u.engagement, u.system, u.environment))
    × (u.kind ≡ endpoint)
    × (u.namespace ≡ none)
    × (u.key ≡ key_segments orders)
    × (validate_uri codec uri ≡ answered tt)
unfolding orders
build_uri-parse_uri_example = build_uri-parse_uri codec law scope endpoint none orders uri builds

valid : validate_uri codec uri ≡ answered tt
unfolding program
valid = refl

validate_uri_unique_example : uri ≡ uri
validate_uri_unique_example = validate_uri_unique codec uri uri valid valid refl
