-- ===== src/Identity/RoundTrip.antt =====
-- packages/adopt-identity/src/adopt_identity/uri.py: `parse_uri` and `validate_uri` of what `build_uri`
-- gives.
use onboard_core.Base.{
  true, false, ◌≡◌, refl, sym, ap, ap₂, ◌∙◌, subst, Option, none, some, List, [], ◌∷◌, map, any,
  all, arith, nat_eq, Bool-cases, Option-cases, inl, inr,
}
use onboard_core.Obs.{ok, Result-cases, answered, Answer-cases}
use onboard_core.Model.Scopes.{Scope}
use onboard_core.Identity.Texts.{Text, text_eq, is_empty, has_slash, has_percent_triplet, join}
use onboard_core.Identity.Uris.{
  Codec, uri_scheme, empty_namespace, is_identity_kind, is_slug, IdentityUri, LocalKey,
  key_segments, is_too_long, require_scope, segments_of, render, normalized_namespace,
  rendered_namespace, checked, build_uri, decode_once, decode_key, decode_namespace, parse_fixed,
  parse_segments, parse_uri, validate_uri,
}
use onboard_core.Identity.Segments.{
  text_eq_iff, text_eq_refl, is_segment, is_slug-segment, is_identity_kind-segment, split-join,
  segment-filled, partition-scheme, is_valid_slug-is_slug,
}

-- What is documented of NFC and of `urllib.parse`.
pub record IsCodec (codec : Codec) : Type 0 where
  -- A normalized text is its own normal form.
  pub normal_again : (t : Text) → codec.normalize (codec.normalize t) ≡ codec.normalize t
  -- A quoted text is read back.
  pub reads_back : (t : Text) → codec.unquote (codec.quote t) ≡ some t
  -- With nothing safe, a slash is quoted.
  pub no_slash : (t : Text) → has_slash (codec.quote t) ≡ false
  -- A text without a percent sign is read as it is.
  pub plain : (t : Text) → any (λ c. nat_eq c b'%') t ≡ false → codec.unquote t ≡ some t

module _ (codec : Codec) (law : IsCodec codec) where
  quote-segment : (t : Text) → is_empty t ≡ false → is_segment (codec.quote t) ≡ true
  quote-segment t filled = elim (Bool-cases (is_empty (codec.quote t))) [
    | inr kept ↦ ground (arith, kept, law.no_slash t)
    | inl gone ↦
        let nothing : codec.quote t ≡ [] = ground (arith, gone) in
        let back = sym (law.reads_back t) ∙ ap codec.unquote nothing ∙ law.plain [] refl in
        absurd (ground (arith, back, filled))
  ]

  quote-apart :
      (t : Text)
      → text_eq t empty_namespace ≡ false
      → text_eq (codec.quote t) empty_namespace ≡ false
  quote-apart t apart = elim (Bool-cases (text_eq (codec.quote t) empty_namespace)) [
    | inr e ↦ e
    | inl same ↦
        let back =
          sym (law.reads_back t)
          ∙ ap codec.unquote ((text_eq_iff (codec.quote t) empty_namespace).0 same)
          ∙ law.plain empty_namespace refl in
        absurd (ground (arith, apart, back, text_eq_refl t))
  ]

  -- A value that `build_uri` may assemble.
  pub record IsCanonical (u : IdentityUri) : Type 0 where
    pub firm : is_slug u.firm ≡ true
    pub engagement : is_slug u.engagement ≡ true
    pub system : is_slug u.system ≡ true
    pub environment : is_slug u.environment ≡ true
    pub kind : is_identity_kind u.kind ≡ true
    pub keyed : is_empty u.key ≡ false
    pub filled : any is_empty u.key ≡ false
    pub once : any has_percent_triplet u.key ≡ false
    pub normal : map codec.normalize u.key ≡ u.key
    pub namespace :
        (n : Text)
        → u.namespace ≡ some n
        → (is_empty n ≡ false)
          × (text_eq n empty_namespace ≡ false)
          × (has_percent_triplet n ≡ false)
          × (codec.normalize n ≡ n)

  decode_key-quoted :
      (key : List Text)
      → any has_percent_triplet key ≡ false
      → decode_key codec (map codec.quote key) ≡ answered (map codec.normalize key)
  unfolding decode_key decode_once
  decode_key-quoted [] once = refl
  decode_key-quoted (k ∷ key) once = ground (arith, once, law.reads_back k, decode_key-quoted key)

  decode_namespace-rendered :
      (u : IdentityUri)
      → IsCanonical u
      → decode_namespace codec (rendered_namespace codec u.namespace) ≡ answered u.namespace
  unfolding decode_namespace decode_once
  decode_namespace-rendered u c = elim (Option-cases u.namespace) [
    | inl e ↦ rw e refl
    | inr (n, e) ↦
        let (filled, apart, once, normal) = c.namespace n e in
        rw e (ground (arith, quote-apart n apart, law.reads_back n, once, normal))
  ]

  quoted-segments :
      (key : List Text) → any is_empty key ≡ false → all is_segment (map codec.quote key) ≡ true
  quoted-segments [] filled = refl
  quoted-segments (k ∷ key) filled =
      let here = quote-segment k (ground (arith, filled)) in
      ground (arith, filled, here, quoted-segments key)

  rendered_namespace-segment :
      (u : IdentityUri) → IsCanonical u → is_segment (rendered_namespace codec u.namespace) ≡ true
  rendered_namespace-segment u c = elim (Option-cases u.namespace) [
    | inl e ↦ rw e refl
    | inr (n, e) ↦ rw e (quote-segment n (c.namespace n e).0)
  ]

  segments_of-segments :
      (u : IdentityUri) → IsCanonical u → all is_segment (segments_of codec u) ≡ true
  unfolding segments_of
  segments_of-segments u c = ground (
    arith,
    is_slug-segment u.firm c.firm,
    is_slug-segment u.engagement c.engagement,
    is_slug-segment u.system c.system,
    is_slug-segment u.environment c.environment,
    is_identity_kind-segment u.kind c.kind,
    rendered_namespace-segment u c,
    quoted-segments u.key c.filled,
  )

  parse_segments-key :
      (f e s v kind namespace : Text) (key : List Text)
      → is_empty key ≡ false
      → any is_empty (f ∷ e ∷ s ∷ v ∷ kind ∷ namespace ∷ map codec.quote key) ≡ false
      → parse_segments codec (f ∷ e ∷ s ∷ v ∷ kind ∷ namespace ∷ map codec.quote key)
        ≡ parse_fixed codec f e s v kind namespace (map codec.quote key)
  unfolding parse_segments
  parse_segments-key f e s v kind namespace [] keyed filled = cc
  parse_segments-key f e s v kind namespace (k ∷ key) keyed filled = rw filled refl

  parse_segments-segments_of :
      (u : IdentityUri) → IsCanonical u → parse_segments codec (segments_of codec u) ≡ answered u
  unfolding segments_of parse_fixed
  parse_segments-segments_of u c =
      let parts = map codec.quote u.key in
      let namespace = rendered_namespace codec u.namespace in
      let key = decode_key-quoted u.key c.once ∙ ap answered c.normal in
      let named = decode_namespace-rendered u c in
      parse_segments-key u.firm u.engagement u.system u.environment u.kind namespace u.key c.keyed
        (segment-filled (segments_of codec u) (segments_of-segments u c))
      ∙ ground (arith, c.firm, c.engagement, c.system, c.environment, c.kind, key, named)

  -- What a canonical value renders as is parsed as that value.
  pub parse_uri-render :
      (u : IdentityUri)
      → IsCanonical u
      → is_too_long (render codec u) ≡ false
      → parse_uri codec (render codec u) ≡ answered u
  unfolding parse_uri render segments_of
  parse_uri-render u c short =
      let split_back =
        split-join u.firm
          (u.engagement
            ∷ u.system
            ∷ u.environment
            ∷ u.kind
            ∷ rendered_namespace codec u.namespace
            ∷ map codec.quote u.key)
          (segments_of-segments u c) in
      let parted = partition-scheme (join (segments_of codec u)) in
      ground
        (arith, short, parted, text_eq_refl uri_scheme, split_back, parse_segments-segments_of u c)

  require_scope-slugs :
      (scope : Scope) (slugs : Text × Text × Text × Text)
      → require_scope scope ≡ ok slugs
      → (is_slug slugs.0 ≡ true)
        × (is_slug slugs.1 ≡ true)
        × (is_slug slugs.2 ≡ true)
        × (is_slug slugs.3 ≡ true)
  unfolding require_scope
  require_scope-slugs scope slugs e = elim (Option-cases scope.engagement) [
    | inl none_there ↦ absurd (ground (arith, none_there, e))
    | inr (g, eg) ↦ elim (Option-cases scope.system) [
      | inl none_there ↦ absurd (ground (arith, eg, none_there, e))
      | inr (y, ey) ↦ elim (Option-cases scope.environment) [
        | inl none_there ↦ absurd (ground (arith, eg, ey, none_there, e))
        | inr (v, ev) ↦ ground (
          arith,
          eg,
          ey,
          ev,
          e,
          is_valid_slug-is_slug scope.firm.slug,
          is_valid_slug-is_slug g.slug,
          is_valid_slug-is_slug y.slug,
          is_valid_slug-is_slug v.slug,
        )
      ]
    ]
  ]

  normal_key : (l : List Text) → map codec.normalize (map codec.normalize l) ≡ map codec.normalize l
  normal_key [] = refl
  normal_key (t ∷ l) = ap₂ ◌∷◌ (law.normal_again t) (normal_key l)

  normalized_namespace-some :
      (namespace : Option Text) (n : Text)
      → normalized_namespace codec namespace ≡ some n
      → (is_empty n ≡ false) × (codec.normalize n ≡ n)
  normalized_namespace-some none n e = cc
  normalized_namespace-some (some t) n e = elim (Bool-cases (is_empty (codec.normalize t))) [
    | inl gone ↦ absurd (ground (arith, gone, e))
    | inr kept ↦ ground (arith, kept, e, law.normal_again t)
  ]

  checked-IsCanonical :
      (slugs : Text × Text × Text × Text) (kind : Text) (namespace : Option Text) (key : LocalKey)
      (u : IdentityUri)
      → (is_slug slugs.0 ≡ true)
        × (is_slug slugs.1 ≡ true)
        × (is_slug slugs.2 ≡ true)
        × (is_slug slugs.3 ≡ true)
      → checked codec slugs kind namespace key ≡ ok u
      → IsCanonical u
  unfolding checked
  checked-IsCanonical slugs kind namespace key u (a, b, c, d) e =
      let segments = map codec.normalize (key_segments key) in
      let named = normalized_namespace codec namespace in
      let made : u ≡ record {
        firm = slugs.0;
        engagement = slugs.1;
        system = slugs.2;
        environment = slugs.3;
        kind = codec.normalize kind;
        namespace = named;
        key = segments;
      } =
        ground (arith, e) in
      subst IsCanonical (sym made) (record {
        firm = a;
        engagement = b;
        system = c;
        environment = d;
        kind = ground (arith, e);
        keyed = ground (arith, e);
        filled = ground (arith, e);
        once = ground (arith, e);
        normal = normal_key (key_segments key);
        namespace = λ n is_n.
            let (filled, normal) = normalized_namespace-some namespace n is_n in
            (filled, ground (arith, e, is_n), ground (arith, e, is_n), normal);
      })

  -- If normal forms are their own normal forms, a quoted text is read back and has no slash, and a
  -- text without a percent sign is read as it is, then what `build_uri` gives is parsed as the
  -- slugs of the scope, the normalized kind, the normalized namespace, which is none where it is
  -- empty, and the normalized segments of the key, and `validate_uri` accepts it.
  pub build_uri-parse_uri :
      (scope : Scope) (kind : Text) (namespace : Option Text) (key : LocalKey) (uri : Text)
      → build_uri codec scope kind namespace key ≡ ok uri
      → (u : IdentityUri) × (parse_uri codec uri ≡ answered u)
        × (require_scope scope ≡ ok (u.firm, u.engagement, u.system, u.environment))
        × (u.kind ≡ codec.normalize kind)
        × (u.namespace ≡ normalized_namespace codec namespace)
        × (u.key ≡ map codec.normalize (key_segments key))
        × (validate_uri codec uri ≡ answered tt)
  unfolding build_uri checked validate_uri
  build_uri-parse_uri scope kind namespace key uri e = elim (Result-cases (require_scope scope)) [
    | inr (code, bad) ↦ absurd (ground (arith, bad, e))
    | inl (slugs, resolved) ↦ elim (Result-cases (checked codec slugs kind namespace key)) [
      | inr (code, bad) ↦ absurd (ground (arith, resolved, bad, e))
      | inl (u, right) ↦
          let canonical =
            checked-IsCanonical slugs kind namespace key u
              (require_scope-slugs scope slugs resolved) right in
          let short : is_too_long (render codec u) ≡ false = ground (arith, resolved, right, e) in
          let same : uri ≡ render codec u = ground (arith, resolved, right, short, e) in
          let parsed = ap (parse_uri codec) same ∙ parse_uri-render u canonical short in
          (
            u,
            parsed,
            ground (arith, resolved, right),
            ground (arith, right),
            ground (arith, right),
            ground (arith, right),
            ground (arith, parsed, (text_eq_iff (render codec u) uri).1 (sym same)),
          )
    ]
  ]

module _ (codec : Codec) where
  validate_uri-render :
      (value : Text)
      → validate_uri codec value ≡ answered tt
      → (u : IdentityUri) × (parse_uri codec value ≡ answered u) × (render codec u ≡ value)
  unfolding validate_uri
  validate_uri-render value e = elim (Answer-cases (parse_uri codec value)) [
    | inl (u, parsed) ↦
        (u, parsed, ground (arith, parsed, e, (text_eq_iff (render codec u) value).0))
    | inr other ↦ elim other [
      | inl (code, bad) ↦ absurd (ground (arith, bad, e))
      | inr bad ↦ absurd (ground (arith, bad, e))
    ]
  ]

  -- Two texts that `validate_uri` accepts and that `parse_uri` reads alike are the same text.
  pub validate_uri_unique :
      (a b : Text)
      → validate_uri codec a ≡ answered tt
      → validate_uri codec b ≡ answered tt
      → parse_uri codec a ≡ parse_uri codec b
      → a ≡ b
  validate_uri_unique a b va vb same =
      let (u, pa, ra) = validate_uri-render a va in
      let (v, pb, rb) = validate_uri-render b vb in
      let one : u ≡ v = ground (arith, sym pa ∙ same ∙ pb) in sym ra ∙ ap (render codec) one ∙ rb
