-- ===== src/Kafka/Partition.antt =====
-- The enabled and the disabled manifest split the whole one.
use serverless_operator.Common.{
  count, count-append, ◌≤◌, ◌||◌, not, if◌then◌else◌, ◌>>=◌, ◌+◌, String, ◌≡◌, refl, ap, ◌∙◌, sym,
  subst, Bool, true, false, List, [], ◌++◌, Result, ok, >>=-eq-ok, arith, ok-injective,
}
use serverless_operator.Kafka.Spec.{KnativeKafkaSpec}
use serverless_operator.Kafka.Manifest.{
  ManifestBuild, enabled_only, disabled_only, build_all, Component, Manifests, IsManifests, section,
  sections, prefixed, enable_control_plane_manifest, build_manifest,
}

-- Every resource, whatever tells it apart, is as often in the first list as in the two others.
abbrev pub IsSplit {ℓ} : {A : Type ℓ} → List A → List A → List A → Type ℓ
IsSplit {A = A} whole left right = (p : A → Bool) → count p whole ≡ count p left + count p right

IsSplit-append {ℓ} :
    {A : Type ℓ} (whole left right whole' left' right' : List A)
    → IsSplit whole left right
    → IsSplit whole' left' right'
    → IsSplit (whole ++ whole') (left ++ left') (right ++ right')
IsSplit-append whole left right whole' left' right' h h' p =
    let here : count p whole ≡ count p left + count p right = h p in
    let there : count p whole' ≡ count p left' + count p right' = h' p in
    simp count-append (omega arith)

-- Every resource is in the second list at least as often as in the first.
abbrev pub IsWithin {ℓ} : {A : Type ℓ} → List A → List A → Type ℓ
IsWithin {A = A} part whole = (p : A → Bool) → count p part ≤ count p whole

IsWithin-append {ℓ} :
    {A : Type ℓ} (part whole part' whole' : List A)
    → IsWithin part whole
    → IsWithin part' whole'
    → IsWithin (part ++ part') (whole ++ whole')
IsWithin-append part whole part' whole' h h' p =
    let here : count p part ≤ count p whole = h p in
    let there : count p part' ≤ count p whole' = h' p in simp count-append (omega arith)

module _ {U E : Type 0} (ext : Manifests U E) where
  -- What the two partial builds return where the whole one returns a list: the first holds at least the
  -- resources that are to be there, and the second those that are not.
  abbrev pub SplitBuild :
      (ManifestBuild → Result E (List U)) → (wanted unwanted : List U) → List U → Type 0
  SplitBuild build wanted unwanted whole =
      (left : List U) × (right : List U) × (build enabled_only ≡ ok left)
      × (build disabled_only ≡ ok right)
      × IsSplit whole left right
      × IsWithin wanted left
      × IsWithin unwanted right

  -- The manifest of a component, if a condition holds.
  abbrev pub only_if : Bool → List U → List U
  only_if enabled raw = if enabled then raw else []

  raw-IsWithin :
      (proxy : Result E (List U)) (raw : List U) {whole : List U}
      → (do resources ← proxy; ok (resources ++ raw)) ≡ ok whole
      → IsWithin raw whole
  raw-IsWithin proxy raw h p =
      let (resources, _, end) = >>=-eq-ok proxy _ h in
      rw (← ok-injective end) (simp count-append (omega arith))

  section-SplitBuild :
      (enabled : Bool) (namespace : String) (components : List Component) (raw : List U)
      {whole : List U}
      → section ext build_all enabled namespace components raw ≡ ok whole
      → SplitBuild
          (λ build. section ext build enabled namespace components raw)
          (only_if enabled raw)
          (only_if (not enabled) raw)
          whole
  unfolding section count
  section-SplitBuild true namespace components raw {whole = whole} h =
      (whole, [], h, refl, λ p. omega arith, raw-IsWithin _ raw h, λ p. omega arith)
  section-SplitBuild false namespace components raw {whole = whole} h =
      ([], whole, refl, h, λ p. omega arith, λ p. omega arith, raw-IsWithin _ raw h)

  -- The manifests of the components that a test picks by whether they are enabled. The control plane is
  -- there for any of the four.
  abbrev pub raw_manifests : KnativeKafkaSpec → (Bool → Bool) → List U
  raw_manifests spec picks =
      only_if (picks spec.channel.enabled) ext.raw_kafka_channel
      ++ (only_if
            (picks (
              spec.broker.enabled || spec.sink.enabled || spec.source.enabled
              || spec.channel.enabled))
            ext.raw_kafka_controller
          ++ (only_if (picks spec.source.enabled) ext.raw_kafka_source
              ++ (only_if (picks spec.broker.enabled) ext.raw_kafka_broker
                  ++ only_if (picks spec.sink.enabled) ext.raw_kafka_sink)))

  sections-SplitBuild :
      (namespace : String) (spec : KnativeKafkaSpec) (whole : List U)
      → sections ext namespace spec build_all ≡ ok whole
      → SplitBuild
          (sections ext namespace spec)
          (raw_manifests spec (λ enabled. enabled))
          (raw_manifests spec not)
          whole
  unfolding sections enable_control_plane_manifest
  sections-SplitBuild namespace spec whole h =
      let (a, ha, h1) = >>=-eq-ok _ _ h in
      let (b, hb, h2) = >>=-eq-ok _ _ h1 in
      let (c, hc, h3) = >>=-eq-ok _ _ h2 in
      let (d, hd, h4) = >>=-eq-ok _ _ h3 in
      let (e, he, h5) = >>=-eq-ok _ _ h4 in
      let (al, ar, ael, aer, sa, wa, ua) = section-SplitBuild _ _ _ _ ha in
      let (bl, br, bel, ber, bs, wb, ub) = section-SplitBuild _ _ _ _ hb in
      let (cl, cr, cel, cer, cs, wc, uc) = section-SplitBuild _ _ _ _ hc in
      let (dl, dr, del, der, ds, wd, ud) = section-SplitBuild _ _ _ _ hd in
      let (el, er, eel, eer, es, we, ue) = section-SplitBuild _ _ _ _ he in
      (
        al ++ (bl ++ (cl ++ (dl ++ el))),
        ar ++ (br ++ (cr ++ (dr ++ er))),
        rw (ael, bel, cel, del, eel) refl,
        rw (aer, ber, cer, der, eer) refl,
        subst (λ w. IsSplit w (al ++ (bl ++ (cl ++ (dl ++ el)))) (ar ++ (br ++ (cr ++ (dr ++ er)))))
            (ok-injective h5)
            (IsSplit-append _ _ _ _ _ _ sa (
              IsSplit-append _ _ _ _ _ _ bs
                (IsSplit-append _ _ _ _ _ _ cs (IsSplit-append _ _ _ _ _ _ ds es)))),
        IsWithin-append _ _ _ _ wa (
            IsWithin-append _ _ _ _ wb
              (IsWithin-append _ _ _ _ wc (IsWithin-append _ _ _ _ wd we))),
        IsWithin-append _ _ _ _ ua (
            IsWithin-append _ _ _ _ ub
              (IsWithin-append _ _ _ _ uc (IsWithin-append _ _ _ _ ud ue))),
      )

  -- Where the whole manifest can be built, and a manifest is made of a slice as it is, the manifest of
  -- the enabled and that of the disabled components can be built too, and they split the whole one:
  -- for every test of resources, as many of the whole pass it as of the two together. The first holds
  -- the raw manifests of the enabled components, and the second those of the others; the control plane
  -- is enabled where any of broker, sink, source and channel is.
  pub build_manifest-SplitBuild :
      (namespace : String) (spec : KnativeKafkaSpec) (whole : List U)
      → IsManifests ext
      → build_manifest ext namespace spec build_all ≡ ok whole
      → SplitBuild
          (build_manifest ext namespace spec)
          (raw_manifests spec (λ enabled. enabled))
          (raw_manifests spec not)
          whole
  unfolding build_manifest
  build_manifest-SplitBuild namespace spec whole law h =
      let (w, hw, hm) = >>=-eq-ok _ _ h in
      let (left, right, el, er, split, wanted, unwanted) =
        sections-SplitBuild namespace spec w hw in
      let built = λ (us : List U). ap (prefixed ext) (law.from_slice us) in
      (
        left,
        right,
        rw el (built left),
        rw er (built right),
        subst (λ w'. IsSplit w' left right) (ok-injective (sym (built w) ∙ hm)) split,
        wanted,
        unwanted,
      )
