-- ===== src/Controllers/Certs/Laws.antt =====
-- What ensureCustomCertsConfigMap leaves in the cluster.
use serverless_operator.Common.{
  String, ◌≡◌, ◌≢◌, refl, sym, ap, ◌∙◌, subst, false, Option, none, ◌==◌, Dict, [], ◌∷◌, inl, inr,
  Bool-cases, Answer-cases, SameMap, lookup_or, insert, lookup_or-insert, union, eq_iff, found, ok,
  ◌<>◌,
}
use mathlib.Core.Bool.{false≢true}
use text.Mathlib.TextLemmas.{append_cancel_left, append-nil}
use serverless_operator.Common.Run.{after-eq-ok, wrap_error, wrap_error-eq-ok, done}
use serverless_operator.Controllers.Spec.{Instance, ConfigMap, Deployment}
use serverless_operator.Controllers.ConfigMaps.Content.{
  found_inj, IsServer, IsReference, IsDesired, IsReconciled,
}
use serverless_operator.Controllers.ConfigMaps.Laws.{reconcile_config_map_lem}
use serverless_operator.Controllers.Certs.{
  CertsClient, certs_of, with_version, kick_found, on_controller, kick_controller, reconcile_cm,
  install_certs, ensure_custom_certs_config_map,
}

-- Names with different suffixes differ.
suffixes_ne : (name s t : String) → s ≢ t → (name <> s) ≢ (name <> t)
suffixes_ne name s t ne e = ne (append_cancel_left name s t e)

suffix_ne : (name s : String) → s ≢ "" → name ≢ (name <> s)
suffix_ne name s ne e = ne (sym (append_cancel_left name "" s (append-nil name ∙ e)))

by_test : (s t : String) → (s == t) ≡ false → s ≢ t
by_test s t h e = false≢true (sym h ∙ (eq_iff s t).1 e)

-- What the documentation of the API promises of Deployments, and that a write to one changes no
-- ConfigMap.
pub record IsLawful {S R D X : Type 0} (client : CertsClient S R D X) : Type 0 where
  pub config_maps : IsServer client.config_maps
  pub reference : IsReference client.set_controller_reference
  pub got :
      (namespace name : String) (x : X) (d : Deployment D)
      → client.deployments.get namespace name x ≡ found d
      → (d.namespace ≡ namespace) × (d.name ≡ name)
  pub updated :
      (d d' : Deployment D) (x x' : X)
      → client.deployments.update d x ≡ (x', ok d')
      → (client.deployments.get d.namespace d.name x' ≡ found d')
        × (d'.template_annotations ≡ d.template_annotations)
        × ((ns n : String) → client.config_maps.get ns n x' ≡ client.config_maps.get ns n x)

module _ {S R D X : Type 0} (client : CertsClient S R D X) (lawful : IsLawful client) where
  -- A controller that is there carries the version in its pod template.
  abbrev pub IsKicked : String → String → X → Type 0
  IsKicked namespace version x =
      (d : Deployment D)
      → client.deployments.get namespace "controller" x ≡ found d
      → lookup_or "" "serving.knative.openshift.io/mounted-cert-version" d.template_annotations
        ≡ version

  -- The three ConfigMaps are there, the third one combines the data of the first two, those of the
  -- trusted certificates last, and a controller that is there carries its version.
  abbrev pub IsCertified : String → String → X → Type 0
  IsCertified namespace name x =
      (service : ConfigMap R) × (trusted : ConfigMap R) × (combined : ConfigMap R)
      × (client.config_maps.get namespace (name <> "-service-ca") x ≡ found service)
      × IsDesired (("service.alpha.openshift.io/inject-cabundle", "true") ∷ []) [] none service
      × (client.config_maps.get namespace (name <> "-trusted-ca") x ≡ found trusted)
      × IsDesired (("openshift.io/owning-component", "Serverless Operator") ∷ [])
          (("config.openshift.io/inject-trusted-cabundle", "true") ∷ []) none trusted
      × (client.config_maps.get namespace name x ≡ found combined)
      × SameMap (union service.contents trusted.contents) combined.contents
      × IsKicked namespace combined.resource_version x

  kicked_by :
      (namespace version : String) (controller written d : Deployment D) {x : X} (y : X)
      → client.deployments.get namespace "controller" x ≡ found controller
      → client.deployments.get controller.namespace controller.name y ≡ found written
      → written.template_annotations
        ≡ insert "serving.knative.openshift.io/mounted-cert-version" version
            controller.template_annotations
      → client.deployments.get namespace "controller" y ≡ found d
      → lookup_or "" "serving.knative.openshift.io/mounted-cert-version" d.template_annotations
        ≡ version
  kicked_by namespace version controller written d {x} y there stored annotated found_d =
      let (its_namespace, its_name) = lawful.got namespace "controller" x controller there in
      let stored' : client.deployments.get namespace "controller" y ≡ found written =
        subst (λ m. client.deployments.get namespace m y ≡ found written) its_name
          (subst (λ m. client.deployments.get m controller.name y ≡ found written) its_namespace
            stored) in
      rw (← found_inj (sym stored' ∙ found_d), annotated, lookup_or-insert) refl

  kick_found-IsKicked :
      (namespace version : String) (controller : Deployment D) (x x' : X)
      → client.deployments.get namespace "controller" x ≡ found controller
      → kick_found client version controller x ≡ (x', ok tt)
      → IsKicked namespace version x'
        × ((ns n : String) → client.config_maps.get ns n x' ≡ client.config_maps.get ns n x)
  unfolding kick_found
  kick_found-IsKicked namespace version controller x x' there h =
      elim (Bool-cases (
        version
        == lookup_or "" "serving.knative.openshift.io/mounted-cert-version"
            controller.template_annotations)) [
              | inl e ↦
                  let same : x ≡ x' = ap (λ r. r.0) (rw e at h) in
                  subst
                    (λ z.
                      IsKicked namespace version z
                      × ((ns n : String)
                          → client.config_maps.get ns n z ≡ client.config_maps.get ns n x))
                    same
                    (
                      λ d found_d.
                          rw (← found_inj (sym there ∙ found_d)) (sym ((eq_iff version _).0 e)),
                      λ ns n. refl,
                    )
              | inr e ↦
                  let (y, written, ran, end) =
                    after-eq-ok
                      (wrap_error "error updating the controller annotation: "
                        (client.deployments.update (with_version client version controller) x))
                      (λ _. done tt) (rw e at h) in
                  let (stored, annotated, kept) =
                    lawful.updated (with_version client version controller) written x y
                      (wrap_error-eq-ok _ _ ran) in
                  subst
                    (λ z.
                      IsKicked namespace version z
                      × ((ns n : String)
                          → client.config_maps.get ns n z ≡ client.config_maps.get ns n x))
                    (ap (λ r. r.0) end)
                    (
                      λ d found_d.
                          kicked_by namespace version controller written d y there stored annotated
                            found_d,
                      kept,
                    )
            ]

  kick_controller-IsKicked :
      (instance : Instance S) (version : String) (x x' : X)
      → kick_controller client instance version x ≡ (x', ok tt)
      → IsKicked instance.namespace version x'
        × ((ns n : String) → client.config_maps.get ns n x' ≡ client.config_maps.get ns n x)
  unfolding kick_controller on_controller
  kick_controller-IsKicked instance version x x' h =
      elim (Answer-cases (client.deployments.get instance.namespace "controller" x)) [
        | inl (d, e) ↦
            kick_found-IsKicked instance.namespace version d x x' e
              (rw (e, kick_controller, on_controller) at h)
        | inr (inl (f, e)) ↦
            let same : x ≡ x' = ap (λ r. r.0) (rw (e, kick_controller, on_controller) at h) in
            subst
              (λ z.
                IsKicked instance.namespace version z
                × ((ns n : String) → client.config_maps.get ns n z ≡ client.config_maps.get ns n x))
              same (λ d found_d. cc (sym e ∙ found_d), λ ns n. refl)
        | inr (inr (f, e)) ↦ cc (rw (e, kick_controller, on_controller) at h)
      ]

  reconcile_cm_lem :
      (instance : Instance S) (name : String) (annotations labels : Dict String)
      (contents : Option (Dict String)) (cm : ConfigMap R) (prefix : String) (x x' : X)
      → wrap_error prefix (reconcile_cm client instance name annotations labels contents x)
        ≡ (x', ok cm)
      → IsReconciled client.config_maps instance.namespace name annotations labels contents cm x x'
  unfolding reconcile_cm
  reconcile_cm_lem instance name annotations labels contents cm prefix x x' h =
      (reconcile_config_map_lem client.config_maps client.blank client.set_controller_reference
        lawful.config_maps lawful.reference instance name annotations labels contents cm x x'
        (wrap_error-eq-ok prefix _ h)).0

  install_certs-IsCertified :
      (instance : Instance S) (name : String) (x x' : X)
      → install_certs client instance name x ≡ (x', ok tt)
      → IsCertified instance.namespace name x'
  unfolding install_certs
  install_certs-IsCertified instance name x x' h =
      let (x₁, service, ran₁, rest₁) = after-eq-ok _ _ h in
      let (x₂, trusted, ran₂, rest₂) = after-eq-ok _ _ rest₁ in
      let (x₃, combined, ran₃, kick) = after-eq-ok _ _ rest₂ in
      let (stored₁, desired₁) = reconcile_cm_lem instance _ _ _ _ service _ x x₁ ran₁ in
      let (stored₂, desired₂) = reconcile_cm_lem instance _ _ _ _ trusted _ x₁ x₂ ran₂ in
      let (stored₃, (_, _, contents₃)) = reconcile_cm_lem instance _ _ _ _ combined _ x₂ x₃ ran₃ in
      let (kicked, kept) = kick_controller-IsKicked instance combined.resource_version x₃ x' kick in
      (
        service,
        trusted,
        combined,
        kept _ _
            ∙ stored₃.others_kept _ _
                (inr (λ e. suffix_ne name "-service-ca" (by_test _ _ refl) (sym e)))
            ∙ stored₂.others_kept _ _
                (inr (suffixes_ne name "-service-ca" "-trusted-ca" (by_test _ _ refl)))
            ∙ stored₁.there,
        desired₁,
        kept _ _
            ∙ stored₃.others_kept _ _
                (inr (λ e. suffix_ne name "-trusted-ca" (by_test _ _ refl) (sym e)))
            ∙ stored₂.there,
        desired₂,
        kept _ _ ∙ stored₃.there,
        contents₃,
        kicked,
      )

  -- Where the certificates of the instance are those of a ConfigMap with a name, after a run without
  -- an error, with a lawful client: the ConfigMaps that OpenShift fills are there with the labels
  -- and the annotations that ask for it, the ConfigMap of the name combines their data, and the
  -- controller of Serving, if it is there, carries the version of the combined one.
  pub ensure_custom_certs_config_map_lem :
      (instance : Instance S) (x x' : X)
      → let certs = certs_of instance.controller_custom_certs in
        (certs.type ≡ "ConfigMap")
        → certs.name ≢ ""
        → ensure_custom_certs_config_map client instance x ≡ (x', ok tt)
        → IsCertified instance.namespace certs.name x'
  unfolding ensure_custom_certs_config_map
  ensure_custom_certs_config_map_lem instance x x' of_config_map named h =
      elim (Bool-cases ((certs_of instance.controller_custom_certs).name == "")) [
        | inl e ↦ absurd (named ((eq_iff _ _).0 e))
        | inr e ↦
            install_certs-IsCertified instance (certs_of instance.controller_custom_certs).name x x'
              (rw ((eq_iff _ _).1 of_config_map, e, ensure_custom_certs_config_map) at h)
      ]
