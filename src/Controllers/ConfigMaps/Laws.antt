-- ===== src/Controllers/ConfigMaps/Laws.antt =====
-- What reconcileConfigMap leaves in the cluster.
use serverless_operator.Common.{
  String, ◌≡◌, refl, sym, ap, ◌∙◌, subst, Option, none, Dict, inl, inr, Bool-cases, Answer-cases,
  SameMap-refl, Error, found, Result, ok,
}
use serverless_operator.Common.Run.{wrap_error, after-eq-ok, wrap_error-eq-ok}
use serverless_operator.Controllers.Spec.{Instance, ConfigMap, Objects}
use serverless_operator.Controllers.ConfigMaps.{
  replaced_contents, new_config_map, create_config_map, changed_config_map, config_map_differs,
  update_config_map, on_config_map, reconcile_config_map,
}
use serverless_operator.Controllers.ConfigMaps.Content.{
  contents_or_nil-HasContents, IsDesired-SameContent, changed_config_map-IsDesired,
  differs-eq-false, eq-false-differs, Stored-at, done_inj, IsServer, IsReference, IsReconciled,
  found_inj,
}

module _ {S R X : Type 0} (objects : Objects (ConfigMap R) X) (blank : R)
    (set_controller_reference : Instance S → ConfigMap R → Result Error (ConfigMap R))
    (server : IsServer objects) (reference : IsReference set_controller_reference)
    (instance : Instance S) (name : String) (annotations labels : Dict String)
    (contents : Option (Dict String)) where
  create_config_map-IsReconciled :
      (cm : ConfigMap R) (x x' : X)
      → create_config_map objects blank set_controller_reference instance
          (new_config_map blank instance name annotations labels contents)
          x
        ≡ (x', ok cm)
      → IsReconciled objects instance.namespace name annotations labels contents cm x x'
  unfolding create_config_map
  create_config_map-IsReconciled cm x x' h =
      let wanted = new_config_map blank instance name annotations labels contents in
      let (y, owned, referred, created) =
        after-eq-ok (wrap_error _ (x, set_controller_reference instance wanted)) _ h in
      let set = reference instance wanted owned (ap (λ r. r.1) (wrap_error-eq-ok _ _ referred)) in
      let (stored, same) = server.created owned cm y x' (wrap_error-eq-ok _ _ created) in
      (
        Stored-at objects cm x' set.same_namespace set.same_name
            (sym (ap (λ r. r.0) (wrap_error-eq-ok _ _ referred))) stored,
        IsDesired-SameContent annotations labels contents owned cm same (
            IsDesired-SameContent annotations labels contents wanted owned set (
              SameMap-refl labels,
              SameMap-refl annotations,
              contents_or_nil-HasContents contents,
            )),
      )

  update_config_map-IsReconciled :
      (old cm : ConfigMap R) (x x' : X)
      → objects.get instance.namespace name x ≡ found old
      → update_config_map objects blank set_controller_reference name annotations labels contents
          old x
        ≡ (x', ok cm)
      → IsReconciled objects instance.namespace name annotations labels contents cm x x'
        × (contents ≡ none → cm.contents ≡ old.contents)
  unfolding update_config_map
  update_config_map-IsReconciled old cm x x' there h =
      let (its_namespace, its_name) = server.got instance.namespace name x old there in
      elim (Bool-cases (config_map_differs annotations labels contents old)) [
        | inl e ↦
            let (stored, same) =
              server.updated (changed_config_map annotations labels contents old) cm x x'
                (wrap_error-eq-ok _ _ (rw e at h)) in
            (
              (
                Stored-at objects cm x' its_namespace its_name refl stored,
                IsDesired-SameContent annotations labels contents
                    (changed_config_map annotations labels contents old) cm same
                    (changed_config_map-IsDesired annotations labels contents old),
              ),
              λ nil. same.same_contents ∙ ap (λ c. replaced_contents c old.contents) nil,
            )
        | inr e ↦
            let same : ◌≡◌ {A = X × ConfigMap R} (x, old) (x', cm) = done_inj (rw e at h) in
            subst
              (λ r.
                IsReconciled objects instance.namespace name annotations labels contents r.1 x r.0
                × (contents ≡ none → r.1.contents ≡ old.contents))
              same
              (
                (
                  record { there = there; others_kept = λ ns n other. refl },
                  differs-eq-false annotations labels contents old e,
                ),
                λ nil. refl,
              )
      ]

  -- After a run of reconcileConfigMap without an error, with a lawful client, the cluster holds under
  -- the name the ConfigMap that it returns, and every other ConfigMap as before; it has the labels
  -- and the annotations asked for and the data, where data are asked for. Where none are, a
  -- ConfigMap that was there keeps its data.
  pub reconcile_config_map_lem :
      (cm : ConfigMap R) (x x' : X)
      → reconcile_config_map objects blank set_controller_reference instance name annotations labels
          contents x
        ≡ (x', ok cm)
      → IsReconciled objects instance.namespace name annotations labels contents cm x x'
        × ((old : ConfigMap R)
            → objects.get instance.namespace name x ≡ found old
            → contents ≡ none
            → cm.contents ≡ old.contents)
  unfolding reconcile_config_map on_config_map
  reconcile_config_map_lem cm x x' h = elim (Answer-cases (objects.get instance.namespace name x)) [
    | inl (old, e) ↦
        let (done, kept) =
          update_config_map-IsReconciled old cm x x' e
            (rw (e, reconcile_config_map, on_config_map) at h) in
        (
          done,
          λ other there nil.
              kept nil ∙ ap (λ (c : ConfigMap R). c.contents) (found_inj (sym e ∙ there)),
        )
    | inr (inl (f, e)) ↦ (
      create_config_map-IsReconciled cm x x' (rw (e, reconcile_config_map, on_config_map) at h),
      λ other there nil. cc (sym e ∙ there),
    )
    | inr (inr (f, e)) ↦ cc (rw (e, reconcile_config_map, on_config_map) at h)
  ]

  -- A second run after one without an error makes no call but the Get and returns the same
  -- ConfigMap.
  pub reconcile_config_map_idem :
      (cm : ConfigMap R) (x x' : X)
      → reconcile_config_map objects blank set_controller_reference instance name annotations labels
          contents x
        ≡ (x', ok cm)
      → reconcile_config_map objects blank set_controller_reference instance name annotations labels
          contents x'
        ≡ (x', ok cm)
  unfolding reconcile_config_map on_config_map update_config_map
  reconcile_config_map_idem cm x x' h =
      let ((stored, desired), _) = reconcile_config_map_lem cm x x' h in
      rw stored.there (rw (eq-false-differs annotations labels contents cm desired) refl)
