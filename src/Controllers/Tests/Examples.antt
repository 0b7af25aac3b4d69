-- ===== src/Controllers/Tests/Examples.antt =====
-- The theorems about the ConfigMaps, the certificates and the finalizer at a concrete API server.
use serverless_operator.Common.{
  String, ◌≡◌, refl, sym, ap, ◌&&◌, eq_iff, Bool, true, false, ◌||◌, ◌==◌, Option, none, Dict, List,
  [], ◌∷◌, Answer, found, not_found, failed, ok, not,
}
use mathlib.Core.Bool.{false≢true}
use serverless_operator.Common.Run.{Run, run_all}
use serverless_operator.Controllers.Spec.{Instance, ConfigMap, Deployment}
use serverless_operator.Controllers.ConfigMaps.{reconcile_config_map}
use serverless_operator.Controllers.ConfigMaps.Content.{IsReconciled}
use serverless_operator.Controllers.ConfigMaps.Laws.{
  reconcile_config_map_lem, reconcile_config_map_idem,
}
use serverless_operator.Controllers.Certs.{ensure_custom_certs_config_map}
use serverless_operator.Controllers.Certs.Laws.{IsCertified, ensure_custom_certs_config_map_lem}
use serverless_operator.Controllers.Finalizer.{
  InstanceClient, IsInstanceClient, has_finalizer, on_instance, ensure_finalizers, delete,
  without_finalizer,
}
use serverless_operator.Controllers.Finalizer.Laws.{
  delete_finalized_lem, run_all-finalizer, on_instance-IsKeeping, IsFinalized,
}
use serverless_operator.Controllers.Tests.Store.{
  find, Cluster, config_maps, get_config_map, set_reference, config_maps-IsServer,
  set_reference-IsReference, certs_client, certs_client-IsLawful,
}

abbrev instance : Instance Bool
instance = record {
  name = "knative-serving";
  namespace = "serving";
  deleting = false;
  finalizers = "other" ∷ "knative-serving-openshift" ∷ [];
  controller_custom_certs = record { name = ""; type = "" };
  status = true;
}

abbrev trusted : ConfigMap Bool
trusted = record {
  name = "config-service-ca-trusted-ca";
  namespace = "serving";
  annotations = [];
  labels = [];
  contents = ("ca-bundle.crt", "CERT") ∷ [];
  resource_version = "7";
  others = false;
}

abbrev controller : Deployment Bool
controller = record {
  name = "controller";
  namespace = "serving";
  template_annotations = ("serving.knative.openshift.io/mounted-cert-version", "7") ∷ [];
  others = true;
}

abbrev cluster : Cluster
cluster = (trusted ∷ [], controller ∷ [])

abbrev labelled : ConfigMap Bool
labelled = record trusted { labels = ("team", "a") ∷ [] }

abbrev labelled_cluster : Cluster
labelled_cluster = (labelled ∷ trusted ∷ [], controller ∷ [])

run :
    reconcile_config_map config_maps false set_reference instance "config-service-ca-trusted-ca" []
      (("team", "a") ∷ [])
      none
      cluster
    ≡ (labelled_cluster, ok labelled)
unfolding reconcile_config_map
run = refl

reconcile_config_map_lem_example :
    IsReconciled config_maps "serving" "config-service-ca-trusted-ca" []
      (("team", "a") ∷ [])
      none
      labelled
      cluster
      labelled_cluster
    × ((old : ConfigMap Bool)
        → get_config_map "serving" "config-service-ca-trusted-ca" cluster ≡ found old
        → ◌≡◌ {A = Option (Dict String)} none none
        → labelled.contents ≡ old.contents)
reconcile_config_map_lem_example =
    reconcile_config_map_lem config_maps false set_reference config_maps-IsServer
      set_reference-IsReference instance "config-service-ca-trusted-ca" [] (("team", "a") ∷ []) none
      labelled cluster labelled_cluster run

reconcile_config_map_idem_example :
    reconcile_config_map config_maps false set_reference instance "config-service-ca-trusted-ca" []
      (("team", "a") ∷ [])
      none
      labelled_cluster
    ≡ (labelled_cluster, ok labelled)
reconcile_config_map_idem_example =
    reconcile_config_map_idem config_maps false set_reference config_maps-IsServer
      set_reference-IsReference instance "config-service-ca-trusted-ca" [] (("team", "a") ∷ []) none
      labelled cluster labelled_cluster run

abbrev certified : Cluster
unfolding ensure_custom_certs_config_map
certified = (ensure_custom_certs_config_map certs_client instance cluster).0

certified_run : ensure_custom_certs_config_map certs_client instance cluster ≡ (certified, ok tt)
unfolding ensure_custom_certs_config_map
certified_run = refl

ensure_custom_certs_config_map_lem_example :
    IsCertified certs_client certs_client-IsLawful "serving" "config-service-ca" certified
ensure_custom_certs_config_map_lem_example =
    ensure_custom_certs_config_map_lem certs_client certs_client-IsLawful instance cluster certified
      refl (λ e. false≢true ((eq_iff "config-service-ca" "").1 e)) certified_run

-- The combined ConfigMap holds the certificate, and the controller has the version of the new one.
abbrev contents_of : Answer (ConfigMap Bool) → Dict String
contents_of (found cm) = cm.contents
contents_of (not_found e) = []
contents_of (failed e) = []

combined :
    contents_of (get_config_map "serving" "config-service-ca" certified)
    ≡ ("ca-bundle.crt", "CERT") ∷ []
unfolding ensure_custom_certs_config_map
combined = refl

-- Instances in a list, the last write first.
abbrev instances : InstanceClient Bool (List (Instance Bool))
instances = record {
  get = find (λ i. i.namespace) (λ i. i.name);
  update = λ i x. (i ∷ x, ok i);
  update_status = λ i x. (i ∷ x, ok i);
  same_status = λ s t. s && t || not s && not t;
  set_list = λ l. l;
}

instances-IsInstanceClient : IsInstanceClient instances
instances-IsInstanceClient = record {
  any_list = λ p l. refl;
  updated =
      λ i i' x x' h. ap (λ (j : Instance Bool). j.finalizers) (sym (updated_same i i' x x' h));
}
  where
    updated_same :
        (i i' : Instance Bool) (x x' : List (Instance Bool))
        → instances.update i x ≡ (x', ok i')
        → i ≡ i'
    updated_same i i' x x' h = cc (ap (λ r. r.1) h)

abbrev finalized : Instance Bool
finalized = record instance { finalizers = "other" ∷ [] }

-- A clean-up that deletes nothing.
abbrev cleanup : Instance Bool → Run (List (Instance Bool)) (Unit {0})
cleanup i x = (x, ok tt)

abbrev stored : List (Instance Bool)
stored = instance ∷ []

delete_run :
    delete instances "KnativeServing" "knative-serving-openshift" cleanup instance stored
    ≡ (finalized ∷ stored, ok tt)
unfolding delete
delete_run = refl

delete_finalized_lem_example :
    (y : List (Instance Bool)) × (refetched : Instance Bool) × (returned : Instance Bool) × (cleanup
        instance stored
      ≡ (y, ok tt))
    × (instances.get "serving" "knative-serving" y ≡ found refetched)
    × (instances.update
          (without_finalizer instances "KnativeServing" "knative-serving-openshift" refetched)
          y
        ≡ (finalized ∷ stored, ok returned))
    × (has_finalizer "knative-serving-openshift" returned ≡ false)
    × ((f : String)
        → (f == "knative-serving-openshift") ≡ false
        → has_finalizer f returned ≡ has_finalizer f refetched)
delete_finalized_lem_example =
    delete_finalized_lem instances "KnativeServing" "knative-serving-openshift"
      instances-IsInstanceClient cleanup instance stored (finalized ∷ stored) refl delete_run

abbrev installed : Instance Bool
installed = record instance { finalizers = "other" ∷ "knative-serving-openshift" ∷ [] }

stages_run :
    run_all
      (ensure_finalizers instances "KnativeServing" "knative-serving-openshift"
        ∷ on_instance cleanup
        ∷ [])
      (finalized, stored)
    ≡ ((installed, installed ∷ stored), ok tt)
unfolding run_all ensure_finalizers
stages_run = refl

run_all-finalizer_example :
    (j : Instance Bool) × (y : List (Instance Bool)) × IsFinalized instances
      "knative-serving-openshift" finalized stored j y
    × (run_all (on_instance cleanup ∷ []) (j, y) ≡ ((installed, installed ∷ stored), ok tt))
    × ((f : String)
        → has_finalizer f installed
          ≡ (has_finalizer f finalized || "knative-serving-openshift" == f))
run_all-finalizer_example =
    run_all-finalizer instances "KnativeServing" "knative-serving-openshift"
      instances-IsInstanceClient (on_instance cleanup ∷ []) finalized installed stored
      (installed ∷ stored) (on_instance-IsKeeping cleanup, tt) stages_run
