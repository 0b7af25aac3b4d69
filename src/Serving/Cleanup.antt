-- ===== src/Serving/Cleanup.antt =====
-- cleanupOldResources of openshift-knative-operator/pkg/serving/extension.go: the objects of features
-- that are gone.
pub mod Laws
mod Tests
use serverless_operator.Common.{
  String, Bool, ◌||◌, List, [], ◌∷◌, ◌++◌, select, map, has_prefix, Answer, found, not_found,
  failed, Result, ok, err, Error, wrap, ◌<>◌,
}
use serverless_operator.Common.Run.{Run, ◌>>=◌, ◌>>◌, done}

pub data Resource : Type 0 where
  deployment : Resource
  service : Resource
  lease : Resource
  secret : Resource
  mutating_webhook : Resource
  validating_webhook : Resource

-- What is deleted, and what an error is wrapped in. The namespace of a webhook is empty.
pub record Target : Type 0 where
  pub resource : Resource
  pub namespace : String
  pub name : String
  pub error_prefix : String

-- The calls of the API server: Delete of an object, and List of the Leases, by their names.
pub record CleanupClient (X : Type 0) : Type 0 where
  pub delete : Resource → String → String → X → X × Answer (Unit {0})
  pub list_leases : String → X → Result Error (List String)

abbrev pub target : Resource → String → String → String → Target
target resource what namespace name = record {
  resource = resource;
  namespace = namespace;
  name = name;
  error_prefix = "failed to delete " <> what <> " " <> name <> ": ";
}

abbrev pub old_deployments : List String
old_deployments = "domain-mapping" ∷ "domainmapping-webhook" ∷ []

abbrev pub old_services : List String
old_services =
    "domainmapping-webhook" ∷ "domain-mapping-sm-service" ∷ "domainmapping-webhook-sm-service" ∷ []

-- the two loops before the Leases are listed
abbrev pub first_targets : String → List Target
first_targets ns =
    map (target deployment "deployment" ns) old_deployments
    ++ map (target service "service" ns) old_services

unfoldable pub old_lease : String → Bool
unfolding has_prefix
old_lease name =
    has_prefix name "domainmapping"
    || has_prefix name "net-certmanager"
    || has_prefix name "controller.knative.dev.networking.pkg.certificates.reconciler.reconciler"
    || has_prefix name
        "controller.knative.dev.control-protocol.pkg.certificates.reconciler.reconciler"

abbrev pub lease_targets : String → List String → List Target
lease_targets ns leases = map (target lease "lease" ns) (select old_lease leases)

-- the deletions after the Leases
abbrev pub last_targets : String → List Target
last_targets ns =
    target secret "secret" ns "domainmapping-webhook-certs"
    ∷ target mutating_webhook "mutating webhook configuration" ""
        "webhook.domainmapping.serving.knative.dev"
    ∷ target validating_webhook "validating webhook configuration" ""
        "validation.webhook.domainmapping.serving.knative.dev"
    ∷ record {
      resource = secret;
      namespace = ns;
      name = "control-serving-certs";
      error_prefix = "failed to delete old internal TLS secret: ";
    }
    ∷ []

-- if err != nil && !apierrors.IsNotFound(err) { return fmt.Errorf("...: %w", err) }
abbrev pub ignoring_not_found :
    {X : Type 0} → String → X × Answer (Unit {0}) → X × Result Error (Unit {0})
ignoring_not_found prefix (x, found _) = (x, ok tt)
ignoring_not_found prefix (x, not_found e) = (x, ok tt)
ignoring_not_found prefix (x, failed e) = (x, err (wrap prefix e))

module _ {X : Type 0} (client : CleanupClient X) where
  unfoldable pub remove : Target → Run X (Unit {0})
  remove t x = ignoring_not_found t.error_prefix (client.delete t.resource t.namespace t.name x)

  unfoldable pub remove_all : List Target → Run X (Unit {0})
  unfolding remove
  remove_all [] = done tt
  remove_all (t ∷ ts) = do remove t; remove_all ts

  abbrev pub list : String → Run X (List String)
  list ns x = (x, client.list_leases ns x)

  unfoldable pub cleanup_old_resources : String → Run X (Unit {0})
  unfolding remove_all old_lease
  cleanup_old_resources ns = do
    remove_all (first_targets ns)
    leases ← list ns
    remove_all (lease_targets ns leases)
    remove_all (last_targets ns)
