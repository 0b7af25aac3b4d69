-- ===== src/Serving/Policies.antt =====
-- generateDefaultIstioNetworkPoliciesIfRequired of ingress.go (openshift-knative-operator/pkg/serving): the
-- network policies of a KnativeServing with Istio.
mod Tests
use serverless_operator.Common.{
  String, Bool, true, false, not, Option, none, some, List, [], ◌∷◌, if◌then◌else◌, Dict, lookup,
  Result, ok, err, ◌>>=◌, ◌==◌, ◌||◌,
}
use serverless_operator.Serving.{parse_bool, or_false}

-- A policy: the labels that select its pods, its types, and for each rule the labels of the namespaces that
-- it lets in, none where it lets everything in.
pub record NetworkPolicy : Type 0 where
  pub name : String
  pub namespace : String
  pub labels : Dict String
  pub pod_selector : Dict String
  pub policy_types : List String
  pub ingress : List (Option (Dict String))

abbrev pub disable_generating_istio_net_policies_annotation : String
disable_generating_istio_net_policies_annotation =
    "serverless.openshift.io/disable-istio-net-policies-generation"

-- the policy that the loop makes for a name
unfoldable pub network_policy : String → String → NetworkPolicy
network_policy ns name =
    if name == "webhook" || name == "net-istio-webhook"
    then record {
      name = name;
      namespace = ns;
      labels = (provider, "istio") ∷ ("app", name) ∷ [];
      pod_selector = ("app", name) ∷ [];
      policy_types = [];
      ingress = none ∷ [];
    }
    else if name == "allow-from-openshift-monitoring-ns"
    then record {
      name = name;
      namespace = ns;
      labels = (provider, "istio") ∷ [];
      pod_selector = [];
      policy_types = "Ingress" ∷ [];
      ingress = some (("kubernetes.io/metadata.name", "openshift-monitoring") ∷ []) ∷ [];
    }
    else record {
      name = name;
      namespace = ns;
      labels = (provider, "istio") ∷ [];
      pod_selector = [];
      policy_types = [];
      ingress = [];
    }
  where
    provider : String
    provider = "networking.knative.dev/ingress-provider"

abbrev pub policy_names : List String
policy_names = "webhook" ∷ "net-istio-webhook" ∷ "allow-from-openshift-monitoring-ns" ∷ []

abbrev pub generation_disabled : Option String → Bool
unfolding parse_bool
generation_disabled none = false
generation_disabled (some v) = or_false (parse_bool v)

-- scheme.Scheme.Convert of a policy and mf.ManifestFrom of a slice are the two functions.
module _ {U : Type 0} (convert : NetworkPolicy → Result String U)
    (manifest_from : List U → Result String (List U)) where
  -- the loop over the names
  unfoldable pub convert_policies : String → List String → Result String (List U)
  unfolding network_policy
  convert_policies ns [] = ok []
  convert_policies ns (name ∷ names) = do
    u ← convert (network_policy ns name)
    us ← convert_policies ns names
    ok (u ∷ us)

  -- The resources of the manifests, none where there are no manifests. The ingress section is there, with its
  -- switch for Istio, since the extension has set its defaults.
  unfoldable pub generate_default_istio_network_policies_if_required :
      Bool → Dict String → String → Result String (Option (List U))
  unfolding convert_policies lookup parse_bool
  generate_default_istio_network_policies_if_required istio annotations ns =
      if not istio
      then ok none
      else if generation_disabled
          (lookup disable_generating_istio_net_policies_annotation annotations)
      then ok none
      else (do us ← convert_policies ns policy_names; m ← manifest_from us; ok (some m))
