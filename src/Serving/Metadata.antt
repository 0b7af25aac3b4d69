-- ===== src/Serving/Metadata.antt =====
-- serving/metadata-webhook/pkg/defaults: what the webhook writes into services, configurations, routes and
-- domain mappings, so that their traffic passes through to the mesh.
pub mod Laws
use serverless_operator.Common.{String, Dict, insert}

abbrev pub openshift_passthrough : String
openshift_passthrough = "serving.knative.openshift.io/enablePassthrough"

abbrev pub sidecar_inject : String
sidecar_inject = "sidecar.istio.io/inject"

abbrev pub sidecarrewrite_app_http_probers : String
sidecarrewrite_app_http_probers = "sidecar.istio.io/rewriteAppHTTPProbers"

abbrev pub proxy_istio_config : String
proxy_istio_config = "proxy.istio.io/config"

abbrev pub hold_application_until_proxy_starts : String
hold_application_until_proxy_starts = "{ \"holdApplicationUntilProxyStarts\": true }"

-- What the webhook reads of an object: its annotations, those of its template with the labels, and the
-- rest. A Route and a DomainMapping have no template.
pub record Target (K : Type 0) : Type 0 where
  pub annotations : Dict String
  pub template_annotations : Dict String
  pub template_labels : Dict String
  pub others : K

-- SetDefaults of a service
unfoldable pub default_kservice : {K : Type 0} → Target K → Target K
unfolding insert
default_kservice r = record r {
  annotations = insert openshift_passthrough "true" r.annotations;
  template_labels = insert sidecar_inject "true" r.template_labels;
  template_annotations =
      insert proxy_istio_config hold_application_until_proxy_starts
        (insert sidecarrewrite_app_http_probers "true" r.template_annotations);
}

-- SetDefaults of a configuration
unfoldable pub default_configuration : {K : Type 0} → Target K → Target K
unfolding insert
default_configuration r = record r {
  template_annotations = insert sidecarrewrite_app_http_probers "true" r.template_annotations;
  template_labels = insert sidecar_inject "true" r.template_labels;
}

-- SetDefaults of a Route and of a DomainMapping
unfoldable pub default_route : {K : Type 0} → Target K → Target K
unfolding insert
default_route r = record r { annotations = insert openshift_passthrough "true" r.annotations }
