-- ===== src/Monitoring/Services/Laws.antt =====
-- How the monitor of a component, its Service and its proxy fit together.
use serverless_operator.Common.{
  String, ◌≡◌, refl, ap, Option, none, some, List, [], ◌∷◌, Dict, lookup, ◌<>◌, ℤ, pos, show_int64,
}
use text.Mathlib.TextLemmas.{append_assoc}
use serverless_operator.Monitoring.RbacProxy.{
  PodLibrary, secret_name, volume_name, rbac_proxy_container,
}
use serverless_operator.Monitoring.Services.{create_service_monitor, create_service_monitor_service}

abbrev pub first_arg : List String → Option String
first_arg [] = none
first_arg (s ∷ ss) = some s

-- The monitor of a component selects its Service, by namespace, labels, port and server name; the
-- Service leads to the port at which the proxy listens, and asks for its certificate in the Secret
-- that is mounted into the proxy.
pub create_service_monitor_lem :
    {Q K C : Type 0} (library : PodLibrary Q K C) (component ns : String) (requests limits : Dict Q)
    (level : ℤ)
    → let svc = create_service_monitor_service component ns in
      let sm = create_service_monitor component ns svc.name in
      let proxy = rbac_proxy_container library component requests limits level in
      (sm.match_names ≡ svc.namespace ∷ [])
      × (sm.match_labels ≡ svc.labels)
      × (sm.port ≡ svc.port_name)
      × (sm.server_name ≡ svc.name <> "." <> svc.namespace <> ".svc")
      × (first_arg proxy.args
          ≡ some ("--secure-listen-address=0.0.0.0:" <> show_int64 (pos svc.target_port)))
      × (lookup "service.beta.openshift.io/serving-cert-secret-name" svc.annotations
          ≡ some (secret_name component))
      × (proxy.volume_mounts ≡ (volume_name component, "/etc/tls/private") ∷ [])
unfolding create_service_monitor create_service_monitor_service lookup show_int64
    rbac_proxy_container
create_service_monitor_lem library component ns requests limits level =
    (refl, refl, refl, refl, refl, ap some (append_assoc component "-sm-service" "-tls"), refl)
