-- ===== src/Lib.antt =====
-- The operators of OpenShift Serverless: a model of the core logic of this repository's Go code and the
-- theorems that make it correct.
--
-- The program and its parts:
--
-- - The ingress controller (serving/ingress/pkg/reconciler/ingress) translates each Knative Ingress
--   to OpenShift Routes (resources/route.go, MakeRoutes) and reconciles the cluster with them
--   (ingress.go, ReconcileKind and FinalizeKind).
-- - The controller of KnativeKafka (knative-operator/pkg/controller/knativekafka) builds a manifest for
--   the enabled components, runs a list of stages on it, deletes the disabled components, and keeps a
--   finalizer for the clean-up.
-- - The transformers (openshift-knative-operator/pkg/common, knative-operator/pkg/common) change one
--   resource of a manifest; the controllers run them on all of its resources.
-- - The admission webhooks (knative-operator/pkg/webhook) refuse or complete the objects that users
--   write.
-- - The writers of configuration (the same two packages) set defaults in the spec of a component, which
--   the extensions of Serving and Eventing then pass on.
-- - The controllers of KnativeServing and KnativeEventing (knative-operator/pkg/controller/knativeserving
--   and knativeeventing) keep a finalizer, the ConfigMaps of certificates, and what they install in the
--   console of OpenShift; another controller, of the library, installs the components themselves.
-- - The extensions of Serving and Eventing (openshift-knative-operator/pkg/serving and pkg/eventing) fill
--   defaults into the spec of a component before the operator of the library installs it, clean up what
--   earlier versions left, and change the resources of the release. They share the monitoring of a
--   namespace (openshift-knative-operator/pkg/monitoring) and, for Eventing, the controller of Istio
--   (pkg/istio/eventingistio).
-- - The discovery of sources (knative-operator/pkg/monitoring/sources) sets up the monitoring of the
--   namespaces of source Deployments, with knative-operator/pkg/monitoring/monitoring.go.
-- - The metadata webhook (serving/metadata-webhook) writes the annotations of a service in a mesh, one of
--   which the ingress controller reads.
--
-- The files:
--
-- - Common: what the others share. Common/Maps models Go's maps of strings as association lists, where
--   a nil map and an empty one are both the empty list; Common/Text the functions of `strings` and
--   `strconv`; Common/Results an `error` result as a value; Common/Lists lists over native numbers;
--   Common/Sets lists of names as sets; Common/Calls errors, answers to reads and runs up to the first
--   error; Common/Run code that changes a state and may fail; Common/Options the same for panics.
-- - Ingress/Spec: the fields of an Ingress and of a Route, and the code outside the repository.
--   Ingress/Routes: route.go, one function per Go function and per block of makeRoute.
--   Ingress/Reconcile: ingress.go; the state is the cluster, of any type, behind the client and the
--   lister of Ingress/Api, whose laws are those of an API server and of an up-to-date cache. The other
--   files of Ingress hold proofs: Shape, Hosts, Security and Ownership on the Routes; Frame, Loops,
--   Existing, Converge, Steady and Finalize on the runs.
-- - Config: config.go, resources.go and Configure of util.go, with Config/Laws and Config/Memory.
-- - Kafka/Spec: the types and the status; Kafka/Manifest: buildManifest and AddRBACProxyToManifest;
--   Kafka/Apply: the stages that install and delete; Kafka/Stages: the other stages and executeStages;
--   Kafka/Controller: Reconcile. A stage is a function from a state (manifest, instance, cluster) to a
--   state and the error, if any; Kafka/Client is what the controller calls. Kafka/Configuring: the
--   transformers that configure the components. Kafka/Partition, Ordered,
--   Finalizers, Checks and Readiness hold proofs.
-- - Transform/Spec: resources and typed objects; Transform/Environment (deployment.go, min_version.go),
--   Security, Versions and Metadata (api.go, job.go, label.go, util.go), Certificates (certificates.go,
--   cabundle.go), Images (images.go of two packages, util.go), Checksum (deployment.go).
-- - Webhook: the admission webhooks (knative-operator/pkg/webhook), a validator as a list of stages.
--   Webhook/Allowed and Webhook/Laws hold proofs.
-- - Serving: secretinformerfiltering.go (openshift-knative-operator/pkg/serving), with Serving/Laws.
--   Serving/Defaults: the functions of ingress.go and poddisruptionbudget.go that fill in defaults, and the
--   writes of Reconcile, with Serving/Defaults/Budgets on the disruption budgets and
--   Serving/Defaults/Fields on the fields of the spec; Serving/Cleanup:
--   cleanupOldResources; Serving/Extension: Reconcile on the two, with the monitoring; each has its Laws.
--   Serving/Kourier: kourier.go, with Laws; Serving/Policies: the network
--   policies of Istio; Serving/Metadata: the metadata webhook, with Laws that lead to the Routes of Ingress.
-- - Eventing: extension.go (openshift-knative-operator/pkg/eventing), with Eventing/Laws.
-- - Monitoring: reconcileMonitoring of helpers.go (openshift-knative-operator/pkg/monitoring), with
--   Monitoring/Laws; Monitoring/RbacProxy: rbac_proxy_injection.go, where the map of the default requests
--   is part of the state, since it is written through; Monitoring/Services: the rest of helpers.go,
--   monitoring_serving.go and monitoring_eventing.go.
-- - Sources: source_deployment_discovery_controller.go; Sources/Monitors: source_service_monitor.go;
--   Sources/ClusterMonitoring: monitoring.go (knative-operator/pkg/monitoring), with Laws.
-- - Controllers/Spec: the objects, and the API server as Get, Create and Update of one kind; a step is a
--   Run of Common/Run, which gives the state that it leaves and a result or an error.
--   Controllers/ConfigMaps and Controllers/Certs: reconcileConfigMap and ensureCustomCertsConfigMap, each
--   with its Laws. Controllers/Finalizer: what the two controllers have in common, with Laws;
--   Controllers/Serving and Controllers/Eventing: the two. Controllers/Manifests: the dashboards and the
--   quick starts; Controllers/CliDownload: consoleclidownload.go.
-- - Istio: istio.go (pkg/istio/eventingistio), on the ConfigMapData of Config, with Istio/Laws and the
--   network policies in Istio/Policies.
--
-- All functions are total: every loop of this code runs over a list that it does not grow, so it is a
-- structural recursion, and there is no fuel. Where Go would panic the result is an option (Images,
-- Monitoring/RbacProxy) or an error (a nil selector in Sources/Monitors, nil data in Serving/Kourier).
-- The iteration over a Go map is the one over its entries in the order that the list gives.
--
-- Not modelled: the conversion between unstructured and typed objects, the condition sets of Knative,
-- the manifest library, semantic versions, hashes and file paths, which are parameters with their
-- documented behaviour as named hypotheses; logging, metrics and the set-up of watches; the text of
-- error messages where a name or a quoted value would be put in. The list of transformers that the
-- controller of KnativeKafka runs is one parameter of its stages, and the lists of transformers of the
-- extensions are left out, as are the resources for namespaced brokers
-- (knative-operator/pkg/monitoring/monitoring_kafka.go) and the flag that says whether the console is
-- installed. That an error is a permanent one is left out.
mod Common
pub mod Ingress
pub mod Config
pub mod Kafka
pub mod Monitoring
pub mod Transform
pub mod Serving
pub mod Eventing
pub mod Sources
pub mod Controllers
pub mod Webhook
pub mod Istio
