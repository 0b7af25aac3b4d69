-- ===== src/Controllers/CliDownload.antt =====
-- consoleclidownload.go: the Route to the binaries of kn, and their links in the console.
use serverless_operator.Common.{
  String, ◌==◌, Bool, true, false, ◌&&◌, List, [], ◌∷◌, if◌then◌else◌, Dict, same_map, Answer,
  found, not_found, failed, Result, ok, err, Error, wrap, ◌<>◌, has_prefix,
}
use serverless_operator.Common.Run.{Run, ◌>>=◌, ◌>>◌, done, fail, wrapping}
use serverless_operator.Controllers.Spec.{Instance, Objects}

-- routev1.RouteSpec; Q is the part that the code does not set.
pub record RouteSpec (Q : Type 0) : Type 0 where
  pub host : String
  pub to_kind : String
  pub to_name : String
  pub termination : String
  pub insecure_policy : String
  pub target_port : String
  pub others : Q

pub record CliRoute (Q : Type 0) : Type 0 where
  pub name : String
  pub namespace : String
  pub annotations : Dict String
  pub spec : RouteSpec Q

-- consolev1.ConsoleCLIDownloadSpec: the links with their texts
pub record DownloadSpec : Type 0 where
  pub display_name : String
  pub description : String
  pub links : List (String × String)

pub record Download : Type 0 where
  pub name : String
  pub annotations : Dict String
  pub spec : DownloadSpec

-- What the package calls.
pub record CliClient (Q X : Type 0) : Type 0 where
  pub routes : Objects (CliRoute Q) X
  pub downloads : Objects Download X
  -- Delete, with the answer of the server
  pub delete_route : CliRoute Q → X → X × Answer (Unit {0})
  pub delete_download : Download → X → X × Answer (Unit {0})
  -- equality.Semantic.DeepEqual of the specs of Routes
  pub same_route_spec : RouteSpec Q → RouteSpec Q → Bool
  pub blank : Q
  -- consoleutil.IsConsoleInstalled()
  pub console_installed : X → Bool
  -- the namespace of the operator, from the environment
  pub operator_namespace : String

abbrev pub kn_cli_download : String
kn_cli_download = "kn"

abbrev pub serving_owner_annotations : {S : Type 0} → Instance S → Dict String
serving_owner_annotations instance =
    ("serving.knative.openshift.io/ownerName", instance.name)
    ∷ ("serving.knative.openshift.io/ownerNamespace", instance.namespace)
    ∷ []

unfoldable pub https : String → String
unfolding has_prefix
https host =
    if host == "" then "" else if has_prefix host "https://" then host else "https://" <> host

unfoldable pub populate_kn_console_cli_download : {S : Type 0} → String → Instance S → Download
populate_kn_console_cli_download base_url instance = record {
  name = kn_cli_download;
  annotations = serving_owner_annotations instance;
  spec = record {
    display_name = "kn - OpenShift Serverless Command Line Interface (CLI)";
    description =
        "The OpenShift Serverless client `kn` is a CLI tool that allows you to fully manage OpenShift Serverless Serving, Eventing, and Function resources without writing a single line of YAML.";
    links =
        ("Download kn for Linux for x86_64", base_url <> "/kn-linux-amd64.tar.gz")
        ∷ ("Download kn for Linux for ARM 64", base_url <> "/kn-linux-arm64.tar.gz")
        ∷ (
          "Download kn for Linux for IBM Power little endian",
          base_url <> "/kn-linux-ppc64le.tar.gz",
        )
        ∷ ("Download kn for Linux for IBM Z", base_url <> "/kn-linux-s390x.tar.gz")
        ∷ ("Download kn for macOS for x86_64", base_url <> "/kn-macos-amd64.tar.gz")
        ∷ ("Download kn for macOS for ARM 64", base_url <> "/kn-macos-arm64.tar.gz")
        ∷ ("Download kn for Windows", base_url <> "/kn-windows-amd64.zip")
        ∷ [];
  };
}

abbrev pub same_links : List (String × String) → List (String × String) → Bool
same_links [] [] = true
same_links [] (l ∷ ls) = false
same_links (k ∷ ks) [] = false
same_links ((t, h) ∷ ks) ((t', h') ∷ ls) = t == t' && h == h' && same_links ks ls

abbrev pub same_download_spec : DownloadSpec → DownloadSpec → Bool
same_download_spec a b =
    a.display_name == b.display_name && a.description == b.description && same_links a.links b.links

-- err != nil && !apierrors.IsNotFound(err)
abbrev pub ignore_not_found :
    {X : Type 0} → String → X × Answer (Unit {0}) → X × Result Error (Unit {0})
ignore_not_found prefix (x, found _) = (x, ok tt)
ignore_not_found prefix (x, not_found e) = (x, ok tt)
ignore_not_found prefix (x, failed e) = (x, err (wrap prefix e))

module _ {Q X : Type 0} (client : CliClient Q X) where
  unfoldable pub on_download : Download → Answer Download → Run X (Unit {0})
  on_download wanted (not_found e) = client.downloads.create wanted >> done tt
  on_download wanted (failed e) = fail e
  on_download wanted (found old) =
      if same_map old.annotations wanted.annotations && same_download_spec old.spec wanted.spec
      then done tt
      else client.downloads.update (record old {
        annotations =
            if same_map old.annotations wanted.annotations
            then old.annotations
            else wanted.annotations;
        spec = if same_download_spec old.spec wanted.spec then old.spec else wanted.spec;
      })
        >> done tt

module _ {S Q X : Type 0} (client : CliClient Q X) where
  unfoldable pub make_cli_route : Instance S → CliRoute Q
  make_cli_route instance = record {
    name = kn_cli_download;
    namespace = client.operator_namespace;
    annotations = serving_owner_annotations instance;
    spec = record {
      host = "";
      to_kind = "Service";
      to_name = "knative-openshift-metrics-3";
      termination = "edge";
      insecure_policy = "Redirect";
      target_port = "http-cli";
      others = client.blank;
    };
  }

  unfoldable pub on_cli_route : Instance S → Answer (CliRoute Q) → Run X (CliRoute Q)
  unfolding make_cli_route
  on_cli_route instance (not_found e) =
      wrapping "failed to create route for ConsoleCLIDownload: "
        (client.routes.create (make_cli_route instance))
  on_cli_route instance (failed e) = fail (wrap "failed to fetch route for ConsoleCLIDownload: " e)
  on_cli_route instance (found route) =
      let wanted = (make_cli_route instance).spec in
      if client.same_route_spec route.spec wanted
      then done route
      else wrapping "failed to update route for ConsoleCLIDownload: "
          (client.routes.update (record route { spec = wanted }))

  unfoldable pub reconcile_kn_console_cli_download_route : Instance S → Run X (CliRoute Q)
  unfolding on_cli_route
  reconcile_kn_console_cli_download_route instance x =
      on_cli_route instance (client.routes.get client.operator_namespace kn_cli_download x) x

  unfoldable pub reconcile_kn_console_cli_download : Instance S → CliRoute Q → Run X (Unit {0})
  unfolding on_download populate_kn_console_cli_download https
  reconcile_kn_console_cli_download instance route x =
      on_download client (populate_kn_console_cli_download (https route.spec.host) instance)
        (client.downloads.get "" kn_cli_download x) x

  unfoldable pub apply : Instance S → Run X (Unit {0})
  unfolding reconcile_kn_console_cli_download_route reconcile_kn_console_cli_download
  apply instance = do
    route ← reconcile_kn_console_cli_download_route instance
    (λ x.
        if client.console_installed x
        then reconcile_kn_console_cli_download instance route x
        else (x, ok tt))

  unfoldable pub delete_download_object : Instance S → Run X (Unit {0})
  unfolding populate_kn_console_cli_download
  delete_download_object instance x =
      if client.console_installed x
      then ignore_not_found "failed to delete kn ConsoleCLIDownload CO: "
          (client.delete_download (populate_kn_console_cli_download "" instance) x)
      else (x, ok tt)

  unfoldable pub delete : Instance S → Run X (Unit {0})
  unfolding delete_download_object make_cli_route
  delete instance = delete_download_object instance >> (λ x.
      ignore_not_found "failed to delete kn ConsoleCLIDownload Service: "
        (client.delete_route (make_cli_route instance) x))
