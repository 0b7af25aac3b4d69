-- ===== src/Controllers/Manifests/Quickstart.antt =====
-- quickstart/quickstart.go
use serverless_operator.Common.{String, List, if◌then◌else◌, Result, ok, err, Error, wrap}
use serverless_operator.Common.Run.{Run, ◌>>=◌, lift, wrapping}
use serverless_operator.Transform.Spec.{Unstructured}
use serverless_operator.Controllers.Manifests.{Library}

module _ {C X : Type 0} (library : Library C X) where
  -- A kind that the cluster does not know is no error.
  abbrev pub unless_no_match : String → X × Result Error (Unit {0}) → X × Result Error (Unit {0})
  unless_no_match prefix (x, ok _) = (x, ok tt)
  unless_no_match prefix (x, err e) = (x, if e.no_match then ok tt else err (wrap prefix e))

  unfoldable pub load : Run X (List (Unstructured C))
  load =
      wrapping "failed to load quickstart manifest: "
        (lift (library.load (library.getenv "QUICKSTART_MANIFEST_PATH")))

  unfoldable pub apply : Run X (Unit {0})
  unfolding load
  apply = do
    resources ← load
    (λ x. unless_no_match "failed to apply quickstart manifest: " (library.apply resources x))

  unfoldable pub delete : Run X (Unit {0})
  unfolding load
  delete = do
    resources ← load
    (λ x. unless_no_match "failed to delete quickstart manifest: " (library.delete resources x))
