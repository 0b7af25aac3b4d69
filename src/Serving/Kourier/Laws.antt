-- ===== src/Serving/Kourier/Laws.antt =====
-- A resource of Kourier after its move, and its way back to the KnativeServing.
use serverless_operator.Common.{
  String, ◌≡◌, refl, ◌∙◌, true, false, ◌==◌, some, Dict, lookup, lookup_or, insert, lookup-insert,
  ok, if◌then◌else◌,
}
use serverless_operator.Transform.Spec.{Unstructured, Transformer}
use serverless_operator.Serving.Kourier.{
  KourierLibrary, serving_owner_namespace, serving_owner_name, provider_label, kourier_namespace,
  override_kourier_namespace,
}

-- What the documentation of mf.InjectNamespace promises of a resource that is not a Namespace.
abbrev pub IsNamespaceInjector : {C : Type 0} → (String → Transformer C) → Type 0
IsNamespaceInjector {C} inject =
    (ns : String) (u u' : Unstructured C)
    → inject ns u ≡ ok u'
    → (u'.labels ≡ u.labels) × (u'.name ≡ u.name) × (u'.content ≡ u.content)

lookup-owners :
    (ns name key : String) (labels : Dict String)
    → lookup key (insert serving_owner_name name (insert serving_owner_namespace ns labels)) ≡ (
        if serving_owner_name == key
        then some name
        else if serving_owner_namespace == key
        then some ns
        else lookup key labels)
lookup-owners ns name key labels = rw (lookup-insert, lookup-insert) refl

-- A resource of Kourier that was moved keeps its name and its other labels, has no owner reference, and
-- is labelled with the namespace and the name of the KnativeServing, by which an event on it leads back to
-- that one. The injector of namespaces is lawful.
pub override_kourier_namespace_lem :
    {P C : Type 0} (library : KourierLibrary P C)
    → IsNamespaceInjector library.inject_namespace
    → (ns name : String) (u u' : Unstructured C)
    → (lookup_or "" provider_label u.labels == "kourier") ≡ true
    → override_kourier_namespace library ns name u ≡ ok u'
    → (lookup serving_owner_namespace u'.labels ≡ some ns)
      × (lookup serving_owner_name u'.labels ≡ some name)
      × ((key : String)
          → (serving_owner_name == key) ≡ false
          → (serving_owner_namespace == key) ≡ false
          → lookup key u'.labels ≡ lookup key u.labels)
      × (u'.name ≡ u.name)
      × (u'.content ≡ library.clear_owner_references u.content)
unfolding override_kourier_namespace
override_kourier_namespace_lem library law ns name u u' is h =
    let (labels, named, contents) = law (kourier_namespace ns) _ u' (rw is at h) in
    (
      rw labels (lookup-owners ns name serving_owner_namespace u.labels),
      rw labels (lookup-owners ns name serving_owner_name u.labels),
      λ key other other'. rw labels (lookup-owners ns name key u.labels ∙ rw (other, other') refl),
      named,
      contents,
    )
