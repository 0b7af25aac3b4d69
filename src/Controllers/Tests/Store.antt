-- ===== src/Controllers/Tests/Store.antt =====
-- An API server that keeps its ConfigMaps and its Deployments in two lists, the last write first.
use serverless_operator.Common.{
  String, ◌≡◌, ◌≢◌, refl, sym, ap, subst, Bool, true, false, ◌&&◌, ◌==◌, eq_iff, eq_refl, List, [],
  ◌∷◌, if◌then◌else◌, Bool-cases, inl, inr, ◌⊎◌, Answer, found, not_found, Result, ok, Error, arith,
}
use serverless_operator.Controllers.Spec.{Instance, ConfigMap, Deployment, Objects, Stored}
use serverless_operator.Controllers.ConfigMaps.Content.{
  IsServer, IsReference, SameContent, found_inj,
}
use serverless_operator.Controllers.Certs.{CertsClient}
use serverless_operator.Controllers.Certs.Laws.{IsLawful}

abbrev missing : Error
missing = record { message = "not found"; no_match = false }

module _ {O : Type 0} (namespace_of name_of : O → String) where
  abbrev pub find : String → String → List O → Answer O
  find namespace name [] = not_found missing
  find namespace name (o ∷ os) =
      let later = find namespace name os in
      if namespace_of o == namespace && name_of o == name then found o else later

  find_named :
      (namespace name : String) (os : List O) (o : O)
      → find namespace name os ≡ found o
      → (namespace_of o ≡ namespace) × (name_of o ≡ name)
  find_named namespace name [] o h = cc h
  find_named namespace name (p ∷ os) o h = elim (Bool-cases (namespace_of p == namespace)) [
    | inr e ↦ find_named namespace name os o (rw e at h)
    | inl e ↦ elim (Bool-cases (name_of p == name)) [
      | inr f ↦ find_named namespace name os o (rw (e, f) at h)
      | inl f ↦
          let same : p ≡ o = found_inj (rw (e, f) at h) in
          rw (← same) ((eq_iff _ _).0 e, (eq_iff _ _).0 f)
    ]
  ]

  find_self : (o : O) (os : List O) → find (namespace_of o) (name_of o) (o ∷ os) ≡ found o
  find_self o os = rw (eq_refl (namespace_of o), eq_refl (name_of o)) refl

  find_other :
      (namespace name : String) (o : O) (os : List O)
      → (namespace ≢ namespace_of o) ⊎ (name ≢ name_of o)
      → find namespace name (o ∷ os) ≡ find namespace name os
  find_other namespace name o os (inl ne) = elim (Bool-cases (namespace_of o == namespace)) [
    | inl e ↦ absurd (ne (sym ((eq_iff _ _).0 e)))
    | inr e ↦ rw e refl
  ]
  find_other namespace name o os (inr ne) = elim (Bool-cases (name_of o == name)) [
    | inl e ↦ absurd (ne (sym ((eq_iff _ _).0 e)))
    | inr e ↦ ground (arith)
  ]

abbrev pub Cluster : Type 0
Cluster = List (ConfigMap Bool) × List (Deployment Bool)

abbrev pub get_config_map : String → String → Cluster → Answer (ConfigMap Bool)
get_config_map namespace name x = find (λ cm. cm.namespace) (λ cm. cm.name) namespace name x.0

abbrev pub get_deployment : String → String → Cluster → Answer (Deployment Bool)
get_deployment namespace name x = find (λ d. d.namespace) (λ d. d.name) namespace name x.1

abbrev pub config_maps : Objects (ConfigMap Bool) Cluster
config_maps = record {
  get = get_config_map;
  create = λ cm x. ((cm ∷ x.0, x.1), ok cm);
  update = λ cm x. ((cm ∷ x.0, x.1), ok cm);
}

abbrev pub deployments : Objects (Deployment Bool) Cluster
deployments = record {
  get = get_deployment;
  create = λ d x. ((x.0, d ∷ x.1), ok d);
  update = λ d x. ((x.0, d ∷ x.1), ok d);
}

-- The owner reference is the flag.
abbrev pub set_reference : Instance Bool → ConfigMap Bool → Result Error (ConfigMap Bool)
set_reference instance cm = ok (record cm { others = true })

written :
    (cm cm' : ConfigMap Bool) (x x' : Cluster)
    → ◌≡◌ {A = Cluster × Result Error (ConfigMap Bool)} ((cm ∷ x.0, x.1), ok cm) (x', ok cm')
    → Stored config_maps cm.namespace cm.name cm' x x' × SameContent cm cm'
written cm cm' x x' h =
    let same : cm ≡ cm' = ok_inj (ap (λ r. r.1) h) in
    subst
      (λ (r : Cluster × ConfigMap Bool).
        Stored config_maps cm.namespace cm.name r.1 x r.0 × SameContent cm r.1)
      (pair_eq (ap (λ r. r.0) h) same)
      (
        record {
          there = find_self (λ m. m.namespace) (λ m. m.name) cm x.0;
          others_kept = λ ns n ne. find_other (λ m. m.namespace) (λ m. m.name) ns n cm x.0 ne;
        },
        record {
          same_name = refl;
          same_namespace = refl;
          same_annotations = refl;
          same_labels = refl;
          same_contents = refl;
        },
      )
  where
    ok_inj : {a b : ConfigMap Bool} → ◌≡◌ {A = Result Error (ConfigMap Bool)} (ok a) (ok b) → a ≡ b
    ok_inj e = cc e

    pair_eq :
        {a b : Cluster} {c d : ConfigMap Bool}
        → a ≡ b
        → c ≡ d
        → ◌≡◌ {A = Cluster × ConfigMap Bool} (a, c) (b, d)
    pair_eq e f = cc

pub config_maps-IsServer : IsServer config_maps
config_maps-IsServer = record {
  got =
      λ namespace name x cm h. find_named (λ m. m.namespace) (λ m. m.name) namespace name x.0 cm h;
  created = written;
  updated = written;
}

pub set_reference-IsReference : IsReference set_reference
set_reference-IsReference instance cm cm' h =
    let same : record cm { others = true } ≡ cm' = cc h in
    subst (λ m. SameContent cm m) same
      (record {
        same_name = refl;
        same_namespace = refl;
        same_annotations = refl;
        same_labels = refl;
        same_contents = refl;
      })

abbrev pub certs_client : CertsClient Bool Bool Bool Cluster
certs_client = record {
  config_maps = config_maps;
  deployments = deployments;
  blank = false;
  set_controller_reference = set_reference;
}

deployment_written :
    (d d' : Deployment Bool) (x x' : Cluster)
    → deployments.update d x ≡ (x', ok d')
    → (get_deployment d.namespace d.name x' ≡ found d')
      × (d'.template_annotations ≡ d.template_annotations)
      × ((ns n : String) → get_config_map ns n x' ≡ get_config_map ns n x)
deployment_written d d' x x' h =
    let same : d ≡ d' = cc (ap (λ r. r.1) h) in
    let moved : ◌≡◌ {A = Cluster} (x.0, d ∷ x.1) x' = ap (λ r. r.0) h in
    rw (← moved)
      (rw (← same) (find_self (λ m. m.namespace) (λ m. m.name) d x.1, refl, λ ns n. refl))

pub certs_client-IsLawful : IsLawful certs_client
certs_client-IsLawful = record {
  config_maps = config_maps-IsServer;
  reference = set_reference-IsReference;
  got = λ namespace name x d h. find_named (λ m. m.namespace) (λ m. m.name) namespace name x.1 d h;
  updated = deployment_written;
}
