-- ===== src/Webhook/Laws.antt =====
-- What the webhooks allow.
use serverless_operator.Common.{
  String, ◌≡◌, refl, ◌∙◌, sym, subst, inl, inr, Bool, true, false, ◌&&◌, ◌||◌, not, Option, none,
  some, [], ◌∷◌, if◌then◌else◌, Bool-cases,
}
use serverless_operator.Kafka.Spec.{KnativeKafka}
use serverless_operator.Webhook.{
  zero_verdict, run_stages, validate_namespace, validate_loneliness, World, kafka_namespace,
  kafka_loneliness, kafka_shape, kafka_dependencies, validate_kafka, Instance, validate_serving,
  validate_eventing_instance, IngressConfigs, default_to_kourier,
}
use serverless_operator.Webhook.Allowed.{
  run_stages-allowed_cons, in_namespace, lonely, well_shaped, installed, validate_namespace-allowed,
  validate_loneliness-allowed, validate_channel-allowed, validate_eventing-allowed,
}

module _ (world : World) {S : Type 0} where
  kafka_dependencies-allowed :
      (ke : KnativeKafka S)
      → (kafka_dependencies world ke).allowed
        ≡ (ke.deleting || installed (world.eventings ke.namespace))
  unfolding kafka_dependencies
  kafka_dependencies-allowed ke = elim (Bool-cases ke.deleting) [
    | inl e ↦ simp e refl
    | inr e ↦ simp e (validate_eventing-allowed (world.eventings ke.namespace))
  ]

  -- A KnativeKafka is allowed exactly where it is in the required namespace, if there is one; where
  -- the instances of its namespace can be listed and all have its name; where an enabled channel has
  -- bootstrap servers, and the channel has both the name and the namespace of a secret or neither;
  -- and where it is being deleted or a KnativeEventing is found in its namespace.
  pub validate_kafka-allowed :
      (ke : KnativeKafka S)
      → (validate_kafka world ke).allowed ≡ (
          in_namespace world.required_namespace ke.namespace
          && (lonely (world.instances ke.namespace) ke.name
              && (well_shaped ke.spec.channel
                  && ((ke.deleting || installed (world.eventings ke.namespace)) && true))))
  unfolding validate_kafka
  validate_kafka-allowed ke =
      run_stages-allowed_cons (kafka_namespace world)
        (kafka_loneliness world ∷ kafka_shape world ∷ kafka_dependencies world ∷ []) ke zero_verdict
      ∙ rw
          (
            validate_namespace-allowed, validate_loneliness-allowed, validate_channel-allowed,
            kafka_dependencies-allowed,
          )
          refl

module _ (world : World) where
  two_stages :
      (kind : String) (k : Instance)
      → (run_stages
          ((λ (i : Instance). validate_namespace kind world.required_namespace i.namespace)
            ∷ (λ (i : Instance). validate_loneliness kind (world.instances i.namespace) i.name)
            ∷ [])
          k
          zero_verdict).allowed
        ≡ (in_namespace world.required_namespace k.namespace
            && (lonely (world.instances k.namespace) k.name && true))
  two_stages kind k =
      run_stages-allowed_cons
        (λ (i : Instance). validate_namespace kind world.required_namespace i.namespace)
        ((λ (i : Instance). validate_loneliness kind (world.instances i.namespace) i.name) ∷ []) k
        zero_verdict
      ∙ rw (validate_namespace-allowed, validate_loneliness-allowed) refl

  -- With the same required namespace and the same lists, the validators of KnativeServing and of
  -- KnativeEventing allow the same objects: those in the required namespace, if there is one, where
  -- the instances of their namespace can be listed and all have their name.
  pub validate_serving-allowed :
      (k : Instance)
      → ((validate_serving world k).allowed ≡ (
          in_namespace world.required_namespace k.namespace
          && (lonely (world.instances k.namespace) k.name && true)))
        × ((validate_eventing_instance world k).allowed ≡ (validate_serving world k).allowed)
  unfolding validate_serving validate_eventing_instance
  validate_serving-allowed k = (
    two_stages "KnativeServing" k,
    two_stages "KnativeEventing" k ∙ sym (two_stages "KnativeServing" k),
  )

abbrev pub any_enabled : IngressConfigs → Bool
any_enabled i = i.istio || i.kourier || i.contour

or_true : (a c : Bool) → (a || true || c) ≡ true
or_true true c = refl
or_true false c = refl

none_of_three :
    {A : Type 0} (a b c : Bool) (x y : A)
    → (if not a && not b && not c then x else y) ≡ (if a || b || c then y else x)
none_of_three true b c x y = refl
none_of_three false true c x y = refl
none_of_three false false true x y = refl
none_of_three false false false x y = refl

default_some :
    (i : IngressConfigs)
    → default_to_kourier (some i)
      ≡ (if any_enabled i then some i else some (record i { kourier = true }))
unfolding default_to_kourier
default_some i = none_of_three i.istio i.kourier i.contour _ _

some-eq : (a b : IngressConfigs) → some a ≡ some b → a ≡ b
some-eq a b h = cc h

-- After the defaults an ingress section has an enabled ingress; one that had an enabled ingress is as
-- it was, and a section that is not there is not made.
pub default_to_kourier_lem :
    (o : Option IngressConfigs) (i : IngressConfigs)
    → default_to_kourier o ≡ some i
    → (any_enabled i ≡ true)
      × ((before : IngressConfigs) × (o ≡ some before) × (any_enabled before ≡ true → i ≡ before))
unfolding default_to_kourier
default_to_kourier_lem none i h = cc h
default_to_kourier_lem (some before) i h =
    let run = sym (default_some before) ∙ h in
    elim (Bool-cases (any_enabled before)) [
      | inl e ↦
          let same : before ≡ i = some-eq before i (rw e at run) in
          (subst (λ j. any_enabled j ≡ true) same e, (before, refl, λ _. sym same))
      | inr e ↦
          let same : record before { kourier = true } ≡ i =
            some-eq (record before { kourier = true }) i (rw e at run) in
          (
            subst (λ j. any_enabled j ≡ true) same (or_true before.istio before.contour),
            (before, refl, λ was. cc (e, was)),
          )
    ]
