-- ===== src/Controllers/Spec.antt =====
-- The objects that the controllers of KnativeServing and KnativeEventing read and write, and the
-- API server that keeps them: a state of any type behind the calls of client.Client.
use serverless_operator.Common.{String, ◌≡◌, ◌≢◌, ◌⊎◌, Bool, List, Dict, Answer, found}
use serverless_operator.Common.Run.{Run}

-- base.CustomCerts
pub record CustomCerts : Type 0 where
  pub name : String
  pub type : String

-- KnativeServing or KnativeEventing: the fields that the controllers use. S is the status.
pub record Instance (S : Type 0) : Type 0 where
  pub name : String
  pub namespace : String
  pub deleting : Bool
  pub finalizers : List String
  -- spec.controller-custom-certs; the zero value in a KnativeEventing
  pub controller_custom_certs : CustomCerts
  pub status : S

-- corev1.ConfigMap; R is the rest of it, its owners included. Semantic equality and the code do not
-- tell a nil map from an empty one, except in the data asked for.
pub record ConfigMap (R : Type 0) : Type 0 where
  pub name : String
  pub namespace : String
  pub annotations : Dict String
  pub labels : Dict String
  pub contents : Dict String
  pub resource_version : String
  pub others : R

-- appsv1.Deployment: the annotations of its pod template, and the rest.
pub record Deployment (R : Type 0) : Type 0 where
  pub name : String
  pub namespace : String
  pub template_annotations : Dict String
  pub others : R

-- Get, Create and Update of objects of one kind. Create and Update give the object that the server
-- returns.
pub record Objects (O X : Type 0) : Type 0 where
  pub get : String → String → X → Answer O
  pub create : O → Run X O
  pub update : O → Run X O

-- What a write without an error leaves: the object is there, and every other one is as it was.
pub record Stored {O X : Type 0} (objects : Objects O X) (namespace name : String) (o : O)
    (x x' : X) : Type 0 where
  pub there : objects.get namespace name x' ≡ found o
  pub others_kept :
      (ns n : String) → (ns ≢ namespace) ⊎ (n ≢ name) → objects.get ns n x' ≡ objects.get ns n x
