-- ===== src/Kube/Meta.antt =====
-- Object metadata and label selectors.
use nacos_k8s.Base.{String, Option, none, List, []}
use nacos_k8s.Go.Maps.{Map}

-- an API value that the operator does not look into, in some serialised form
abbrev pub Blob : Type 0
Blob = String

pub record ObjectMeta : Type 0 where
  pub name : String
  pub namespace : String
  pub labels : Map String
  pub annotations : Map String
  pub resource_version : String
  -- what `controllerutil.SetControllerReference` writes
  pub owner : Option Blob

abbrev pub new_meta : String → String → ObjectMeta
new_meta name namespace = record {
  name = name;
  namespace = namespace;
  labels = [];
  annotations = [];
  resource_version = "";
  owner = none;
}

pub record LabelSelectorRequirement : Type 0 where
  pub key : String
  pub operator : String
  pub values : Option (List String)

pub record LabelSelector : Type 0 where
  pub match_labels : Map String
  pub match_expressions : List LabelSelectorRequirement
