-- ===== src/Kube/Objects.antt =====
-- The Kubernetes objects, with the fields that the operator reads or writes.
use hermes_operator.Common.{ℕ, String, Bool, Option, List}

pub record Container : Type 0 where
  pub name : String
  pub image : String

-- `replicas` and the two counts below it are those of its status.
pub record StatefulSet : Type 0 where
  pub name : String
  pub namespace : String
  pub containers : List Container
  pub replicas : ℕ
  pub ready_replicas : ℕ
  pub updated_replicas : ℕ
  pub current_revision : String

pub record Terminated : Type 0 where
  pub exit_code : ℕ
  pub message : String

pub record InitContainerStatus : Type 0 where
  pub name : String
  pub terminated : Option Terminated

pub record Pod : Type 0 where
  pub init_container_statuses : List InitContainerStatus

pub data JobConditionType : Type 0 where
  complete failed suspended : JobConditionType

pub record JobCondition : Type 0 where
  pub type : JobConditionType
  pub is_true : Bool

pub record JobStatus : Type 0 where
  pub conditions : List JobCondition

-- An event of the cluster.
pub record Event : Type 0 where
  pub object_name : String
  pub object_kind : String
  pub reason : String
  pub last_timestamp : ℕ

pub data EventType : Type 0 where
  normal warning : EventType

-- An event that the operator records; its message is text for people and is left out.
pub record Emitted : Type 0 where
  pub type : EventType
  pub reason : String
