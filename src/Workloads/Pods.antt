-- ===== src/Workloads/Pods.antt =====
-- Pods and their status, as far as pkg/maclet/workload_status.go and workload_reconcile.go use them. An
-- empty text is a missing field, a time is a number of the time line.
use maclet.Prelude.{ℕ, Bool, Option, List}
use maclet.Prelude.Text.{Text}
use maclet.Go.Numbers.{ℤ}

pub record Condition : Type 0 where
  pub kind : Text
  pub status : Text
  pub stamp : ℕ
  pub reason : Text
  pub message : Text

pub record Terminated : Type 0 where
  pub exit_code : ℤ
  pub reason : Text
  pub message : Text
  pub started_at : Option ℕ
  pub finished_at : ℕ

pub data ContainerState : Type 0 where
  running_since : ℕ → ContainerState
  terminated : Terminated → ContainerState
  waiting : Text → Text → ContainerState

pub record ContainerStatus : Type 0 where
  pub name : Text
  pub image : Text
  pub ready : Bool
  pub restart_count : ℤ
  pub state : ContainerState

pub record PodStatus : Type 0 where
  pub phase : Text
  pub pod_ip : Text
  pub pod_ips : List Text
  pub host_ip : Text
  pub reason : Text
  pub message : Text
  pub conditions : List Condition
  pub container_statuses : List ContainerStatus

pub record Container : Type 0 where
  pub name : Text
  pub image : Text

pub record Pod : Type 0 where
  pub namespace : Text
  pub name : Text
  pub uid : Text
  pub resource_version : Text
  pub native : Bool
  pub node_name : Text
  pub deleted_at : Option ℕ
  pub host_network : Bool
  pub dns_policy : Text
  pub restart_policy : Text
  pub containers : List Container
  pub status : PodStatus

-- mackerInspection
pub record Inspection : Type 0 where
  pub exit_code : Option ℤ
  pub started_at : Option ℕ
  pub finished_at : Option ℕ
  pub termination_reason : Text
  pub termination_signal : Text
