-- ===== src/Workloads/Update.antt =====
-- updatePodStatus (pkg/maclet/workload_status.go). The API server is an oracle: what it answers may
-- depend on all requests made so far, which are kept newest first; so does the clock.
pub mod Retries
use maclet.Prelude.{
  ℕ, zero, suc, Bool, true, false, not, ◌||◌, ◌&&◌, Option, none, some, List, [], ◌∷◌, eqb, ltb,
  ◌==◌, text_eq_instance, if◌then◌else◌, Result, ok, err,
}
use maclet.Prelude.Exec.{Exec, pure, fail, ◌>>=◌, ◌>>◌}
use maclet.Prelude.Text.{Text, codes}
use maclet.Go.Numbers.{ℤ, pos}
use maclet.Workloads.Pods.{ContainerStatus, PodStatus, Pod}
use maclet.Workloads.Status.{Report, desired_pod_status}

pub data Request : Type 0 where
  put_status : Pod → PodStatus → Request
  get_pod : Text → Text → Request

-- A body that is a Pod or is none, an HTTPError with its code, and any other error
pub data Reply : Type 0 where
  found : Pod → Reply
  garbled unreachable : Reply
  status : ℕ → Reply

pub data UpdateError : Type 0 where
  not_decoded not_updated not_refreshed refresh_not_decoded limit_exceeded : UpdateError

abbrev pub Api : Type 0 → Type 0
Api A = Exec UpdateError (List Request) A

abbrev pub attempts : ℕ
attempts = 5

unfoldable pub first_restart_count : List ContainerStatus → ℤ
first_restart_count [] = pos zero
first_restart_count (c ∷ cs) = c.restart_count

-- The status for a refreshed Pod, from the one that met the conflict
unfoldable pub renewed : PodStatus → Pod → ℕ → PodStatus
unfolding desired_pod_status first_restart_count
renewed desired pod now =
    desired_pod_status pod desired.host_ip
      record {
        phase = desired.phase;
        ip = desired.pod_ip;
        reason = desired.reason;
        message = desired.message;
        running = desired.phase == codes "Running";
        restart_count = first_restart_count desired.container_statuses;
        termination = none;
      }
      now

module _ (api : List Request → Request → Reply) (clock : List Request → ℕ) where
  unfoldable pub send : Request → Api Reply
  send r h = (ok (api h r), r ∷ h)

  unfoldable pub refreshed : Reply → Api Pod
  refreshed (found p) = pure p
  refreshed garbled = fail refresh_not_decoded
  refreshed (status code) = fail not_refreshed
  refreshed unreachable = fail not_refreshed

  unfoldable pub is_conflict : Reply → Bool
  is_conflict (status code) = eqb code 409
  is_conflict (found p) = false
  is_conflict garbled = false
  is_conflict unreachable = false

  unfoldable pub settled : Reply → Api Pod
  settled (found p) = pure p
  settled garbled = fail not_decoded
  settled (status code) = fail not_updated
  settled unreachable = fail not_updated

  unfoldable pub read_fresh : Pod → Api Pod
  unfolding send refreshed
  read_fresh pod = send (get_pod pod.namespace pod.name) >>= refreshed

  -- The loop, with the number of attempts left; the last attempt is not followed by a refresh.
  unfoldable pub attempt_update : ℕ → Pod → PodStatus → Api Pod
  unfolding send read_fresh is_conflict settled renewed
  attempt_update zero pod desired = fail limit_exceeded
  attempt_update (suc n) pod desired =
      let again =
        read_fresh pod >>= λ fresh h. attempt_update n fresh (renewed desired fresh (clock h)) h in
      send (put_status pod desired) >>= λ reply.
      if is_conflict reply && ltb 0 n then again else settled reply

  unfoldable pub update_pod_status : Pod → PodStatus → Api Pod
  unfolding attempt_update
  update_pod_status pod desired = attempt_update attempts pod desired
