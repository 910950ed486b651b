-- ===== src/NodeUpdates.antt =====
-- The updates of the own Node object (pkg/maclet/node.go): the shutdown cordon, the status with its
-- fallback, the Lease and the wait for a PodCIDR. The API server is an oracle: what it answers may
-- depend on all requests made so far, which are kept newest first; so does the clock.
pub mod Status
pub mod Lease
pub mod Bounds
pub mod Cordon
use maclet.Prelude.{
  ℕ, zero, suc, Bool, true, false, not, ◌||◌, ◌&&◌, Option, none, some, List, [], ◌∷◌, String, eqb,
  ltb, ◌==◌, string_instance, text_eq_instance, if◌then◌else◌, Result, ok, err,
}
use maclet.Prelude.Exec.{Exec, pure, fail}
use maclet.Prelude.Exec.Bind.{◌>>=◌, ◌>>◌}
use maclet.Prelude.Text.{Text, codes, to_lower, contains_text}
use maclet.Ownership.Node.{Node, get}

pub record ClusterNode : Type 0 where
  pub object : Node
  pub unschedulable : Bool
  pub pod_cidr : Text
  pub pod_cidrs : List Text

pub record Address : Type 0 where
  pub kind : Text
  pub address : Text

-- The message is left out.
pub record StatusCondition : Type 0 where
  pub kind : Text
  pub status : Text
  pub heartbeat : ℕ
  pub transition : ℕ
  pub reason : Text

-- Amounts: processors in thousandths, memory in bytes and none where it is unknown
pub record Resources : Type 0 where
  pub cpu : ℕ
  pub pods : ℕ
  pub memory : Option ℕ

-- The constant parts, the names of the system and the versions, are left out.
pub record NodeStatus : Type 0 where
  pub addresses : List Address
  pub capacity : Resources
  pub allocatable : Resources
  pub conditions : List StatusCondition
  pub kubelet_port : ℕ
  pub kernel_version : Text
  pub os_image : Text

-- The part of a Lease that the program writes, and the time at which it was acquired
pub record LeaseSpec : Type 0 where
  pub holder : String
  pub duration : ℕ
  pub acquired_at : Option ℕ
  pub renewed_at : ℕ

-- A patch of the status carries the resource version, a full update the whole Node.
pub data Request : Type 0 where
  patch_cordon : String → Bool → Request
  get_node get_lease : String → Request
  patch_status : String → String → NodeStatus → Request
  put_status : ClusterNode → NodeStatus → Request
  create_lease renew_lease : LeaseSpec → Request

-- A body that decodes to a Node or a Lease or does not decode, an HTTPError with its code and body, and
-- any other error
pub data Reply : Type 0 where
  node_body : ClusterNode → Reply
  lease_body : Option ℕ → Reply
  garbled unreachable : Reply
  status : ℕ → Text → Reply

pub data UpdateError : Type 0 where
  not_decoded not_updated not_refreshed limit_exceeded no_lease : UpdateError

abbrev pub Api : Type 0 → Type 0
Api A = Exec UpdateError (List Request) A

abbrev pub attempts : ℕ
attempts = 5

unfoldable pub is_marked : ClusterNode → Bool
unfolding get
is_marked n = get n.object.annotations "k8s-darwin.dev/maclet-shutdown-cordon" == "true"

-- Nothing is left to do for the cordon.
unfoldable pub is_settled : Bool → ClusterNode → Bool
unfolding is_marked
is_settled cordon n = if cordon then n.unschedulable && is_marked n else not (is_marked n)

unfoldable pub is_conflict : Reply → Bool
is_conflict (status code body) = eqb code 409
is_conflict (node_body n) = false
is_conflict (lease_body t) = false
is_conflict garbled = false
is_conflict unreachable = false

-- What a reply to a request for a Node decodes to
unfoldable pub as_node : UpdateError → Reply → Result UpdateError ClusterNode
as_node e (node_body n) = ok n
as_node e (lease_body t) = err not_decoded
as_node e garbled = err not_decoded
as_node e unreachable = err e
as_node e (status code body) = err e

module _ (api : List Request → Request → Reply) where
  unfoldable pub send : Request → Api Reply
  send r h = (ok (api h r), r ∷ h)

  unfoldable pub settle : UpdateError → Reply → Api ClusterNode
  unfolding as_node
  settle e reply h = (as_node e reply, h)

  -- refreshNode
  unfoldable pub refresh_node : String → Api ClusterNode
  unfolding send settle
  refresh_node name = send (get_node name) >>= settle not_refreshed

  unfoldable pub if_unsettled :
      Bool → (ClusterNode → Api ClusterNode) → ClusterNode → Api ClusterNode
  unfolding is_settled
  if_unsettled cordon again n = if is_settled cordon n then pure n else again n

  -- The loop of setNodeShutdownCordon, with the number of attempts left
  unfoldable pub attempt_cordon : ℕ → String → Bool → Api ClusterNode
  unfolding send is_conflict settle refresh_node if_unsettled
  attempt_cordon zero name cordon = fail limit_exceeded
  attempt_cordon (suc n) name cordon =
      let again =
        refresh_node name >>= if_unsettled cordon (λ fresh. attempt_cordon n name cordon) in
      send (patch_cordon name cordon) >>= λ reply.
      if is_conflict reply && ltb 0 n then again else settle not_updated reply

  unfoldable pub set_node_shutdown_cordon : ClusterNode → Bool → Api ClusterNode
  unfolding if_unsettled attempt_cordon
  set_node_shutdown_cordon node cordon =
      if_unsettled cordon (λ n. attempt_cordon attempts n.object.name cordon) node

  -- waitForPodCIDR, with the number of looks, a second apart, that fit before the deadline
  unfoldable pub has_cidr : ClusterNode → Bool
  has_cidr n = not (n.pod_cidr == []) || (elim n.pod_cidrs [ [] ↦ false | c ∷ cs ↦ true ])

  unfoldable pub wait_for_pod_cidr : ℕ → ClusterNode → Api ClusterNode
  unfolding has_cidr send settle
  wait_for_pod_cidr zero node = pure node
  wait_for_pod_cidr (suc seconds) node =
      let next = send (get_node node.object.name) >>= settle not_refreshed >>= λ fresh.
      wait_for_pod_cidr seconds fresh in
      if has_cidr node then pure node else next
