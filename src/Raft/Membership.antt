-- ===== src/Raft/Membership.antt =====
-- `AddServer` of navi/membership.go, up to its wait for the result.
pub mod Joining
use navi_kv.Prelude.{ℕ, ◌+◌}
use navi_kv.Prelude.{true, not, List, [], ◌∷◌, ◌++◌}
use navi_kv.Prelude.{◌==◌, if◌then◌else◌}
use navi_kv.Prelude.{Outcome, ok, ◌>>=◌}
use navi_kv.Bytes.{Bytes}
use navi_kv.Raft.State.{ClusterMember, Server, get_voted_for, is_leader}
use navi_kv.Raft.Config.{
  Encoded, EncodeError, payload, encode_error, encode_config_change, new_member,
}
use navi_kv.Raft.Cluster.{has_id, merge_cluster_config, resolve_cluster_index}
use navi_kv.Raft.Persistence.{persist}
use navi_kv.Raft.Replication.{append_locked}

pub data AddServerError : Type 0 where
  invalid_server_id apply_to_leader config_change_in_progress : AddServerError
  encoding : EncodeError → AddServerError

-- `added` is the early return with no error; `waits` names the channel of the result.
pub data AddServerResult : Type 0 where
  rejected : AddServerError → AddServerResult
  added : AddServerResult
  waits : ℕ → AddServerResult

-- The part behind the encoding.
unfoldable pub propose_members :
    List ClusterMember → Bytes → Server → Outcome (AddServerResult × Server)
unfolding append_locked merge_cluster_config resolve_cluster_index
propose_members members command s = do
  let ((chan, index), s₁) = append_locked command s
  vote ← get_voted_for s₁
  let cluster = merge_cluster_config s₁.cluster members (index + 1) s₁.id vote
  position ← resolve_cluster_index cluster s₁.id
  s₂ ← persist true 1 (record s₁ {
    cluster = cluster;
    cluster_index = position;
    pending_config_change_index = index;
  })
  ok (waits chan, s₂)

abbrev propose_encoded : Encoded → List ClusterMember → Server → Outcome (AddServerResult × Server)
propose_encoded (encode_error e) members s = ok (rejected (encoding e), s)
propose_encoded (payload p) members s = propose_members members p s

unfoldable pub add_server : ℕ → Bytes → Server → Outcome (AddServerResult × Server)
unfolding propose_members has_id encode_config_change
add_server i a s =
    let members = s.cluster ++ new_member i a ∷ [] in
    if i == 0
    then ok (rejected invalid_server_id, s)
    else if not (is_leader s.state)
    then ok (rejected apply_to_leader, s)
    else if not (s.pending_config_change_index == 0)
    then ok (rejected config_change_in_progress, s)
    else if has_id i s.cluster
    then ok (added, s)
    else propose_encoded (encode_config_change members) members s
