-- ===== src/Raft/Cluster.antt =====
-- navi/membership.go: the cluster as the config changes of the log leave it.
pub mod Rebuild
use navi_kv.Prelude.{ℕ, suc, ◌+◌, ◌-◌, ◌/◌}
use navi_kv.Prelude.{Bool, false, not, ◌||◌, List, [], ◌∷◌, ◌++◌}
use navi_kv.Prelude.{◌==◌, if◌then◌else◌}
use navi_kv.Prelude.{◌>>=◌, Outcome, ok, panic}
use navi_kv.Bytes.{Bytes}
use navi_kv.Raft.State.{ClusterMember, Entry, Server}
use navi_kv.Raft.Config.{is_config_change_command, decode_config_change}

-- The set `known`: whether a member has the id.
unfoldable pub has_id : ℕ → List ClusterMember → Bool
has_id i [] = false
has_id i (m ∷ ms) = m.id == i || has_id i ms

-- The loop over `incoming`: the members that it appends. `known` is not updated by the loop.
unfoldable pub new_members :
    List ClusterMember → ℕ → ℕ → ℕ → List ClusterMember → List ClusterMember
new_members current next self vote [] = []
new_members current next self vote (m ∷ ms) =
    let rest = new_members current next self vote ms in
    if has_id m.id current
    then rest
    else record {
      id = m.id;
      address = m.address;
      next_index = next;
      match_index = 0;
      voted_for = if m.id == self then vote else 0;
    }
      ∷ rest

unfoldable pub merge_cluster_config :
    List ClusterMember → List ClusterMember → ℕ → ℕ → ℕ → List ClusterMember
unfolding new_members has_id
merge_cluster_config current incoming next self vote =
    current ++ new_members current next self vote incoming

-- The position of the first member with the id, counted from `i`.
unfoldable pub resolve_from : ℕ → List ClusterMember → ℕ → Outcome ℕ
resolve_from i [] self = panic
resolve_from i (m ∷ ms) self =
    let rest = resolve_from (suc i) ms self in if m.id == self then ok i else rest

unfoldable pub resolve_cluster_index : List ClusterMember → ℕ → Outcome ℕ
unfolding resolve_from
resolve_cluster_index = resolve_from 0

-- One entry's part in the membership: what an entry at index `i` does to the cluster.
unfoldable pub merge_entry : ℕ → ℕ → ℕ → Bytes → List ClusterMember → Outcome (List ClusterMember)
unfolding merge_cluster_config
merge_entry i self vote command cluster =
    if is_config_change_command command
    then (do
      incoming ← decode_config_change command
      ok (merge_cluster_config cluster incoming (i + 1) self vote))
    else ok cluster

-- The loop over the log from index `i`.
unfoldable pub cluster_of_log :
    ℕ → ℕ → ℕ → List Entry → List ClusterMember → Outcome (List ClusterMember)
cluster_of_log i self vote [] cluster = ok cluster
cluster_of_log i self vote (e ∷ es) cluster = do
  cluster' ← merge_entry i self vote e.command cluster
  cluster_of_log (suc i) self vote es cluster'

unfoldable pub rebuild_cluster_from_log : ℕ → Server → Outcome Server
unfolding cluster_of_log resolve_cluster_index
rebuild_cluster_from_log vote s = do
  cluster ← cluster_of_log 0 s.id vote s.log s.base_cluster
  index ← resolve_cluster_index cluster s.id
  ok (record s { cluster = cluster; cluster_index = index })
