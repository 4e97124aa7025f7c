-- ===== src/Raft/Cluster/Rebuild.antt =====
-- navi/membership.go: `rebuildClusterFromLog` and what it calls.
use navi_kv.Prelude.{ℕ, zero, suc, ◌+◌, ◌≡◌, refl, sym, ap, ◌∙◌}
use navi_kv.Prelude.{true, false, List, [], ◌∷◌, ◌++◌, arith}
use navi_kv.Prelude.{◌==◌, Bool-cases}
use navi_kv.Prelude.{ok, Returns, Returns-eq_ok}
use navi_kv.Prelude.{All}
use navi_kv.Prelude.{inl, inr, append-nil, append_assoc}
use navi_kv.Bytes.{Bytes}
use navi_kv.Raft.State.{ClusterMember, Entry, Server}
use navi_kv.Raft.Config.{is_config_change_command, decode_config_change}
use navi_kv.Raft.Cluster.{has_id, new_members, resolve_from, resolve_cluster_index}
use navi_kv.Raft.Cluster.{merge_entry, cluster_of_log, rebuild_cluster_from_log}
use navi_kv.Raft.Invariant.{IsStorable, IsStorableEntry, IsPlaced}

resolve_from_lem :
    (k n : ℕ) (ms : List ClusterMember)
    → has_id n ms ≡ true
    → (i : ℕ) × (resolve_from k ms n ≡ ok (k + i)) × IsPlaced n ms i
unfolding resolve_from has_id
resolve_from_lem k n [] h = cc
resolve_from_lem k n (m ∷ ms) h = elim (Bool-cases (m.id == n)) [
  | inl same ↦ (0, rw same (ap ok (omega arith)), ground arith)
  | inr other ↦
      let (i, e, p) = resolve_from_lem (suc k) n ms (rw other at h) in
      let shift : suc k + i ≡ k + suc i = omega arith in
      (suc i, rw other (e ∙ ap ok shift), ((λ q. ground arith), p))
]

-- A cluster with the server in it resolves to the server's first position.
pub resolve_cluster_index_lem :
    (ms : List ClusterMember) (n : ℕ)
    → has_id n ms ≡ true
    → (i : ℕ) × (resolve_cluster_index ms n ≡ ok i) × IsPlaced n ms i
unfolding resolve_cluster_index
resolve_cluster_index_lem ms n h =
    let (i, e, p) = resolve_from_lem 0 n ms h in (i, e ∙ ap ok (omega arith), p)

resolve_from-IsPlaced :
    (k n : ℕ) (ms : List ClusterMember) (i : ℕ) → IsPlaced n ms i → resolve_from k ms n ≡ ok (k + i)
unfolding resolve_from
resolve_from-IsPlaced k n [] i h = absurd h
resolve_from-IsPlaced k n (m ∷ ms) zero h =
    let same : (m.id == n) ≡ true = ground arith in rw same (ap ok (omega arith))
resolve_from-IsPlaced k n (m ∷ ms) (suc i) (ne, h) =
    let other : (m.id == n) ≡ false = ground arith in
    let shift : suc k + i ≡ k + suc i = omega arith in
    rw other (resolve_from-IsPlaced (suc k) n ms i h ∙ ap ok shift)

pub resolve_cluster_index-IsPlaced :
    (ms : List ClusterMember) (n i : ℕ) → IsPlaced n ms i → resolve_cluster_index ms n ≡ ok i
unfolding resolve_cluster_index
resolve_cluster_index-IsPlaced ms n i h = resolve_from-IsPlaced 0 n ms i h ∙ ap ok (omega arith)

has_id-append :
    (n : ℕ) (ms more : List ClusterMember) → has_id n ms ≡ true → has_id n (ms ++ more) ≡ true
unfolding has_id
has_id-append n [] more h = cc
has_id-append n (m ∷ ms) more h = ground (arith, has_id-append n ms more)

-- A merge only appends.
pub merge_entry_total :
    (i self vote : ℕ) (command : Bytes) (cluster : List ClusterMember)
    → IsStorable command
    → (more : List ClusterMember) × (merge_entry i self vote command cluster ≡ ok (cluster ++ more))
unfolding merge_entry
merge_entry_total i self vote command cluster h =
    elim (Bool-cases (is_config_change_command command)) [
      | inl change ↦
          let (incoming, e, u) =
            Returns-eq_ok (λ ms. Unit {0}) (decode_config_change command) (h.decodes change) in
          (new_members cluster (i + 1) self vote incoming, rw (change, e))
      | inr plain ↦ ([], rw plain (ap ok (sym (append-nil cluster))))
    ]

pub cluster_of_log_total :
    (i self vote : ℕ) (es : List Entry) (cluster : List ClusterMember)
    → All IsStorableEntry es
    → (more : List ClusterMember) × (cluster_of_log i self vote es cluster ≡ ok (cluster ++ more))
unfolding cluster_of_log
cluster_of_log_total i self vote [] cluster h = ([], ap ok (sym (append-nil cluster)))
cluster_of_log_total i self vote (e ∷ es) cluster (storable, h) =
    let (more, p) = merge_entry_total i self vote e.command cluster storable in
    let (rest, q) = cluster_of_log_total (suc i) self vote es (cluster ++ more) h in
    (more ++ rest, rw p (q ∙ ap ok (append_assoc cluster more rest)))

-- What a rebuild leaves: the cluster is the founding one and what the log has appended to it, the
-- server's position is found again, and nothing else changes.
pub record Rebuilt (vote : ℕ) (s s' : Server) : Type 0 where
  pub members : cluster_of_log 0 s.id vote s.log s.base_cluster ≡ ok s'.cluster
  pub extends : (more : List ClusterMember) × (s'.cluster ≡ s.base_cluster ++ more)
  pub rest : s' ≡ record s { cluster = s'.cluster; cluster_index = s'.cluster_index }
  pub placed : IsPlaced s.id s'.cluster s'.cluster_index

-- The rebuild of a server that is a founding member, from a log whose config changes decode, does
-- not panic. The cluster is the founding one and behind it the members that the log adds, the
-- position is that of the first member with the own id, and no other field changes.
pub rebuild_cluster_lem :
    (vote : ℕ) (s : Server)
    → All IsStorableEntry s.log
    → has_id s.id s.base_cluster ≡ true
    → Returns (Rebuilt vote s) (rebuild_cluster_from_log vote s)
unfolding rebuild_cluster_from_log
rebuild_cluster_lem vote s storable rooted =
    let (more, e) = cluster_of_log_total 0 s.id vote s.log s.base_cluster storable in
    let (i, r, p) =
      resolve_cluster_index_lem (s.base_cluster ++ more) s.id
        (has_id-append s.id s.base_cluster more rooted) in
    rw (e, r) (record { members = e; extends = (more, refl); rest = refl; placed = p })
