-- ===== src/Raft/Lifecycle/FreshStart.antt =====
-- A server that is made and started on an empty storage.
use navi_kv.Prelude.{ℕ, zero, suc, true, false, List, [], ◌∷◌, ◌≡◌, refl, arith}
use navi_kv.Prelude.{some, none, ◌>>=◌, ok, Returns, Returns-bind, get_elem?, All}
use navi_kv.Raft.State.{ClusterMember, Server, follower, get_voted_for}
use navi_kv.Raft.Storage.{new_mem_storage, read, seek, seek_to}
use navi_kv.Raft.Invariant.{IsValid, IsStorableEntry}
use navi_kv.Raft.Config.{is_config_change_command}
use navi_kv.Raft.Cluster.{has_id, rebuild_cluster_from_log, cluster_of_log, merge_entry}
use navi_kv.Raft.Cluster.Rebuild.{Rebuilt, rebuild_cluster_lem}
use navi_kv.Raft.Persistence.{restore, restore_page, ensure_log}
use navi_kv.Raft.Lifecycle.{all_named, new_server, start}

has_id-get_elem? :
    (ms : List ClusterMember) (i : ℕ) {m : ClusterMember}
    → get_elem? ms i ≡ some m
    → has_id m.id ms ≡ true
unfolding has_id
has_id-get_elem? [] i h = cc
has_id-get_elem? (x ∷ xs) zero h = ground arith
has_id-get_elem? (x ∷ xs) (suc i) h = ground (arith, has_id-get_elem? xs i h)

-- The server that `Start` hands to the rebuild.
abbrev seeded : List ClusterMember → ℕ → ClusterMember → Server
seeded config index m = record {
  done = false;
  current_term = 0;
  log = record { command = []; term = 0; result = none } ∷ [];
  id = m.id;
  address = m.address;
  election_timeout = 0;
  heartbeat_ms = 300;
  heartbeat_timeout = 0;
  storage = new_mem_storage;
  base_cluster = config;
  passive = false;
  commit_index = 0;
  last_applied = 0;
  state = follower;
  cluster = config;
  cluster_index = index;
  pending_config_change_index = 0;
  next_chan = 0;
}

first_storable :
    (config : List ClusterMember) (index : ℕ) (m : ClusterMember)
    → All IsStorableEntry (seeded config index m).log
first_storable config index m =
    (record { fits = omega arith; decodes = λ h. unfold is_config_change_command in cc }, tt)

-- What the started server is.
pub record Fresh (config : List ClusterMember) (m : ClusterMember) (s : Server) : Type 0 where
  pub valid : IsValid s
  pub state : s.state ≡ follower
  pub id : s.id ≡ m.id
  pub term : s.current_term ≡ 0
  pub cluster : s.cluster ≡ config
  pub log : s.log ≡ record { command = []; term = 0; result = none } ∷ []
  pub running : s.done ≡ false

started :
    (config : List ClusterMember) (index : ℕ) (m : ClusterMember) (s : Server)
    → has_id m.id config ≡ true
    → Rebuilt m.voted_for (seeded config index m) s
    → Fresh config m s
unfolding cluster_of_log merge_entry is_config_change_command
started config index m s known b =
    let same : s.cluster ≡ config = cc in
    let valid : IsValid
        (record (seeded config index m) { cluster = s.cluster; cluster_index = s.cluster_index }) =
      record {
        placed = b.placed;
        rooted = known;
        started = omega arith;
        storable = first_storable config index m;
      } in
    rw b.rest (record {
      valid = valid;
      state = refl;
      id = refl;
      term = refl;
      cluster = same;
      log = refl;
      running = refl;
    })

-- With nothing to restore, the start is the rebuild of the given cluster.
start_by_rebuild :
    (config : List ClusterMember) (index : ℕ) (m : ClusterMember)
    → all_named config ≡ true
    → get_elem? config index ≡ some m
    → (new_server true config index new_mem_storage >>= start true)
      ≡ rebuild_cluster_from_log m.voted_for (seeded config index m) >>= λ s. ok s
unfolding new_server start restore restore_page ensure_log get_voted_for read seek seek_to
start_by_rebuild config index m named here = rw (named, here, here) refl

-- A cluster whose ids are not 0 starts: the member at the index becomes a follower in term 0 with
-- the given cluster and a log of one empty entry, and is valid.
pub start-new_server :
    (config : List ClusterMember) (index : ℕ) (m : ClusterMember)
    → all_named config ≡ true
    → get_elem? config index ≡ some m
    → Returns (Fresh config m) (new_server true config index new_mem_storage >>= start true)
start-new_server config index m named here =
    let known = has_id-get_elem? config index here in
    rw (start_by_rebuild config index m named here) (
      Returns-bind (Rebuilt m.voted_for (seeded config index m)) (Fresh config m)
        (rebuild_cluster_from_log m.voted_for (seeded config index m)) (λ s. ok s)
        (rebuild_cluster_lem m.voted_for (seeded config index m) (first_storable config index m)
          known)
        λ s e b. started config index m s known b)
