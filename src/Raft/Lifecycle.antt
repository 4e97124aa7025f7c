-- ===== src/Raft/Lifecycle.antt =====
-- navi/server.go: the making of a server, its start and its loop. Whether the random source gives a
-- seed, and whether the transport serves, are inputs.
pub mod Running
pub mod FreshStart
use navi_kv.Prelude.{ℕ, Bool, true, false, not, ◌&&◌, List, [], ◌∷◌}
use navi_kv.Prelude.{◌==◌, get_elem?}
use navi_kv.Prelude.{◌>>=◌, ◌>>◌, Outcome, ok, or_panic, assert}
use navi_kv.Bytes.{Bytes}
use navi_kv.Raft.State.{ClusterMember, Server, ServerState, Env, unset, leader, follower, candidate}
use navi_kv.Raft.Storage.{MemStorage}
use navi_kv.Raft.Persistence.{restore}
use navi_kv.Raft.Election.{reset_election_timeout, timeout, become_leader}
use navi_kv.Raft.Advance.{ApplyResult, heartbeat, advance_commit_index}

-- The test of the loop that copies the members.
unfoldable pub all_named : List ClusterMember → Bool
all_named [] = true
all_named (m ∷ ms) = not (m.id == 0) && all_named ms

-- The storage is the one that the server has when it starts.
unfoldable pub new_server : Bool → List ClusterMember → ℕ → MemStorage → Outcome Server
unfolding all_named
new_server seeded config index storage = do
  assert (all_named config)
  assert seeded
  m ← or_panic (get_elem? config index)
  ok (record {
    done = false;
    current_term = 0;
    log = [];
    id = m.id;
    address = m.address;
    election_timeout = 0;
    heartbeat_ms = 300;
    heartbeat_timeout = 0;
    storage = storage;
    base_cluster = config;
    passive = false;
    commit_index = 0;
    last_applied = 0;
    state = unset;
    cluster = config;
    cluster_index = index;
    pending_config_change_index = 0;
    next_chan = 0;
  })

-- `Start` up to the start of its loop.
unfoldable pub start : Bool → Server → Outcome Server
start serves s = do s₁ ← restore (record s { state = follower; done = false }); assert serves; ok s₁

abbrev pub stop : Server → Server
stop s = record s { done = true }

-- The operations of the loop; `arm` is the reset of the timer before the first round.
pub data LoopOp : Type 0 where
  arm beat advance check_timeout claim : LoopOp

-- The operations of one round, by the state that the round has read.
abbrev pub round : ServerState → List LoopOp
round leader = beat ∷ advance ∷ []
round follower = check_timeout ∷ advance ∷ []
round candidate = check_timeout ∷ claim ∷ []
round unset = []

module _ {E M : Type 0} (run : Bytes → M → ApplyResult E × M) where
  unfoldable pub loop_op : LoopOp → Env → Server → M → Outcome (Server × M)
  unfolding reset_election_timeout heartbeat advance_commit_index timeout become_leader
  loop_op arm env s m = ok (reset_election_timeout env s, m)
  loop_op beat env s m = ok ((heartbeat env s).1, m)
  loop_op advance env s m = do (sent, s', m') ← advance_commit_index run s m; ok (s', m')
  loop_op check_timeout env s m = do (campaigns, s') ← timeout env s; ok (s', m)
  loop_op claim env s m = do s' ← become_leader env s; ok (s', m)
