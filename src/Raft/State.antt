-- ===== src/Raft/State.antt =====
-- The data of navi/server.go, and the access to the own vote of navi/persistence.go.
-- A channel is a number, drawn from `next_chan`; a time is a number of milliseconds; the storage
-- is the in-memory one of navi/storage.go.
use navi_kv.Prelude.{ℕ, ◌-◌}
use navi_kv.Prelude.{Bool, true, false, Option, none, some, List}
use navi_kv.Prelude.{ltb, if◌then◌else◌}
use navi_kv.Prelude.{Outcome, ok, panic, or_panic}
use navi_kv.Prelude.{length, get_elem?, modify}
use navi_kv.Bytes.{Bytes}
use navi_kv.Raft.Storage.{MemStorage}

pub data ServerState : Type 0 where
  unset leader follower candidate : ServerState

pub record Entry : Type 0 where
  pub command : Bytes
  pub term : ℕ
  pub result : Option ℕ

pub record ClusterMember : Type 0 where
  pub id : ℕ
  pub address : Bytes
  pub next_index : ℕ
  pub match_index : ℕ
  pub voted_for : ℕ

pub record Server : Type 0 where
  pub done : Bool
  pub current_term : ℕ
  pub log : List Entry
  pub id : ℕ
  pub address : Bytes
  pub election_timeout : ℕ
  pub heartbeat_ms : ℕ
  pub heartbeat_timeout : ℕ
  pub storage : MemStorage
  pub base_cluster : List ClusterMember
  pub passive : Bool
  pub commit_index : ℕ
  pub last_applied : ℕ
  pub state : ServerState
  pub cluster : List ClusterMember
  pub cluster_index : ℕ
  pub pending_config_change_index : ℕ
  pub next_chan : ℕ

-- What an operation draws from outside: the clock's reading at its test, the reading when it sets a
-- timer, and what `rand.Intn` returns.
pub record Env : Type 0 where
  pub now : ℕ
  pub later : ℕ
  pub roll : ℕ

abbrev pub is_leader : ServerState → Bool
is_leader leader = true
is_leader _ = false

abbrev pub is_follower : ServerState → Bool
is_follower follower = true
is_follower _ = false

abbrev pub is_candidate : ServerState → Bool
is_candidate candidate = true
is_candidate _ = false

abbrev voted_for_of : Option ClusterMember → Outcome ℕ
voted_for_of none = panic
voted_for_of (some m) = ok m.voted_for

-- The own vote; the assertion behind the loop is the panic.
unfoldable pub get_voted_for : Server → Outcome ℕ
get_voted_for s = voted_for_of (get_elem? s.cluster s.cluster_index)

abbrev pub with_vote : ℕ → ClusterMember → ClusterMember
with_vote v m = record m { voted_for = v }

unfoldable pub set_voted_for : ℕ → Server → Outcome Server
set_voted_for v s =
    if ltb s.cluster_index (length s.cluster)
    then ok (record s { cluster = modify s.cluster s.cluster_index (with_vote v) })
    else panic

-- `s.log[len(s.log)-1]`
unfoldable pub last_entry : Server → Outcome Entry
last_entry s = or_panic (get_elem? s.log (length s.log - 1))

-- The index of the last entry, of a log that is not empty.
unfoldable pub last_index : Server → ℕ
last_index s = length s.log - 1
