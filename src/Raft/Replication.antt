-- ===== src/Raft/Replication.antt =====
-- navi/replication.go: the replication of the log.
pub mod Reconcile
pub mod Rounds
pub mod Loop
pub mod Accept
pub mod Handling
pub mod AcceptedLog
pub mod Submitting
pub mod Acknowledging
pub mod Surviving
pub mod CatchingUp
pub mod CaughtUp
use navi_kv.Prelude.{ℕ, suc, ◌+◌, ◌-◌, ◌/◌, min, max}
use navi_kv.Prelude.{Bool, true, false, not, ◌&&◌, ◌||◌, Option, none, some, List, [], ◌∷◌, ◌++◌}
use navi_kv.Prelude.{ltb, leb, ◌==◌, if◌then◌else◌, add64, sub64}
use navi_kv.Prelude.{◌>>=◌, ◌>>◌, Outcome, ok, panic, or_panic, assert}
use navi_kv.Prelude.{length, get_elem?, take, drop, replicate, modify}
use navi_kv.Bytes.{Bytes}
use navi_kv.Raft.State.{ClusterMember, Entry, Server, Env, leader, follower}
use navi_kv.Raft.State.{get_voted_for, is_leader, is_follower, is_candidate}
use navi_kv.Raft.Config.{is_config_change_command}
use navi_kv.Raft.Cluster.{merge_entry, resolve_cluster_index, rebuild_cluster_from_log}
use navi_kv.Raft.Persistence.{persist}
use navi_kv.Raft.Election.{update_term, reset_election_timeout}

-- A new entry at the current term with a channel of its own: the channel and the entry's index.
unfoldable pub append_locked : Bytes → Server → (ℕ × ℕ) × Server
append_locked command s = (
  (s.next_chan, length s.log),
  record s {
    log =
        s.log
        ++ record { command = command; term = s.current_term; result = some s.next_chan } ∷ [];
    next_chan = suc s.next_chan;
  },
)

unfoldable pub append_commands : List Bytes → Server → List ℕ × Server
unfolding append_locked
append_commands [] s = ([], s)
append_commands (c ∷ cs) s =
    let ((chan, index), s₁) = append_locked c s in
    let (chans, s₂) = append_commands cs s₁ in (chan ∷ chans, s₂)

-- `Apply` up to its wait: the channels that it waits on, or `none` for `ErrApplyToLeader`.
unfoldable pub apply_commands : List Bytes → Server → Outcome (Option (List ℕ) × Server)
unfolding append_commands
apply_commands commands s =
    if is_leader s.state
    then (do
      let (chans, s₁) = append_commands commands s
      s₂ ← persist true (length commands) s₁
      ok (some chans, s₂))
    else ok (none, s)

pub record AppendEntriesRequest : Type 0 where
  pub term : ℕ
  pub leader_id : ℕ
  pub prev_log_index : ℕ
  pub prev_log_term : ℕ
  pub entries : List Entry
  pub leader_commit : ℕ

pub record AppendEntriesResponse : Type 0 where
  pub term : ℕ
  pub success : Bool

abbrev pub max_append_entries_batch : ℕ
max_append_entries_batch = 8000

-- The request to the member at `i`, with the address that it goes to.
unfoldable pub append_request : ℕ → Server → Outcome (Bytes × AppendEntriesRequest)
append_request i s = do
  m ← or_panic (get_elem? s.cluster i)
  prev ← or_panic (get_elem? s.log (sub64 m.next_index 1))
  self ← or_panic (get_elem? s.cluster s.cluster_index)
  let entries = if leb m.next_index (length s.log - 1) then drop m.next_index s.log else []
  ok (
    m.address,
    record {
      term = s.current_term;
      leader_id = self.id;
      prev_log_index = sub64 m.next_index 1;
      prev_log_term = prev.term;
      entries = take max_append_entries_batch entries;
      leader_commit = s.commit_index;
    },
  )

abbrev accepted : AppendEntriesRequest → ClusterMember → ClusterMember
accepted req m =
    let next = max (add64 (add64 req.prev_log_index (length req.entries)) 1) 1 in
    record m { next_index = next; match_index = sub64 next 1 }

abbrev backed_off : ClusterMember → ClusterMember
backed_off m = record m { next_index = max (sub64 m.next_index 1) 1 }

-- `s.cluster[i]` is written; an index out of range panics.
unfoldable pub update_member : ℕ → (ClusterMember → ClusterMember) → Server → Outcome Server
update_member i f s =
    if ltb i (length s.cluster) then ok (record s { cluster = modify s.cluster i f }) else panic

unfoldable pub handle_append_response :
    Env → ℕ → AppendEntriesRequest → AppendEntriesResponse → Server → Outcome Server
unfolding update_term update_member
handle_append_response env i req rsp s = do
  (transitioned, s₁) ← update_term env rsp.term s
  if transitioned || (not (rsp.term == req.term) && is_leader s₁.state)
      then ok s₁
      else update_member i (if rsp.success then accepted req else backed_off) s₁

-- `i` entries out of a new array that holds a copy of the log: what `make` and `copy` give.
abbrev pub recopied : ℕ → List Entry → List Entry
recopied i log =
    take i (log ++ replicate (i - length log) (record { command = []; term = 0; result = none }))

-- Whether there is an entry, and it has another term than `t`.
abbrev pub other_term : ℕ → Option Entry → Bool
other_term t none = false
other_term t (some x) = not (x.term == t)

-- The log moves to a larger array if index `i` does not fit its capacity. The capacity is what the
-- Go runtime chose: the length and `spare` more.
unfoldable pub make_room : ℕ → ℕ → Server → Server
make_room spare i s =
    if leb (length s.log + spare) i then record s { log = recopied i s.log } else s

-- The log is cut at a conflicting entry, and the cluster rebuilt from what is left.
unfoldable pub cut_conflict : ℕ → ℕ → Entry → Server → Outcome Server
cut_conflict vote i e s =
    if other_term e.term (get_elem? s.log i)
    then rebuild_cluster_from_log vote (record s { log = take i s.log })
    else ok s

-- What is done where the log has this entry, or none, at index `i`.
abbrev pub place_at : Option Entry → ℕ → Entry → Server → Outcome (ℕ × Server)
place_at (some x) i e s = do assert (x.term == e.term); ok (0, s)
place_at none i e s = do
  let log = s.log ++ record e { result = none } ∷ []
  assert (length log == i + 1)
  ok (1, record s { log = log })

-- The entry is there already, with the same term, or becomes the last one. The number is how many
-- entries were appended.
unfoldable pub place_entry : ℕ → Entry → Server → Outcome (ℕ × Server)
place_entry i e s = place_at (get_elem? s.log i) i e s

-- A config change takes effect on append.
unfoldable pub merge_appended : ℕ → ℕ → Entry → Server → Outcome Server
merge_appended vote i e s =
    if is_config_change_command e.command
    then (do
      cluster ← merge_entry i s.id vote e.command s.cluster
      index ← resolve_cluster_index cluster s.id
      ok (record s { cluster = cluster; cluster_index = index }))
    else ok s

-- One round of the loop.
unfoldable pub append_round : ℕ → ℕ → ℕ → Entry → Server → Outcome (ℕ × Server)
append_round spare vote i e s = do
  s₁ ← cut_conflict vote i e (make_room spare i s)
  (n, s₂) ← place_entry i e s₁
  s₃ ← merge_appended vote i e s₂
  ok (n, s₃)

-- The loop over the entries from index `i`, with the number of entries appended. `spare i` is the
-- spare capacity of the log in the round of index `i`.
unfoldable pub append_loop : (ℕ → ℕ) → ℕ → ℕ → List Entry → Server → Outcome (ℕ × Server)
append_loop spare vote i [] s = ok (0, s)
append_loop spare vote i (e ∷ es) s = do
  (n, s₁) ← append_round (spare i) vote i e s
  (k, s₂) ← append_loop spare vote (suc i) es s₁
  ok (n + k, s₂)

abbrev pub same_term : ℕ → Option Entry → Bool
same_term t none = false
same_term t (some x) = x.term == t

unfoldable pub valid_previous_log : AppendEntriesRequest → List Entry → Bool
valid_previous_log req log =
    req.prev_log_index == 0 || same_term req.prev_log_term (get_elem? log req.prev_log_index)

-- `commitIndex` after the loop.
unfoldable pub follow_commit : ℕ → Server → Server
follow_commit leader_commit s =
    if ltb s.commit_index leader_commit
    then record s { commit_index = min leader_commit (length s.log - 1) }
    else s

abbrev pub append_reply : ℕ → Bool → AppendEntriesResponse
append_reply t g = record { term = t; success = g }

-- The part of the handler behind its guards. `next` cannot wrap: `prev_log_index` is 0 or an index
-- of the log.
unfoldable pub accept_entries :
    (ℕ → ℕ) → AppendEntriesRequest → Server → Outcome (AppendEntriesResponse × Server)
accept_entries spare req s = do
  vote ← get_voted_for s
  (n, s₁) ← append_loop spare vote (req.prev_log_index + 1) req.entries s
  s₂ ← persist (not (n == 0)) n (follow_commit req.leader_commit s₁)
  ok (append_reply s.current_term true, s₂)

-- A candidate that hears of a leader of its term follows it.
unfoldable pub follow_leader : ℕ → Server → Server
follow_leader term s =
    if term == s.current_term && is_candidate s.state then record s { state = follower } else s

unfoldable pub handle_append_entries :
    (ℕ → ℕ) → Env → AppendEntriesRequest → Server → Outcome (AppendEntriesResponse × Server)
handle_append_entries spare env req s = do
  (transitioned, s₁) ← update_term env req.term s
  let s₂ = follow_leader req.term s₁
  if not (is_follower s₂.state) || ltb req.term s₂.current_term
      then ok (append_reply s₂.current_term false, s₂)
      else (do
        let s₃ = record (reset_election_timeout env s₂) { passive = false }
        if valid_previous_log req s₃.log
            then accept_entries spare req s₃
            else ok (append_reply s₃.current_term false, s₃))
