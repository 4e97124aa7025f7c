-- ===== src/Raft/Advance.antt =====
-- navi/replication.go: `advanceCommitIndex` and `heartbeat`.
pub mod Commit
pub mod Applying
use navi_kv.Prelude.{ℕ, zero, suc, ◌+◌, ◌-◌, ◌/◌}
use navi_kv.Prelude.{Bool, true, false, not, ◌&&◌, ◌||◌, Option, none, some, List, [], ◌∷◌}
use navi_kv.Prelude.{ltb, leb, ◌==◌, if◌then◌else◌}
use navi_kv.Prelude.{◌>>=◌, Outcome, ok, or_panic}
use navi_kv.Prelude.{length, get_elem?}
use navi_kv.Bytes.{Bytes}
use navi_kv.Raft.State.{ClusterMember, Entry, Server, Env, leader}
use navi_kv.Raft.State.{is_leader}
use navi_kv.Raft.Config.{is_config_change_command}

-- The loop over the cluster from member `j` on: `quorum` less one for each member that has index
-- `i`, and for the leader itself. It stops at 0.
unfoldable pub quorum_left : ℕ → ℕ → ℕ → ℕ → List ClusterMember → ℕ
quorum_left i index j quorum [] = quorum
quorum_left i index j quorum (m ∷ ms) =
    quorum_left i index (suc j)
      (if not (quorum == 0) && (leb i m.match_index || j == index) then quorum - 1 else quorum) ms

-- The loop over the indexes from `i` down to above `commit`.
unfoldable pub find_commit : ℕ → ℕ → ℕ → List ClusterMember → ℕ
unfolding quorum_left
find_commit zero commit index cluster = commit
find_commit (suc i) commit index cluster =
    let rest = find_commit i commit index cluster in
    if leb (suc i) commit
    then commit
    else if quorum_left (suc i) index 0 (length cluster / 2 + 1) cluster == 0
    then suc i
    else rest

unfoldable pub leader_commit_index : Server → ℕ
unfolding find_commit
leader_commit_index s =
    if is_leader s.state
    then find_commit (length s.log - 1) s.commit_index s.cluster_index s.cluster
    else s.commit_index

-- What `StateMachine.Apply` returns: a result, or an error of the machine's type of errors.
pub data ApplyResult (E : Type 0) : Type 0 where
  applied : Bytes → ApplyResult E
  failed : E → ApplyResult E

-- `M` is the state of the state machine, and `run` its `Apply`.
module _ {E M : Type 0} (run : Bytes → M → ApplyResult E × M) where
  -- The entry at `lastApplied` is applied. The result is what is sent on the entry's channel.
  unfoldable pub apply_entry : Entry → Server → M → Option (ℕ × ApplyResult E) × Server × M
  apply_entry e s m =
      if length e.command == 0
      then (none, s, m)
      else if is_config_change_command e.command
      then (
        elim e.result [ none ↦ none | some c ↦ some (c, applied []) ],
        if s.pending_config_change_index == s.last_applied
            then record s { pending_config_change_index = 0 }
            else s,
        m,
      )
      else let (r, m') = run e.command m in
        (elim e.result [ none ↦ none | some c ↦ some (c, r) ], s, m')

  unfoldable pub apply_next : Server → M → Outcome (Option (ℕ × ApplyResult E) × Server × M)
  unfolding apply_entry
  apply_next s m =
      if leb s.last_applied s.commit_index
      then (do
        e ← or_panic (get_elem? s.log s.last_applied)
        let (sent, s₁, m₁) = apply_entry e s m
        ok (sent, record s₁ { last_applied = suc s₁.last_applied }, m₁))
      else ok (none, s, m)

  unfoldable pub advance_commit_index :
      Server → M → Outcome (Option (ℕ × ApplyResult E) × Server × M)
  unfolding leader_commit_index apply_next
  advance_commit_index s m = apply_next (record s { commit_index = leader_commit_index s }) m

-- The Boolean says whether append requests are sent.
unfoldable pub heartbeat : Env → Server → Bool × Server
heartbeat env s =
    if ltb s.heartbeat_timeout env.now
    then (true, record s { heartbeat_timeout = env.later + s.heartbeat_ms })
    else (false, s)
