-- ===== src/Raft/Lifecycle/Running.antt =====
-- The runs of a server: its loop and its handlers, in any order.
use navi_kv.Prelude.{ℕ, suc, false, List, [], ◌∷◌, ◌<◌, ◌+◌, ◌≡◌, refl}
use navi_kv.Prelude.{Option, none}
use navi_kv.Prelude.{◌==◌, ltb, leb, length, get_elem?, All, u64_limit, Bool-cases, inl, inr}
use navi_kv.Prelude.{ok, or_panic, Returns-at, Ensures, Ensures-bind}
use navi_kv.Prelude.{Ensures-ok}
use navi_kv.Bytes.{Bytes, IsU64}
use navi_kv.Raft.State.{Entry, Server, Env}
use navi_kv.Raft.Invariant.{IsValid, IsStorable, IsStorableEntry}
use navi_kv.Raft.Config.{is_config_change_command}
use navi_kv.Raft.Config.RoundTrip.{HasIdU64}
use navi_kv.Raft.Election.{
  RequestVoteRequest, RequestVoteResponse, handle_request_vote, handle_vote_response,
}
use navi_kv.Raft.Election.Terms.{reset_election_timeout-IsValid}
use navi_kv.Raft.Election.{timeout, become_leader, reset_election_timeout}
use navi_kv.Raft.Election.Voting.{VoteStep, handle_request_vote_lem}
use navi_kv.Raft.Election.Campaign.{TimeoutStep, timeout_lem}
use navi_kv.Raft.Election.Leading.{LeaderStep, become_leader_lem}
use navi_kv.Raft.Election.Answers.{AnswerStep, handle_vote_response_lem}
use navi_kv.Raft.Replication.{
  AppendEntriesRequest, AppendEntriesResponse, handle_append_entries, handle_append_response,
  apply_commands,
}
use navi_kv.Raft.Replication.Handling.{AppendStep, handle_append_entries_lem}
use navi_kv.Raft.Replication.Acknowledging.{AckStep, handle_append_response_lem, last_sent}
use navi_kv.Raft.Replication.Submitting.{SubmitStep, apply_commands_lem}
use navi_kv.Raft.Membership.{AddServerResult, add_server}
use navi_kv.Raft.Membership.Joining.{AddStep, add_server_lem}
use navi_kv.Raft.Advance.{
  ApplyResult, apply_entry, apply_next, advance_commit_index, leader_commit_index, heartbeat,
}
use navi_kv.Raft.Lifecycle.{LoopOp, arm, beat, advance, check_timeout, claim, round, loop_op, stop}

heartbeat-IsValid : (env : Env) (s : Server) → IsValid s → IsValid (heartbeat env s).1
unfolding heartbeat
heartbeat-IsValid env s v = elim (Bool-cases (ltb s.heartbeat_timeout env.now)) [
  | inl due ↦
      rw due (record {
        placed = v.placed;
        rooted = v.rooted;
        started = v.started;
        storable = v.storable;
      })
  | inr early ↦ rw early v
]

module _ {E M : Type 0} (run : Bytes → M → ApplyResult E × M) where
  -- At most the pending config change is touched.
  apply_entry_pending :
      (e : Entry) (s : Server) (m : M)
      → (n : ℕ) × ((apply_entry run e s m).1 ≡ record s { pending_config_change_index = n })
  unfolding apply_entry
  apply_entry_pending e s m = elim (Bool-cases (length e.command == 0)) [
    | inl no_op ↦ (s.pending_config_change_index, rw no_op refl)
    | inr other ↦ elim (Bool-cases (is_config_change_command e.command)) [
      | inl change ↦ elim (Bool-cases (s.pending_config_change_index == s.last_applied)) [
        | inl pending ↦ (0, rw (other, change, pending) refl)
        | inr settled ↦ (s.pending_config_change_index, rw (other, change, settled) refl)
      ]
      | inr command ↦ (s.pending_config_change_index, rw (other, command) refl)
    ]
  ]

  apply_next-IsValid :
      (s : Server) (m : M) → IsValid s → Ensures (λ r. IsValid r.1) (apply_next run s m)
  unfolding apply_next
  apply_next-IsValid s m v = elim (Bool-cases (leb s.last_applied s.commit_index)) [
    | inl due ↦ rw due (
        Ensures-bind (λ r. IsValid r.1) (or_panic (get_elem? s.log s.last_applied))
          (λ e.
            let (sent, s₁, m₁) = apply_entry run e s m in
            ok (sent, record s₁ { last_applied = suc s₁.last_applied }, m₁))
          λ e found.
            let (n, same) = apply_entry_pending e s m in
            Ensures-ok (λ r. IsValid r.1)
              (
                (apply_entry run e s m).0,
                record (apply_entry run e s m).1 {
                  last_applied = suc (apply_entry run e s m).1.last_applied;
                },
                (apply_entry run e s m).2,
              )
              (rw same (record {
                placed = v.placed;
                rooted = v.rooted;
                started = v.started;
                storable = v.storable;
              })))
    | inr done' ↦ rw done' (Ensures-ok (λ r. IsValid r.1) (none, s, m) v)
  ]

  advance-IsValid :
      (s : Server) (m : M) → IsValid s → Ensures (λ r. IsValid r.1) (advance_commit_index run s m)
  unfolding advance_commit_index
  advance-IsValid s m v =
      apply_next-IsValid (record s { commit_index = leader_commit_index s }) m
        (record {
          placed = v.placed;
          rooted = v.rooted;
          started = v.started;
          storable = v.storable;
        })

  -- What is running: the server, the operations that the round of its loop has still to do, and the
  -- state machine.
  pub record Node : Type 0 where
    pub server : Server
    pub todo : List LoopOp
    pub machine : M

  -- One step that returns: of the loop, or of a handler.
  pub data NodeStep (n : Node) : Node → Type 0 where
    round_begun :
        n.todo ≡ [] → n.server.done ≡ false → NodeStep n (record n { todo = round n.server.state })
    looped :
        (op : LoopOp) (ops : List LoopOp) (env : Env) (s' : Server) (m' : M)
        → n.todo ≡ op ∷ ops
        → loop_op run op env n.server n.machine ≡ ok (s', m')
        → NodeStep n (record { server = s'; todo = ops; machine = m' })
    vote_requested :
        (env : Env) (req : RequestVoteRequest) (rsp : RequestVoteResponse) (s' : Server)
        → handle_request_vote env req n.server ≡ ok (rsp, s')
        → NodeStep n (record n { server = s' })
    vote_answered :
        (env : Env) (i : ℕ) (req : RequestVoteRequest) (rsp : RequestVoteResponse) (s' : Server)
        → handle_vote_response env i req rsp n.server ≡ ok s'
        → NodeStep n (record n { server = s' })
    entries_received :
        (spare : ℕ → ℕ) (env : Env) (req : AppendEntriesRequest) (rsp : AppendEntriesResponse)
        (s' : Server)
        → handle_append_entries spare env req n.server ≡ ok (rsp, s')
        → NodeStep n (record n { server = s' })
    entries_answered :
        (env : Env) (i : ℕ) (req : AppendEntriesRequest) (rsp : AppendEntriesResponse) (s' : Server)
        → handle_append_response env i req rsp n.server ≡ ok s'
        → NodeStep n (record n { server = s' })
    submitted :
        (cs : List Bytes) (chans : Option (List ℕ)) (s' : Server)
        → apply_commands cs n.server ≡ ok (chans, s')
        → NodeStep n (record n { server = s' })
    joined :
        (i : ℕ) (a : Bytes) (r : AddServerResult) (s' : Server)
        → add_server i a n.server ≡ ok (r, s')
        → NodeStep n (record n { server = s' })
    stopped : NodeStep n (record n { server = stop n.server })

  pub data NodeRun (n : Node) : Node → Type 0 where
    at_start : NodeRun n n
    then_step : {a b : Node} → NodeRun n a → NodeStep a b → NodeRun n b

  -- What a step is given is such as the program can store and read back: commands and entries fit a
  -- log slot and those that are marked as config changes decode, an answer is to a member that is
  -- there, its request's last index is below 2 ^ 64 - 1, and the ids of a join are of 64 bits.
  abbrev pub IsSound : {a b : Node} → NodeStep a b → Type 0
  IsSound {a} (vote_answered env i req rsp s' e) = i < length a.server.cluster
  IsSound (entries_received spare env req rsp s' e) = All IsStorableEntry req.entries
  IsSound {a} (entries_answered env i req rsp s' e) =
      (i < length a.server.cluster) × (last_sent req + 1 < u64_limit)
  IsSound (submitted cs chans s' e) = All IsStorable cs
  IsSound {a} (joined i x r s' e) = All HasIdU64 a.server.cluster × IsU64 i
  IsSound _ = Unit

  abbrev pub AllSound : {a b : Node} → NodeRun a b → Type 0
  AllSound at_start = Unit
  AllSound (then_step r st) = AllSound r × IsSound st

  loop_op-IsValid :
      (op : LoopOp) (env : Env) (s : Server) (m : M)
      → IsValid s
      → Ensures (λ r. IsValid r.0) (loop_op run op env s m)
  unfolding loop_op
  loop_op-IsValid arm env s m v =
      Ensures-ok (λ r. IsValid r.0) (reset_election_timeout env s, m)
        (reset_election_timeout-IsValid env s v)
  loop_op-IsValid beat env s m v =
      Ensures-ok (λ r. IsValid r.0) ((heartbeat env s).1, m) (heartbeat-IsValid env s v)
  loop_op-IsValid advance env s m v =
      Ensures-bind (λ r. IsValid r.0) (advance_commit_index run s m) (λ r. ok (r.1, r.2))
        λ r e. Ensures-ok (λ q. IsValid q.0) (r.1, r.2) (advance-IsValid s m v r e)
  loop_op-IsValid check_timeout env s m v =
      Ensures-bind (λ r. IsValid r.0) (timeout env s) (λ r. ok (r.1, m))
        λ r e.
          let step =
            Returns-at (λ r. TimeoutStep env s r.0 r.1) (timeout env s) r e (timeout_lem env s v) in
          Ensures-ok (λ q. IsValid q.0) (r.1, m) step.valid
  loop_op-IsValid claim env s m v =
      Ensures-bind (λ r. IsValid r.0) (become_leader env s) (λ s'. ok (s', m))
        λ s' e.
          let step =
            Returns-at (LeaderStep s) (become_leader env s) s' e (become_leader_lem env s v) in
          Ensures-ok (λ q. IsValid q.0) (s', m) step.valid

  NodeStep-IsValid :
      {a b : Node} (st : NodeStep a b) → IsSound st → IsValid a.server → IsValid b.server
  NodeStep-IsValid (round_begun idle going) sound v = v
  NodeStep-IsValid {a} (looped op ops env s' m' due e) sound v =
      loop_op-IsValid op env a.server a.machine v (s', m') e
  NodeStep-IsValid {a} (vote_requested env req rsp s' e) sound v =
      (Returns-at (λ r. VoteStep req a.server r.0 r.1) (handle_request_vote env req a.server)
        (rsp, s') e (handle_request_vote_lem env req a.server v)).valid
  NodeStep-IsValid {a} (vote_answered env i req rsp s' e) lt v =
      (Returns-at (AnswerStep i req rsp a.server) (handle_vote_response env i req rsp a.server) s' e
        (handle_vote_response_lem env i req rsp a.server v lt)).valid
  NodeStep-IsValid {a} (entries_received spare env req rsp s' e) storable v =
      (Returns-at (λ r. AppendStep req a.server r.0 r.1)
        (handle_append_entries spare env req a.server) (rsp, s') e
        (handle_append_entries_lem spare env req a.server v storable)).valid
  NodeStep-IsValid {a} (entries_answered env i req rsp s' e) (lt, fits) v =
      (Returns-at (AckStep i req rsp a.server) (handle_append_response env i req rsp a.server) s' e
        (handle_append_response_lem env i req rsp a.server v lt fits)).valid
  NodeStep-IsValid {a} (submitted cs chans s' e) storable v =
      (Returns-at (λ r. SubmitStep cs a.server r.0 r.1) (apply_commands cs a.server) (chans, s') e
        (apply_commands_lem cs a.server v storable)).valid
  NodeStep-IsValid {a} (joined i x r s' e) (ids, id) v =
      (Returns-at (λ r. AddStep i x a.server r.0 r.1) (add_server i x a.server) (r, s') e
        (add_server_lem i x a.server v ids id)).valid
  NodeStep-IsValid stopped sound v = record {
    placed = v.placed;
    rooted = v.rooted;
    started = v.started;
    storable = v.storable;
  }

  -- A server that is valid stays valid in every run of steps that return, of its loop and of its
  -- handlers in any order, if the steps are sound: the commands that are submitted and the entries
  -- that are received fit a log slot, and decode if they are marked as config changes; an answer is
  -- to a member that is there, and one to entries is to a request whose last index is below
  -- 2 ^ 64 - 1; the ids of the members and of a new one are of 64 bits when a server joins.
  pub NodeRun-IsValid :
      {a b : Node} → IsValid a.server → (r : NodeRun a b) → AllSound r → IsValid b.server
  NodeRun-IsValid v at_start sound = v
  NodeRun-IsValid v (then_step r st) (before, sound) =
      NodeStep-IsValid st sound (NodeRun-IsValid v r before)
