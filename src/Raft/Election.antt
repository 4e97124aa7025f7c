-- ===== src/Raft/Election.antt =====
-- navi/election.go. An operation runs under the mutex, so it is one function of the state. A
-- goroutine of `requestVote` is two: the request that it builds, and what it does with the answer.
pub mod Terms
pub mod Voting
pub mod Leading
pub mod Campaign
pub mod Answers
pub mod StaleVotes
pub mod OneVote
pub mod Restarted
use navi_kv.Prelude.{ℕ, suc, ◌+◌, ◌-◌, ◌*◌, ◌/◌}
use navi_kv.Prelude.{Bool, true, false, not, ◌&&◌, ◌||◌, none, List, [], ◌∷◌, ◌++◌, map}
use navi_kv.Prelude.{ltb, leb, ◌==◌, if◌then◌else◌, add64}
use navi_kv.Prelude.{◌>>=◌, Outcome, ok, panic, or_panic}
use navi_kv.Prelude.{length, get_elem?, modify}
use navi_kv.Bytes.{Bytes}
use navi_kv.Raft.State.{ClusterMember, Server, Env, leader, follower, candidate}
use navi_kv.Raft.State.{get_voted_for, set_voted_for, last_entry, last_index, with_vote}
use navi_kv.Raft.Persistence.{persist}

pub record RequestVoteRequest : Type 0 where
  pub term : ℕ
  pub candidate_id : ℕ
  pub last_log_index : ℕ
  pub last_log_term : ℕ

pub record RequestVoteResponse : Type 0 where
  pub term : ℕ
  pub vote_granted : Bool

-- The interval is `rand.Intn(heartbeatMs*2) + heartbeatMs*2` milliseconds.
unfoldable pub reset_election_timeout : Env → Server → Server
reset_election_timeout env s = record s {
  election_timeout = env.later + (env.roll + s.heartbeat_ms * 2);
}

-- The state that `updateTerm` writes before it touches the vote.
abbrev pub step_down : ℕ → Server → Server
step_down term s = record s {
  current_term = term;
  state = follower;
  pending_config_change_index = 0;
}

unfoldable pub update_term : Env → ℕ → Server → Outcome (Bool × Server)
unfolding set_voted_for reset_election_timeout
update_term env term s =
    if ltb s.current_term term
    then (do
      s₁ ← set_voted_for 0 (step_down term s)
      s₂ ← persist false 0 (reset_election_timeout env s₁)
      ok (true, s₂))
    else ok (false, s)

-- The own entry gets the own id as its vote, all others 0; `i` counts from the front.
unfoldable pub own_votes : ℕ → ℕ → ℕ → List ClusterMember → List ClusterMember
own_votes i index self [] = []
own_votes i index self (m ∷ ms) =
    with_vote (if i == index then self else 0) m ∷ own_votes (suc i) index self ms

-- What `timeout` has set when it resets the timer.
abbrev pub start_election : Server → Server
start_election s = record s {
  state = candidate;
  current_term = add64 s.current_term 1;
  cluster = own_votes 0 s.cluster_index s.id s.cluster;
}

-- The Boolean says whether votes are requested.
unfoldable pub timeout : Env → Server → Outcome (Bool × Server)
unfolding own_votes reset_election_timeout
timeout env s =
    if s.passive
    then ok (false, s)
    else if ltb s.election_timeout env.now
    then (do s₁ ← persist false 0 (reset_election_timeout env (start_election s)); ok (true, s₁))
    else ok (false, s)

-- The request to the member at `i`, with the address that it goes to.
unfoldable pub vote_request : ℕ → Server → Outcome (Bytes × RequestVoteRequest)
unfolding last_entry last_index
vote_request i s = do
  e ← last_entry s
  m ← or_panic (get_elem? s.cluster i)
  let index = last_index s
  ok (
    m.address,
    record {
      term = s.current_term;
      candidate_id = s.id;
      last_log_index = index;
      last_log_term = e.term;
    },
  )

-- `s.cluster[i].votedFor = s.id`
unfoldable pub record_vote : ℕ → Server → Outcome Server
record_vote i s =
    if ltb i (length s.cluster)
    then ok (record s { cluster = modify s.cluster i (with_vote s.id) })
    else panic

unfoldable pub handle_vote_response :
    Env → ℕ → RequestVoteRequest → RequestVoteResponse → Server → Outcome Server
unfolding update_term record_vote
handle_vote_response env i req rsp s = do
  (transitioned, s₁) ← update_term env rsp.term s
  if transitioned || not (rsp.term == req.term)
      then ok s₁
      else if rsp.vote_granted
      then record_vote i s₁
      else ok s₁

-- Whether the candidate's log is at least as up to date.
unfoldable pub log_ok : RequestVoteRequest → ℕ → ℕ → Bool
log_ok req last_term last_idx =
    ltb last_term req.last_log_term
    || (req.last_log_term == last_term && leb last_idx req.last_log_index)

abbrev vote_reply : ℕ → Bool → RequestVoteResponse
vote_reply t g = record { term = t; vote_granted = g }

-- The part of the handler behind `updateTerm`.
unfoldable pub decide_vote :
    Env → RequestVoteRequest → Server → Outcome (RequestVoteResponse × Server)
unfolding last_entry last_index log_ok get_voted_for set_voted_for reset_election_timeout
decide_vote env req s =
    if ltb req.term s.current_term then ok (vote_reply s.current_term false, s) else (do
      e ← last_entry s
      vote ← get_voted_for s
      if req.term == s.current_term
            && log_ok req e.term (last_index s)
            && (vote == 0 || vote == req.candidate_id)
          then (do
            s₁ ← set_voted_for req.candidate_id s
            s₂ ← persist false 0 (reset_election_timeout env s₁)
            ok (vote_reply s.current_term true, s₂))
          else ok (vote_reply s.current_term false, s))

unfoldable pub handle_request_vote :
    Env → RequestVoteRequest → Server → Outcome (RequestVoteResponse × Server)
unfolding update_term decide_vote
handle_request_vote env req s = do
  (transitioned, s₁) ← update_term env req.term s
  decide_vote env req s₁

-- The loop of `becomeLeader`: `quorum` less one for each own vote, down to 0.
unfoldable pub votes_missing : ℕ → ℕ → List ClusterMember → ℕ
votes_missing self quorum [] = quorum
votes_missing self quorum (m ∷ ms) =
    votes_missing self (if m.voted_for == self && ltb 0 quorum then quorum - 1 else quorum) ms

abbrev pub quorum_of : List ClusterMember → ℕ
quorum_of cluster = length cluster / 2 + 1

abbrev reset_indexes : ℕ → ClusterMember → ClusterMember
reset_indexes next m = record m { next_index = next; match_index = 0 }

-- `map` over a cluster, as the program's loops over `s.cluster` do it.
unfoldable pub reset_cluster : ℕ → List ClusterMember → List ClusterMember
reset_cluster next [] = []
reset_cluster next (m ∷ ms) = reset_indexes next m ∷ reset_cluster next ms

-- The new leader with its no-op entry, before it persists.
abbrev pub take_office : Server → Server
take_office s = record s {
  cluster = reset_cluster (length s.log + 1) s.cluster;
  state = leader;
  log = s.log ++ record { command = []; term = s.current_term; result = none } ∷ [];
}

unfoldable pub become_leader : Env → Server → Outcome Server
unfolding votes_missing reset_cluster
become_leader env s =
    if votes_missing s.id (quorum_of s.cluster) s.cluster == 0
    then (do s₁ ← persist true 1 (take_office s); ok (record s₁ { heartbeat_timeout = env.now }))
    else ok s
