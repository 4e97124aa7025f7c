-- ===== src/Tests/Elections.antt =====
-- Runs of the election, and its theorems at concrete inputs.
use navi_kv.Prelude.{ℕ, ◌-◌, ◌<◌, ◌≡◌, refl}
use navi_kv.Prelude.{true, false, [], ◌∷◌, arith}
use navi_kv.Prelude.{ok, Returns}
use navi_kv.Prelude.{length}
use navi_kv.Raft.State.{Server, follower, leader, candidate}
use navi_kv.Raft.Config.{new_member}
use navi_kv.Raft.Election.StaleVotes.{stale_votes_elect}
use navi_kv.Raft.Invariant.{IsValid, IsStorable, own_vote, vote_at}
use navi_kv.Raft.Cluster.{has_id}
use navi_kv.Raft.Persistence.{restore, persist}
use navi_kv.Raft.Election.{log_ok}
use navi_kv.Raft.Persistence.Restart.{NoVotes, restore_forgets_vote}
use navi_kv.Raft.Election.{
  RequestVoteRequest, RequestVoteResponse, handle_request_vote, timeout, become_leader, update_term,
}
use navi_kv.Raft.Election.{handle_vote_response}
use navi_kv.Raft.Election.Voting.{VoteStep, handle_request_vote_lem, last_term}
use navi_kv.Raft.Election.Leading.{LeaderStep, become_leader_lem, votes_for}
use navi_kv.Raft.Election.Campaign.{TimeoutStep, timeout_lem, has_timed_out}
use navi_kv.Raft.Election.Answers.{AnswerStep, handle_vote_response_lem, late_vote_counts}
use navi_kv.Raft.Election.OneVote.{here, one_vote_per_term}
use navi_kv.Raft.Election.Restarted.{votes_again_after_restart}
use navi_kv.Tests.Samples.{all_open, value_of, env, node, vote_from_1, vote_from_3}

pub plain_IsStorable : IsStorable []
unfolding all_open
plain_IsStorable = record { fits = omega arith; decodes = λ e. cc }

pub byte_IsStorable : (b : ℕ) → b < 255 → IsStorable (b ∷ [])
unfolding all_open
byte_IsStorable b h = record { fits = omega arith; decodes = λ e. absurd (ground arith) }

pub node-IsValid : IsValid node
node-IsValid = record {
  placed = (omega arith, refl);
  rooted = unfold all_open in refl;
  started = omega arith;
  storable =
      (plain_IsStorable, (byte_IsStorable 9 (omega arith), (byte_IsStorable 8 (omega arith), tt)));
}

handle_request_vote_lem_example :
    Returns (λ r. VoteStep vote_from_1 node r.0 r.1) (handle_request_vote env vote_from_1 node)
handle_request_vote_lem_example = handle_request_vote_lem env vote_from_1 node node-IsValid

-- The vote that candidate 1 is granted.
abbrev pub after_vote : RequestVoteResponse × Server
after_vote =
    value_of (record { term = 0; vote_granted = false }, node)
      (handle_request_vote env vote_from_1 node)

pub after_vote_lem : handle_request_vote env vote_from_1 node ≡ ok after_vote
unfolding all_open
after_vote_lem = refl

granted : after_vote.0.vote_granted ≡ true
unfolding all_open
granted = refl

refused_another :
    (value_of after_vote (handle_request_vote env vote_from_3 after_vote.1)).0.vote_granted ≡ false
unfolding all_open
refused_another = refl

-- Candidate 1 asks once more.
abbrev asked_again : RequestVoteResponse × Server
asked_again = value_of after_vote (handle_request_vote env vote_from_1 after_vote.1)

asked_again_lem : handle_request_vote env vote_from_1 after_vote.1 ≡ ok asked_again
unfolding all_open
asked_again_lem = refl

granted_again : asked_again.0.vote_granted ≡ true
unfolding all_open
granted_again = refl

one_term : asked_again.0.term ≡ after_vote.0.term
unfolding all_open
one_term = refl

one_vote_per_term_example : 1 ≡ vote_from_1.candidate_id
one_vote_per_term_example =
    one_vote_per_term env env vote_from_1 vote_from_1 after_vote.0 asked_again.0 node-IsValid
      (omega arith) after_vote_lem granted here asked_again_lem granted_again one_term

timeout_lem_example : Returns (λ r. TimeoutStep env node r.0 r.1) (timeout env node)
timeout_lem_example = timeout_lem env node node-IsValid

timed_out_node : has_timed_out env node ≡ true
timed_out_node = refl

-- The candidate of term 3 that the timeout makes.
abbrev campaigner : Server
campaigner = (value_of (false, node) (timeout env node)).1

campaigner-IsValid : IsValid campaigner
unfolding all_open
campaigner-IsValid = record {
  placed = (omega arith, refl);
  rooted = refl;
  started = omega arith;
  storable =
      (plain_IsStorable, (byte_IsStorable 9 (omega arith), (byte_IsStorable 8 (omega arith), tt)));
}

become_leader_lem_example : Returns (LeaderStep campaigner) (become_leader env campaigner)
become_leader_lem_example = become_leader_lem env campaigner campaigner-IsValid

-- The request of term 2 and its answer, which come late in term 3.
abbrev old_request : RequestVoteRequest
old_request = record { term = 2; candidate_id = 2; last_log_index = 2; last_log_term = 1 }

abbrev old_answer : RequestVoteResponse
old_answer = record { term = 2; vote_granted = true }

handle_vote_response_lem_example :
    Returns
      (AnswerStep 0 old_request old_answer campaigner)
      (handle_vote_response env 0 old_request old_answer campaigner)
handle_vote_response_lem_example =
    handle_vote_response_lem env 0 old_request old_answer campaigner campaigner-IsValid
      (unfold all_open in omega arith)

late_vote_counts_example :
    Returns
      (λ s'. (vote_at s'.cluster 0 ≡ campaigner.id) × (s'.current_term ≡ campaigner.current_term))
      (handle_vote_response env 0 old_request old_answer campaigner)
late_vote_counts_example =
    late_vote_counts env 0 old_request old_answer campaigner campaigner-IsValid
      (unfold all_open in omega arith) refl (unfold all_open in omega arith) refl

-- The server that voted for candidate 1, with its vote and its log in the storage, and the same
-- server after a restart.
abbrev saved : Server
saved = value_of node (persist true 0 after_vote.1)

abbrev restarted : Server
restarted = value_of node (restore saved)

saved_vote : own_vote saved ≡ 1
unfolding all_open
saved_vote = refl

restarted_lem : restore saved ≡ ok restarted
unfolding all_open
restarted_lem = refl

saved-NoVotes : NoVotes saved.base_cluster
unfolding all_open
saved-NoVotes = (refl, (refl, (refl, tt)))

saved_rooted : has_id saved.id saved.base_cluster ≡ true
unfolding all_open
saved_rooted = refl

restarted-IsValid : IsValid restarted
unfolding all_open
restarted-IsValid = record {
  placed = (omega arith, refl);
  rooted = refl;
  started = omega arith;
  storable =
      (plain_IsStorable, (byte_IsStorable 9 (omega arith), (byte_IsStorable 8 (omega arith), tt)));
}

restarted_term : vote_from_3.term ≡ restarted.current_term
unfolding all_open
restarted_term = refl

restarted_log : log_ok vote_from_3 (last_term restarted.log) (length restarted.log - 1) ≡ true
unfolding all_open
restarted_log = refl

restore_forgets_vote_example : own_vote restarted ≡ 0
restore_forgets_vote_example =
    restore_forgets_vote saved restarted saved-NoVotes saved_rooted restarted_lem

-- Candidate 3 gets the vote of term 2, which candidate 1 had.
votes_again_after_restart_example :
    Returns (λ r. r.0.vote_granted ≡ true) (handle_request_vote env vote_from_3 restarted)
votes_again_after_restart_example =
    votes_again_after_restart env vote_from_3 saved restarted saved-NoVotes restarted_lem
      saved_rooted restarted-IsValid restarted_term restarted_log

-- The two other members of three have voted for the candidate.
abbrev chosen : Server
chosen = record node {
  state = candidate;
  cluster =
      record (new_member 1 (b'a' ∷ [])) { voted_for = 2 }
      ∷ record (new_member 2 (b'b' ∷ [])) { voted_for = 2 }
      ∷ record (new_member 3 (b'c' ∷ [])) { voted_for = 2 }
      ∷ [];
}

chosen-IsValid : IsValid chosen
chosen-IsValid = record {
  placed = (omega arith, refl);
  rooted = node-IsValid.rooted;
  started = node-IsValid.started;
  storable = node-IsValid.storable;
}

stale_votes_elect_example :
    Returns
      (λ r.
        (r.1.state ≡ follower)
        × Returns (λ s'. (s'.state ≡ leader) × (s'.current_term ≡ 9)) (become_leader env r.1))
      (update_term env 9 chosen)
stale_votes_elect_example =
    stale_votes_elect env env 9 chosen chosen-IsValid (omega arith)
      (unfold votes_for in omega arith)
