-- ===== src/Raft/Election/Restarted.antt =====
-- Voting after a restart.
use navi_kv.Prelude.{◌-◌, ◌≡◌, ◌∙◌}
use navi_kv.Prelude.{true, arith}
use navi_kv.Prelude.{ok, Returns, Returns-map}
use navi_kv.Prelude.{length}
use navi_kv.Raft.State.{Server, Env}
use navi_kv.Raft.Cluster.{has_id}
use navi_kv.Raft.Invariant.{IsValid, own_vote}
use navi_kv.Raft.Persistence.{restore}
use navi_kv.Raft.Persistence.Restart.{NoVotes, restore_forgets_vote}
use navi_kv.Raft.Election.{RequestVoteRequest, handle_request_vote, log_ok}
use navi_kv.Raft.Election.Voting.{
  VoteStep, handle_request_vote_lem, may_grant, last_term, log_ok-is_up_to_date,
}

granted_if_free :
    (req : RequestVoteRequest) (s : Server)
    → own_vote s ≡ 0
    → req.term ≡ s.current_term
    → log_ok req (last_term s.log) (length s.log - 1) ≡ true
    → may_grant req s ≡ true
unfolding may_grant
granted_if_free req s o t l = ground (arith, log_ok-is_up_to_date req s.log)

-- So a server that granted its vote to one candidate and was restarted in that term grants a
-- request of any other candidate of the same term whose log is good enough.
pub votes_again_after_restart :
    (env : Env) (req : RequestVoteRequest) (s s' : Server)
    → NoVotes s.base_cluster
    → restore s ≡ ok s'
    → has_id s.id s.base_cluster ≡ true
    → IsValid s'
    → req.term ≡ s'.current_term
    → log_ok req (last_term s'.log) (length s'.log - 1) ≡ true
    → Returns (λ r. r.0.vote_granted ≡ true) (handle_request_vote env req s')
votes_again_after_restart env req s s' votes e rooted v t l =
    let forgotten = restore_forgets_vote s s' votes rooted e in
    Returns-map (λ r. VoteStep req s' r.0 r.1) (λ r. r.0.vote_granted ≡ true)
      (handle_request_vote env req s') (handle_request_vote_lem env req s' v)
      λ r p step. step.granted ∙ granted_if_free req s' forgotten t l
