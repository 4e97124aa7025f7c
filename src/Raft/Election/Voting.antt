-- ===== src/Raft/Election/Voting.antt =====
-- `HandleRequestVoteRequest`: what is granted, and what it changes.
use navi_kv.Prelude.{ℕ, suc, ◌+◌, ◌-◌, ◌<◌, max, ◌≡◌, refl, ap, ◌∙◌}
use navi_kv.Prelude.{Bool, false, ◌&&◌, ◌||◌, some, List, [], ◌∷◌, arith}
use navi_kv.Prelude.{ltb, leb, ◌==◌, if◌then◌else◌, Bool-cases}
use navi_kv.Prelude.{Returns, Returns-bind, Returns-map}
use navi_kv.Prelude.{length, get_elem?}
use navi_kv.Prelude.{inl, inr}
use navi_kv.Raft.State.{Entry, Server, Env, follower, with_vote}
use navi_kv.Raft.Invariant.{
  IsValid, IsValid-storage, set_voted_for-IsValid, own_vote, vote_at-modify_self, IsPlaced-lt,
}
use navi_kv.Raft.Invariant.{get_voted_for-own_vote}
use navi_kv.Raft.Persistence.Total.{persist_total}
use navi_kv.Raft.Election.{
  update_term, reset_election_timeout, decide_vote, handle_request_vote, log_ok,
}
use navi_kv.Raft.Election.{RequestVoteRequest, RequestVoteResponse}
use navi_kv.Raft.Election.Terms.{TermStep, update_term-Returns, reset_election_timeout-IsValid}

-- The term of the last entry; 0 for no entry.
abbrev pub last_term : List Entry → ℕ
last_term [] = 0
last_term (e ∷ []) = e.term
last_term (e ∷ f ∷ es) = last_term (f ∷ es)

-- The vote that the server holds in the larger of its term and `t`.
abbrev pub vote_in : ℕ → Server → ℕ
vote_in t s = if ltb s.current_term t then 0 else own_vote s

-- Whether the candidate's last entry is at least as new as that of a log: its term is newer, or it
-- is the same and the candidate's log is no shorter.
abbrev is_up_to_date : RequestVoteRequest → List Entry → Bool
is_up_to_date req log =
    ltb (last_term log) req.last_log_term
    || (last_term log == req.last_log_term && leb (length log) (req.last_log_index + 1))

pub log_ok-is_up_to_date :
    (req : RequestVoteRequest) (log : List Entry)
    → log_ok req (last_term log) (length log - 1) ≡ is_up_to_date req log
unfolding log_ok
log_ok-is_up_to_date req log = ground arith

-- When a request is granted: it is not of an older term, its log is at least as up to date, and
-- the vote of the term is free or the candidate's already.
unfoldable pub may_grant : RequestVoteRequest → Server → Bool
may_grant req s =
    leb s.current_term req.term
    && is_up_to_date req s.log
    && (vote_in req.term s == 0 || vote_in req.term s == req.candidate_id)

pub record VoteStep (req : RequestVoteRequest) (s : Server) (rsp : RequestVoteResponse)
    (s' : Server) : Type 0 where
  pub granted : rsp.vote_granted ≡ may_grant req s
  pub told : rsp.term ≡ max s.current_term req.term
  pub current_term : s'.current_term ≡ max s.current_term req.term
  pub vote : own_vote s' ≡ (if may_grant req s then req.candidate_id else vote_in req.term s)
  pub state : s'.state ≡ (if ltb s.current_term req.term then follower else s.state)
  pub log : s'.log ≡ s.log
  pub commit_index : s'.commit_index ≡ s.commit_index
  pub valid : IsValid s'

last_entry_lem :
    (es : List Entry)
    → 0 < length es
    → (e : Entry) × (get_elem? es (length es - 1) ≡ some e) × (e.term ≡ last_term es)
last_entry_lem [] h = elim h [ ]
last_entry_lem (e ∷ []) h = (e, refl, refl)
last_entry_lem (e ∷ f ∷ es) h =
    let (x, p, q) = last_entry_lem (f ∷ es) (omega arith) in
    let i : length (e ∷ f ∷ es) - 1 ≡ suc (length (f ∷ es) - 1) = omega arith in (x, rw i p, q)

-- What `decide_vote` does at the term that `update_term` has left.
pub record Decision (req : RequestVoteRequest) (s : Server) (rsp : RequestVoteResponse)
    (s' : Server) : Type 0 where
  pub granted : rsp.vote_granted ≡ (
      leb s.current_term req.term
      && req.term == s.current_term
      && log_ok req (last_term s.log) (length s.log - 1)
      && (own_vote s == 0 || own_vote s == req.candidate_id))
  pub told : rsp.term ≡ s.current_term
  pub current_term : s'.current_term ≡ s.current_term
  pub vote : own_vote s' ≡ (if rsp.vote_granted then req.candidate_id else own_vote s)
  pub state : s'.state ≡ s.state
  pub log : s'.log ≡ s.log
  pub commit_index : s'.commit_index ≡ s.commit_index
  pub valid : IsValid s'

decide_vote-Returns :
    (env : Env) (req : RequestVoteRequest) (s : Server)
    → IsValid s
    → Returns (λ r. Decision req s r.0 r.1) (decide_vote env req s)
unfolding decide_vote
decide_vote-Returns env req s v =
    let (e, last, same) = last_entry_lem s.log v.started in
    let vote = get_voted_for-own_vote s v in
    let (s₁, e₁, v₁, p₁) = set_voted_for-IsValid req.candidate_id s v in
    let (m, e₂) =
      persist_total false 0 (reset_election_timeout env s₁)
        (reset_election_timeout-IsValid env s₁ v₁) in
    let vote' : own_vote s₁ ≡ req.candidate_id = rw p₁ (
      vote_at-modify_self (with_vote req.candidate_id) s.cluster s.cluster_index req.candidate_id
        (IsPlaced-lt s.id s.cluster s.cluster_index v.placed) (λ x. refl)) in
    let grant : Bool =
      req.term == s.current_term
      && log_ok req e.term (length s.log - 1)
      && (own_vote s == 0 || own_vote s == req.candidate_id) in
    elim (Bool-cases (ltb req.term s.current_term)) [
      | inl old ↦ rw old (record {
        granted = ground arith;
        told = refl;
        current_term = refl;
        vote = refl;
        state = refl;
        log = refl;
        commit_index = refl;
        valid = v;
      })
      | inr current ↦ elim (Bool-cases grant) [
        | inl yea ↦
            rw (current, last, vote, yea, e₁, e₂)
              (record {
                granted = ground (arith, same);
                told = refl;
                current_term = ap (λ (x : Server). x.current_term) p₁;
                vote = vote';
                state = ap (λ (x : Server). x.state) p₁;
                log = ap (λ (x : Server). x.log) p₁;
                commit_index = ap (λ (x : Server). x.commit_index) p₁;
                valid =
                    IsValid-storage (reset_election_timeout env s₁) m
                      (reset_election_timeout-IsValid env s₁ v₁);
              })
        | inr nay ↦
            rw (current, last, vote, nay)
              (record {
                granted = ground (arith, same);
                told = refl;
                current_term = refl;
                vote = refl;
                state = refl;
                log = refl;
                commit_index = refl;
                valid = v;
              })
      ]
    ]

module _ (req : RequestVoteRequest) (s : Server) where
  combine :
      {b : Bool} {s₁ s₂ : Server} {rsp : RequestVoteResponse}
      → TermStep req.term s b s₁
      → Decision req s₁ rsp s₂
      → VoteStep req s rsp s₂
  unfolding may_grant
  combine {b} {s₁} {s₂} {rsp} step d =
      let granted : rsp.vote_granted ≡ may_grant req s =
        d.granted ∙ rw (step.log, step.vote, step.current_term) (same_test (vote_in req.term s)) in
      record {
        granted = granted;
        told = d.told ∙ step.current_term;
        current_term = d.current_term ∙ step.current_term;
        vote =
            rw (← granted)
              (d.vote ∙ ap (λ x. if rsp.vote_granted then req.candidate_id else x) step.vote);
        state = d.state ∙ step.state;
        log = d.log ∙ step.log;
        commit_index = d.commit_index ∙ step.commit_index;
        valid = d.valid;
      }
    where
      same_test :
          (vote : ℕ)
          → (leb (max s.current_term req.term) req.term
              && req.term == max s.current_term req.term
              && log_ok req (last_term s.log) (length s.log - 1)
              && (vote == 0 || vote == req.candidate_id))
            ≡ (leb s.current_term req.term
                && is_up_to_date req s.log
                && (vote == 0 || vote == req.candidate_id))
      same_test vote = ground (arith, log_ok-is_up_to_date req s.log)

-- On every valid server and every request, `HandleRequestVoteRequest` returns, with the larger of
-- the two terms. It grants exactly when the request is of no older term, the candidate's last entry
-- has a newer term or the same term and no smaller index, and the vote of the term is free or the
-- candidate's. The candidate is then the vote; otherwise
-- the vote of the term stays. A new term makes the server a follower. Log and commit index stay,
-- and the server stays valid.
pub handle_request_vote_lem :
    (env : Env) (req : RequestVoteRequest) (s : Server)
    → IsValid s
    → Returns (λ r. VoteStep req s r.0 r.1) (handle_request_vote env req s)
unfolding handle_request_vote
handle_request_vote_lem env req s v =
    Returns-bind (λ r. TermStep req.term s r.0 r.1) (λ r. VoteStep req s r.0 r.1)
      (update_term env req.term s) (λ r. decide_vote env req r.1)
      (update_term-Returns env req.term s v)
      λ r e step.
        Returns-map (λ q. Decision req r.1 q.0 q.1) (λ q. VoteStep req s q.0 q.1)
          (decide_vote env req r.1) (decide_vote-Returns env req r.1 step.valid)
          λ q e' d. combine req s step d
