-- ===== src/Raft/Election/OneVote.antt =====
-- A server votes for one candidate in a term, whatever it does in between in elections. (What it
-- does between a vote and a rebuild of its cluster: see `Raft.Persistence`.)
use navi_kv.Prelude.{ℕ, ◌+◌, ◌≤◌, ◌<◌, ◌≡◌, ◌≢◌, refl, sym, ◌∙◌}
use navi_kv.Prelude.{Bool, true, false, arith}
use navi_kv.Prelude.{ltb, u64_limit, Bool-cases}
use navi_kv.Prelude.{ok, Returns-at}
use navi_kv.Prelude.{length}
use navi_kv.Prelude.{inl, inr}
use navi_kv.Raft.State.{Server, Env}
use navi_kv.Raft.Invariant.{IsValid, own_vote}
use navi_kv.Raft.Election.{RequestVoteRequest, RequestVoteResponse}
use navi_kv.Raft.Election.{timeout, become_leader, handle_vote_response, handle_request_vote}
use navi_kv.Raft.Election.Voting.{VoteStep, handle_request_vote_lem, may_grant}
use navi_kv.Raft.Election.Leading.{LeaderStep, become_leader_lem}
use navi_kv.Raft.Election.Campaign.{TimeoutStep, timeout_lem, has_timed_out}
use navi_kv.Raft.Election.Answers.{AnswerStep, handle_vote_response_lem}

-- One operation of the election code that returns with `s'`. The answers are to other members, as
-- `requestVote` leaves the server itself out; terms stay below the range of their type.
pub data ElectionStep (s s' : Server) : Type 0 where
  vote_requested :
      (env : Env) (req : RequestVoteRequest) (rsp : RequestVoteResponse)
      → handle_request_vote env req s ≡ ok (rsp, s')
      → ElectionStep s s'
  timed_out :
      (env : Env) (campaigns : Bool)
      → s.current_term + 1 < u64_limit
      → timeout env s ≡ ok (campaigns, s')
      → ElectionStep s s'
  answered :
      (env : Env) (i : ℕ) (req : RequestVoteRequest) (rsp : RequestVoteResponse)
      → i < length s.cluster
      → i ≢ s.cluster_index
      → handle_vote_response env i req rsp s ≡ ok s'
      → ElectionStep s s'
  led : (env : Env) → become_leader env s ≡ ok s' → ElectionStep s s'

pub data ElectionRun (s : Server) : Server → Type 0 where
  here : ElectionRun s s
  next : {t u : Server} → ElectionRun s t → ElectionStep t u → ElectionRun s u

-- The term never falls, and within a term a vote that is given stays.
pub record KeepsVote (s s' : Server) : Type 0 where
  pub later : s.current_term ≤ s'.current_term
  pub same : s'.current_term ≡ s.current_term → own_vote s ≢ 0 → own_vote s' ≡ own_vote s

KeepsVote-trans : {s t u : Server} → KeepsVote s t → KeepsVote t u → KeepsVote s u
KeepsVote-trans a b = record {
  later = omega (arith, a.later, b.later);
  same = λ e ne.
      let e₁ : _ ≡ _ = a.same (omega (arith, a.later, b.later)) ne in
      b.same (omega (arith, a.later, b.later)) (λ z. ne (sym e₁ ∙ z)) ∙ e₁;
}

vote_requested_keeps :
    (req : RequestVoteRequest) (rsp : RequestVoteResponse) (s s' : Server)
    → VoteStep req s rsp s'
    → KeepsVote s s'
unfolding may_grant
vote_requested_keeps req rsp s s' step = record {
  later = omega (arith, step.current_term);
  same = λ e ne.
      let old : ltb s.current_term req.term ≡ false = ground (arith, step.current_term) in
      ground (arith, step.vote, old);
}

timed_out_keeps :
    (env : Env) (b : Bool) (s s' : Server)
    → s.current_term + 1 < u64_limit
    → TimeoutStep env s b s'
    → KeepsVote s s'
timed_out_keeps env b s s' fits step = elim (Bool-cases (has_timed_out env s)) [
  | inl late ↦
      let e : s'.current_term ≡ s.current_term + 1 = step.current_term late ∙ omega arith in
      record { later = omega arith; same = λ h ne. absurd (omega arith) }
  | inr early ↦ rw (step.idle early) (record { later = omega arith; same = λ h ne. refl })
]

-- Every step of the election code keeps a valid server valid, and keeps its vote.
ElectionStep-KeepsVote :
    {s s' : Server} → IsValid s → ElectionStep s s' → IsValid s' × KeepsVote s s'
ElectionStep-KeepsVote {s} {s'} v (vote_requested env req rsp e) =
    let step =
      Returns-at (λ r. VoteStep req s r.0 r.1) (handle_request_vote env req s) (rsp, s') e
        (handle_request_vote_lem env req s v) in
    (step.valid, vote_requested_keeps req rsp s s' step)
ElectionStep-KeepsVote {s} {s'} v (timed_out env b fits e) =
    let step =
      Returns-at (λ r. TimeoutStep env s r.0 r.1) (timeout env s) (b, s') e (timeout_lem env s v) in
    (step.valid, timed_out_keeps env b s s' fits step)
ElectionStep-KeepsVote {s} {s'} v (answered env i req rsp lt ne e) =
    let step =
      Returns-at (AnswerStep i req rsp s) (handle_vote_response env i req rsp s) s' e
        (handle_vote_response_lem env i req rsp s v lt) in
    let vote = step.vote ne in
    let term = step.current_term in
    (step.valid, record { later = omega arith; same = λ h k. ground arith })
ElectionStep-KeepsVote {s} {s'} v (led env e) =
    let step = Returns-at (LeaderStep s) (become_leader env s) s' e (become_leader_lem env s v) in
    (step.valid, record { later = omega (arith, step.current_term); same = λ h k. step.vote })

pub ElectionRun-KeepsVote :
    {s s' : Server} → IsValid s → ElectionRun s s' → IsValid s' × KeepsVote s s'
ElectionRun-KeepsVote v here = (v, record { later = omega arith; same = λ h k. refl })
ElectionRun-KeepsVote v (next r st) =
    let (v₁, k₁) = ElectionRun-KeepsVote v r in
    let (v₂, k₂) = ElectionStep-KeepsVote v₁ st in (v₂, KeepsVote-trans k₁ k₂)

-- A granted request leaves its candidate as the vote.
granted_vote :
    (req : RequestVoteRequest) (rsp : RequestVoteResponse) (s s' : Server)
    → VoteStep req s rsp s'
    → rsp.vote_granted ≡ true
    → (own_vote s' ≡ req.candidate_id) × (s'.current_term ≡ rsp.term) × (rsp.term ≡ req.term)
unfolding may_grant
granted_vote req rsp s s' step g =
    ground (arith, step.granted, step.vote, step.told, step.current_term)

-- What is granted while a vote is held in the term.
granted_again :
    (req : RequestVoteRequest) (rsp : RequestVoteResponse) (s s' : Server)
    → VoteStep req s rsp s'
    → rsp.vote_granted ≡ true
    → rsp.term ≡ s.current_term
    → own_vote s ≢ 0
    → own_vote s ≡ req.candidate_id
unfolding may_grant
granted_again req rsp s s' step g e ne = ground (arith, step.granted, step.told)

-- A valid server that grants the vote request of a candidate whose id is not 0 and later, after any
-- steps of the election code, grants another one in the same term has granted both to one
-- candidate.
pub one_vote_per_term :
    (env₁ env₂ : Env) (a b : RequestVoteRequest) (ra rb : RequestVoteResponse) {s s₁ s₂ s₃ : Server}
    → IsValid s
    → a.candidate_id ≢ 0
    → handle_request_vote env₁ a s ≡ ok (ra, s₁)
    → ra.vote_granted ≡ true
    → ElectionRun s₁ s₂
    → handle_request_vote env₂ b s₂ ≡ ok (rb, s₃)
    → rb.vote_granted ≡ true
    → rb.term ≡ ra.term
    → b.candidate_id ≡ a.candidate_id
one_vote_per_term env₁ env₂ a b ra rb {s} {s₁} {s₂} {s₃} v named ea ga run eb gb same =
    let first =
      Returns-at (λ r. VoteStep a s r.0 r.1) (handle_request_vote env₁ a s) (ra, s₁) ea
        (handle_request_vote_lem env₁ a s v) in
    let (v₂, kept) = ElectionRun-KeepsVote first.valid run in
    let second =
      Returns-at (λ r. VoteStep b s₂ r.0 r.1) (handle_request_vote env₂ b s₂) (rb, s₃) eb
        (handle_request_vote_lem env₂ b s₂ v₂) in
    let (vote, term, t) = granted_vote a ra s s₁ first ga in
    let now : rb.term ≡ s₂.current_term =
      omega (arith, second.told, kept.later, (granted_vote b rb s₂ s₃ second gb).2) in
    let held = kept.same (omega arith) (λ z. named (sym vote ∙ z)) ∙ vote in
    sym (granted_again b rb s₂ s₃ second gb now (λ z. named (sym held ∙ z))) ∙ held
