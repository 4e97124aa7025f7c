-- ===== src/Raft/Election/Answers.antt =====
-- The answers to vote requests.
use navi_kv.Prelude.{ℕ, ◌<◌, max, ◌≡◌, ◌≢◌, refl, sym, ◌∙◌, subst}
use navi_kv.Prelude.{Bool, true, false, not, ◌&&◌, ◌||◌, arith}
use navi_kv.Prelude.{ltb, ◌==◌, if◌then◌else◌, Bool-cases}
use navi_kv.Prelude.{Outcome, ok, Returns, Returns-bind, Returns-map}
use navi_kv.Prelude.{length, modify}
use navi_kv.Prelude.{inl, inr}
use navi_kv.Raft.State.{Server, Env, follower, with_vote}
use navi_kv.Raft.Invariant.{IsValid, own_vote, vote_at, IsPlaced-modify}
use navi_kv.Raft.Invariant.{vote_at-modify_ne, vote_at-modify_self}
use navi_kv.Raft.Election.{RequestVoteRequest, RequestVoteResponse}
use navi_kv.Raft.Election.{update_term}
use navi_kv.Raft.Election.{record_vote, handle_vote_response}
use navi_kv.Raft.Election.Terms.{TermStep, update_term-Returns, update_term_same}

-- `s'` is the server after an answer to the vote request `req` that went to member `i`.
pub record AnswerStep (i : ℕ) (req : RequestVoteRequest) (rsp : RequestVoteResponse) (s s' : Server)
    : Type 0 where
  pub current_term : s'.current_term ≡ max s.current_term rsp.term
  pub counted :
      ltb s.current_term rsp.term ≡ false
      → rsp.term ≡ req.term
      → rsp.vote_granted ≡ true
      → s'.cluster ≡ modify s.cluster i (with_vote s.id)
  pub dropped :
      ltb s.current_term rsp.term ≡ false
      → (rsp.term == req.term && rsp.vote_granted) ≡ false
      → s' ≡ s
  pub newer :
      ltb s.current_term rsp.term ≡ true
      → (s'.cluster ≡ modify s.cluster s.cluster_index (with_vote 0)) × (s'.state ≡ follower)
  pub vote :
      i ≢ s.cluster_index → own_vote s' ≡ (if ltb s.current_term rsp.term then 0 else own_vote s)
  pub log : s'.log ≡ s.log
  pub valid : IsValid s'

-- The answer of an older term, a refusal and an answer of a newer term record no vote.
abbrev counts : RequestVoteRequest → RequestVoteResponse → Server → Bool
counts req rsp s = not (ltb s.current_term rsp.term) && (rsp.term == req.term && rsp.vote_granted)

record_vote-IsValid :
    (i : ℕ) (s : Server)
    → IsValid s
    → IsValid (record s { cluster = modify s.cluster i (with_vote s.id) })
record_vote-IsValid i s v = record {
  placed = IsPlaced-modify s.id (with_vote s.id) (λ m. refl) s.cluster i s.cluster_index v.placed;
  rooted = v.rooted;
  started = v.started;
  storable = v.storable;
}

-- The part of the handler behind `updateTerm`.
abbrev after_term : ℕ → RequestVoteRequest → RequestVoteResponse → Bool × Server → Outcome Server
after_term i req rsp r =
    if r.0 || not (rsp.term == req.term)
    then ok r.1
    else if rsp.vote_granted
    then record_vote i r.1
    else ok r.1

module _ (i : ℕ) (req : RequestVoteRequest) (rsp : RequestVoteResponse) (s : Server) where
  answer_of_new_term :
      (r : Bool × Server)
      → ltb s.current_term rsp.term ≡ true
      → TermStep rsp.term s r.0 r.1
      → Returns (AnswerStep i req rsp s) (after_term i req rsp r)
  answer_of_new_term r newer step =
      rw (step.told, newer)
        (record {
          current_term = step.current_term;
          counted = λ h. cc;
          dropped = λ h k. cc;
          newer = λ h. (rw newer at step.cluster, rw newer at step.state);
          vote = λ ne. step.vote;
          log = step.log;
          valid = step.valid;
        })

  answer_of_term :
      IsValid s
      → i < length s.cluster
      → ltb s.current_term rsp.term ≡ false
      → Returns (AnswerStep i req rsp s) (after_term i req rsp (false, s))
  unfolding record_vote
  answer_of_term v lt older = elim (Bool-cases (rsp.term == req.term && rsp.vote_granted)) [
    | inl count ↦
        let room : ltb i (length s.cluster) ≡ true = ground arith in
        let test : not (rsp.term == req.term) ≡ false = ground arith in
        let vote : rsp.vote_granted ≡ true = ground arith in
        simp (test, vote, room)
          (record {
            current_term = ground arith;
            counted = λ h k g. refl;
            dropped = λ h k. cc;
            newer = λ h. cc;
            vote =
                λ ne. rw older (vote_at-modify_ne (with_vote s.id) s.cluster i s.cluster_index ne);
            log = refl;
            valid = record_vote-IsValid i s v;
          })
    | inr drop' ↦ subst (Returns (AnswerStep i req rsp s)) (sym (dropped drop')) (record {
      current_term = ground arith;
      counted = λ h k g. absurd (ground arith);
      dropped = λ h k. refl;
      newer = λ h. cc;
      vote = λ ne. rw older;
      log = refl;
      valid = v;
    })
  ]
    where
      dropped :
          (rsp.term == req.term && rsp.vote_granted) ≡ false
          → after_term i req rsp (false, s) ≡ ok s
      dropped h = ground arith

-- On a valid server, an answer for a member that is there does not panic. The term becomes the
-- larger one. An answer that is no newer than the server's term records the vote if it is of the
-- request's term and granted, and otherwise changes nothing at all. An answer of a newer term
-- records no vote: it clears the own one and makes the server a follower. The own vote stays, or is
-- cleared by a newer term, if the answer is another member's. The log stays, and the server stays
-- valid.
pub handle_vote_response_lem :
    (env : Env) (i : ℕ) (req : RequestVoteRequest) (rsp : RequestVoteResponse) (s : Server)
    → IsValid s
    → i < length s.cluster
    → Returns (AnswerStep i req rsp s) (handle_vote_response env i req rsp s)
unfolding handle_vote_response
handle_vote_response_lem env i req rsp s v lt = elim (Bool-cases (ltb s.current_term rsp.term)) [
  | inl newer ↦
      Returns-bind (λ r. TermStep rsp.term s r.0 r.1) (AnswerStep i req rsp s)
        (update_term env rsp.term s) (after_term i req rsp) (update_term-Returns env rsp.term s v)
        λ r e step. answer_of_new_term i req rsp s r newer step
  | inr older ↦ rw (update_term_same env rsp.term s older) (answer_of_term i req rsp s v lt older)
]

-- An answer that is late: it belongs to a term that the server has left, and says that the vote of
-- that term was granted. It is counted as a vote of the current term.
pub late_vote_counts :
    (env : Env) (i : ℕ) (req : RequestVoteRequest) (rsp : RequestVoteResponse) (s : Server)
    → IsValid s
    → i < length s.cluster
    → rsp.term ≡ req.term
    → req.term < s.current_term
    → rsp.vote_granted ≡ true
    → Returns
        (λ s'. (vote_at s'.cluster i ≡ s.id) × (s'.current_term ≡ s.current_term))
        (handle_vote_response env i req rsp s)
late_vote_counts env i req rsp s v lt same late granted =
    Returns-map (AnswerStep i req rsp s)
      (λ s'. (vote_at s'.cluster i ≡ s.id) × (s'.current_term ≡ s.current_term))
      (handle_vote_response env i req rsp s) (handle_vote_response_lem env i req rsp s v lt)
      λ s' e step. (
        rw (step.counted (ground arith) same granted)
            (vote_at-modify_self (with_vote s.id) s.cluster i s.id lt (λ m. refl)),
        step.current_term ∙ omega arith,
      )
