-- ===== src/Raft/Election/Terms.antt =====
-- What `update_term` does to a valid server.
use navi_kv.Prelude.{ℕ, max, ◌≡◌, refl, sym, ap, ◌∙◌}
use navi_kv.Prelude.{Bool, true, false, arith}
use navi_kv.Prelude.{ltb, if◌then◌else◌, Bool-cases}
use navi_kv.Prelude.{ok, Returns, modify}
use navi_kv.Prelude.{inl, inr}
use navi_kv.Raft.State.{Server, Env, follower, with_vote}
use navi_kv.Raft.Invariant.{
  IsValid, IsValid-storage, set_voted_for-IsValid, own_vote, vote_at-modify_self, IsPlaced-lt,
}
use navi_kv.Raft.Persistence.Total.{persist_total}
use navi_kv.Raft.Election.{update_term, step_down, reset_election_timeout}

-- `s'` is the server after `updateTerm` with a message of term `t`: the larger term, with no vote
-- and as a follower where the term is new; the log, the commit index and the membership stay.
pub record TermStep (t : ℕ) (s : Server) (transitioned : Bool) (s' : Server) : Type 0 where
  pub told : transitioned ≡ ltb s.current_term t
  pub current_term : s'.current_term ≡ max s.current_term t
  pub vote : own_vote s' ≡ (if ltb s.current_term t then 0 else own_vote s)
  pub state : s'.state ≡ (if ltb s.current_term t then follower else s.state)
  pub log : s'.log ≡ s.log
  pub commit_index : s'.commit_index ≡ s.commit_index
  pub id : s'.id ≡ s.id
  pub cluster :
      s'.cluster
      ≡ (if ltb s.current_term t then modify s.cluster s.cluster_index (with_vote 0) else s.cluster)
  pub base : s'.base_cluster ≡ s.base_cluster
  pub valid : IsValid s'

step_down-IsValid : (t : ℕ) (s : Server) → IsValid s → IsValid (step_down t s)
step_down-IsValid t s v = record {
  placed = v.placed;
  rooted = v.rooted;
  started = v.started;
  storable = v.storable;
}

pub reset_election_timeout-IsValid :
    (env : Env) (s : Server) → IsValid s → IsValid (reset_election_timeout env s)
unfolding reset_election_timeout
reset_election_timeout-IsValid env s v = record {
  placed = v.placed;
  rooted = v.rooted;
  started = v.started;
  storable = v.storable;
}

-- The branch of a new term.
newer_term :
    (env : Env) (t : ℕ) (s : Server)
    → IsValid s
    → ltb s.current_term t ≡ true
    → Returns (λ r. TermStep t s r.0 r.1) (update_term env t s)
unfolding update_term
newer_term env t s v newer =
    let (s₁, e₁, v₁, p₁) = set_voted_for-IsValid 0 (step_down t s) (step_down-IsValid t s v) in
    let (m, e₂) =
      persist_total false 0 (reset_election_timeout env s₁)
        (reset_election_timeout-IsValid env s₁ v₁) in
    let vote : own_vote s₁ ≡ 0 = rw p₁ (
      vote_at-modify_self (with_vote 0) s.cluster s.cluster_index 0
        (IsPlaced-lt s.id s.cluster s.cluster_index v.placed) (λ x. refl)) in
    rw (newer, e₁, e₂)
      (record {
        told = sym newer;
        current_term = ap (λ (x : Server). x.current_term) p₁ ∙ ground arith;
        vote = rw newer vote;
        state = rw newer (ap (λ (x : Server). x.state) p₁);
        log = ap (λ (x : Server). x.log) p₁;
        commit_index = ap (λ (x : Server). x.commit_index) p₁;
        id = ap (λ (x : Server). x.id) p₁;
        cluster = rw newer (ap (λ (x : Server). x.cluster) p₁);
        base = ap (λ (x : Server). x.base_cluster) p₁;
        valid =
            IsValid-storage (reset_election_timeout env s₁) m
              (reset_election_timeout-IsValid env s₁ v₁);
      })

-- On a valid server `updateTerm` does not panic, and keeps the server valid.
pub update_term-Returns :
    (env : Env) (t : ℕ) (s : Server)
    → IsValid s
    → Returns (λ r. TermStep t s r.0 r.1) (update_term env t s)
update_term-Returns env t s v = elim (Bool-cases (ltb s.current_term t)) [
  | inl newer ↦ newer_term env t s v newer
  | inr older ↦
      unfold update_term in
      rw older (record {
        told = sym older;
        current_term = ground arith;
        vote = rw older;
        state = rw older;
        log = refl;
        commit_index = refl;
        id = refl;
        cluster = rw older refl;
        base = refl;
        valid = v;
      })
]

pub update_term_same :
    (env : Env) (t : ℕ) (s : Server)
    → ltb s.current_term t ≡ false
    → update_term env t s ≡ ok (false, s)
unfolding update_term
update_term_same env t s older = rw older
