-- ===== src/Raft/Election/StaleVotes.antt =====
-- `becomeLeader` after the server has left the term that it was elected in.
use navi_kv.Prelude.{
  ℕ, zero, suc, ◌+◌, ◌*◌, ◌≤◌, ◌<◌, ◌≡◌, ◌∙◌, arith, Bool, true, List, [], ◌∷◌, ltb, Returns,
  Returns-map, length, modify, length-modify,
}
use navi_kv.Raft.State.{ClusterMember, Server, Env, follower, leader, with_vote}
use navi_kv.Raft.Invariant.{IsValid}
use navi_kv.Raft.Election.{update_term, become_leader}
use navi_kv.Raft.Election.Terms.{TermStep, update_term-Returns}
use navi_kv.Raft.Election.Leading.{votes_for, HasMajority, LeaderStep, become_leader_lem}

-- The votes that are left when the own one is taken back.
votes_for-modify :
    (self : ℕ) (ms : List ClusterMember) (i : ℕ)
    → votes_for self ms ≤ suc (votes_for self (modify ms i (with_vote 0)))
unfolding votes_for
votes_for-modify self [] i = omega arith
votes_for-modify self (m ∷ ms) zero = ground arith
votes_for-modify self (m ∷ ms) (suc i) = ground (arith, votes_for-modify self ms i)

-- The votes of the other members are enough for a majority.
abbrev pub OthersElect : Server → Type 0
OthersElect s = length s.cluster + 2 < 2 * votes_for s.id s.cluster

still_elected :
    (t : ℕ) (s s₁ : Server) (b : Bool)
    → s.current_term < t
    → OthersElect s
    → TermStep t s b s₁
    → HasMajority s₁
still_elected t s s₁ b newer h step =
    let moved : ltb s.current_term t ≡ true = ground arith in
    let cluster : s₁.cluster ≡ modify s.cluster s.cluster_index (with_vote 0) =
      rw moved at step.cluster in
    rw (step.id, cluster)
      (omega (
        arith,
        h,
        votes_for-modify s.id s.cluster s.cluster_index,
        length-modify s.cluster s.cluster_index (with_vote 0),
      ))

-- A valid server that is told of a newer term clears its own vote but not those that it has
-- recorded of others. If those are enough for a majority, it is a follower of the new term, and
-- `becomeLeader` makes it the leader of that term, in which it has asked for no vote.
pub stale_votes_elect :
    (env env' : Env) (t : ℕ) (s : Server)
    → IsValid s
    → s.current_term < t
    → OthersElect s
    → Returns
        (λ r.
          (r.1.state ≡ follower)
          × Returns (λ s'. (s'.state ≡ leader) × (s'.current_term ≡ t)) (become_leader env' r.1))
        (update_term env t s)
stale_votes_elect env env' t s v newer h =
    Returns-map (λ r. TermStep t s r.0 r.1)
      (λ r.
        (r.1.state ≡ follower)
        × Returns (λ s'. (s'.state ≡ leader) × (s'.current_term ≡ t)) (become_leader env' r.1))
      (update_term env t s) (update_term-Returns env t s v)
      λ r e step.
        let moved : ltb s.current_term t ≡ true = ground arith in
        (
          rw moved at step.state,
          Returns-map (LeaderStep r.1) (λ s'. (s'.state ≡ leader) × (s'.current_term ≡ t))
              (become_leader env' r.1) (become_leader_lem env' r.1 step.valid)
              λ s' e' led. (
                (led.elected (still_elected t s r.1 r.0 newer h step)).state,
                led.current_term ∙ step.current_term ∙ omega (arith, newer),
              ),
        )
