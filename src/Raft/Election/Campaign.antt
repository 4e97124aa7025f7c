-- ===== src/Raft/Election/Campaign.antt =====
-- `timeout`: the start of a campaign.
use navi_kv.Prelude.{ℕ, zero, suc, ◌+◌, ◌*◌, ◌<◌, ◌≡◌, refl, sym, ◌∙◌}
use navi_kv.Prelude.{Bool, true, false, not, ◌&&◌, List, [], ◌∷◌, arith}
use navi_kv.Prelude.{ltb, ◌==◌, if◌then◌else◌, add64, Bool-cases}
use navi_kv.Prelude.{ok, ◌>>=◌, Returns}
use navi_kv.Prelude.{length}
use navi_kv.Prelude.{inl, inr}
use navi_kv.Raft.State.{ClusterMember, Server, Env, candidate}
use navi_kv.Raft.Invariant.{IsValid, IsValid-storage, vote_at, IsPlaced}
use navi_kv.Raft.Persistence.{persist}
use navi_kv.Raft.Persistence.Total.{persist_total}
use navi_kv.Raft.Election.{reset_election_timeout, start_election, own_votes, timeout}
use navi_kv.Raft.Election.Terms.{reset_election_timeout-IsValid}

-- Whether the timer of a server that takes part in elections has run out.
abbrev pub has_timed_out : Env → Server → Bool
has_timed_out env s = not s.passive && ltb s.election_timeout env.now

-- The votes of a new candidate: its own for itself, and no other.
abbrev pub OnlyOwnVote : ℕ → ℕ → List ClusterMember → Type 0
OnlyOwnVote self index ms =
    (j : ℕ) → j < length ms → vote_at ms j ≡ (if j == index then self else 0)

pub record TimeoutStep (env : Env) (s : Server) (campaigns : Bool) (s' : Server) : Type 0 where
  pub told : campaigns ≡ has_timed_out env s
  pub idle : has_timed_out env s ≡ false → s' ≡ s
  pub state : has_timed_out env s ≡ true → s'.state ≡ candidate
  pub current_term : has_timed_out env s ≡ true → s'.current_term ≡ add64 s.current_term 1
  pub votes : has_timed_out env s ≡ true → OnlyOwnVote s.id s.cluster_index s'.cluster
  pub timer :
      has_timed_out env s ≡ true → s'.election_timeout ≡ env.later + (env.roll + s.heartbeat_ms * 2)
  pub log : s'.log ≡ s.log
  pub valid : IsValid s'

own_votes-IsPlaced :
    (k index self n : ℕ) (ms : List ClusterMember) (i : ℕ)
    → IsPlaced n ms i
    → IsPlaced n (own_votes k index self ms) i
unfolding own_votes
own_votes-IsPlaced k index self n [] i h = h
own_votes-IsPlaced k index self n (m ∷ ms) zero h = h
own_votes-IsPlaced k index self n (m ∷ ms) (suc i) (ne, h) =
    (ne, own_votes-IsPlaced (suc k) index self n ms i h)

vote_at-own_votes :
    (k index self : ℕ) (ms : List ClusterMember) (j : ℕ)
    → j < length (own_votes k index self ms)
    → vote_at (own_votes k index self ms) j ≡ (if k + j == index then self else 0)
unfolding own_votes
vote_at-own_votes k index self [] j h = elim h [ ]
vote_at-own_votes k index self (m ∷ ms) zero h = ground arith
vote_at-own_votes k index self (m ∷ ms) (suc j) h =
    let e : suc k + j ≡ k + suc j = omega arith in
    vote_at-own_votes (suc k) index self ms j (omega arith) ∙ rw e

start_election-IsValid : (s : Server) → IsValid s → IsValid (start_election s)
start_election-IsValid s v = record {
  placed = own_votes-IsPlaced 0 s.cluster_index s.id s.id s.cluster s.cluster_index v.placed;
  rooted = v.rooted;
  started = v.started;
  storable = v.storable;
}

timeout_by_test :
    (env : Env) (s : Server)
    → timeout env s ≡ (
        if has_timed_out env s
        then (do
          s₁ ← persist false 0 (reset_election_timeout env (start_election s))
          ok (true, s₁))
        else ok (false, s))
unfolding timeout
timeout_by_test env s = ground arith

-- `timeout` returns. A server that is passive or in time changes nothing; any other becomes a
-- candidate of the next term, with its own vote and no other, a new timer and the log it had.
pub timeout_lem :
    (env : Env) (s : Server) → IsValid s → Returns (λ r. TimeoutStep env s r.0 r.1) (timeout env s)
timeout_lem env s v = elim (Bool-cases (has_timed_out env s)) [
  | inl late ↦
      let c = reset_election_timeout env (start_election s) in
      let vc = reset_election_timeout-IsValid env (start_election s) (start_election-IsValid s v) in
      let (m, e) = persist_total false 0 c vc in
      rw (timeout_by_test env s, late, e)
        (unfold reset_election_timeout in
          record {
            told = sym late;
            idle = λ h. cc;
            state = λ h. refl;
            current_term = λ h. refl;
            votes =
                λ h j lt. vote_at-own_votes 0 s.cluster_index s.id s.cluster j lt ∙ ground arith;
            timer = λ h. refl;
            log = refl;
            valid = IsValid-storage c m vc;
          })
  | inr early ↦
      rw (timeout_by_test env s, early)
        (record {
          told = sym early;
          idle = λ h. refl;
          state = λ h. cc;
          current_term = λ h. cc;
          votes = λ h. cc;
          timer = λ h. cc;
          log = refl;
          valid = v;
        })
]
