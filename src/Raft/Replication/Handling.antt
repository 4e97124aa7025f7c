-- ===== src/Raft/Replication/Handling.antt =====
-- `HandleAppendEntriesRequest` as a whole: the terms, the guards and the log that it leaves.
use navi_kv.Prelude.{ℕ, max, ◌≡◌, refl, sym, ap, ◌∙◌}
use navi_kv.Prelude.{Bool, true, false, not, ◌&&◌, ◌||◌, arith}
use navi_kv.Prelude.{ltb, ◌==◌, if◌then◌else◌, Bool-cases}
use navi_kv.Prelude.{Outcome, ok, Returns, Returns-bind, Returns-map}
use navi_kv.Prelude.{length, All}
use navi_kv.Prelude.{inl, inr}
use navi_kv.Raft.State.{Server, ServerState, Env, follower, is_follower, is_candidate}
use navi_kv.Raft.Invariant.{IsValid, IsStorableEntry}
use navi_kv.Raft.Election.{update_term, reset_election_timeout}
use navi_kv.Raft.Election.Terms.{TermStep, update_term-Returns}
use navi_kv.Raft.Replication.{
  AppendEntriesRequest, AppendEntriesResponse, valid_previous_log, append_reply,
}
use navi_kv.Raft.Replication.{accept_entries, follow_leader, handle_append_entries}
use navi_kv.Raft.Replication.Accept.{
  Accepted, appended_log, followed, accept_entries-Returns, has_previous,
  valid_previous_log-has_previous,
}

-- Whether the server is a follower of the request's term when it has read the term.
abbrev pub follows : AppendEntriesRequest → Server → Bool
follows req s =
    ltb s.current_term req.term
    || (req.term == s.current_term && (is_follower s.state || is_candidate s.state))

-- When the entries of a request are accepted: the server follows, and has the previous entry.
unfoldable pub may_accept : AppendEntriesRequest → Server → Bool
may_accept req s = follows req s && has_previous req s.log

pub record AppendStep (req : AppendEntriesRequest) (s : Server) (rsp : AppendEntriesResponse)
    (s' : Server) : Type 0 where
  pub success : rsp.success ≡ may_accept req s
  pub told : rsp.term ≡ max s.current_term req.term
  pub current_term : s'.current_term ≡ max s.current_term req.term
  pub log : s'.log ≡ (if may_accept req s then appended_log req s.log else s.log)
  pub commit_index : s'.commit_index ≡ (
      if may_accept req s
      then followed req.leader_commit (length s'.log) s.commit_index
      else s.commit_index)
  pub state : rsp.success ≡ false → follows req s ≡ true → is_follower s'.state ≡ true
  pub valid : IsValid s'

follow_leader-IsValid : (t : ℕ) (s : Server) → IsValid s → IsValid (follow_leader t s)
unfolding follow_leader
follow_leader-IsValid t s v = elim (Bool-cases (t == s.current_term && is_candidate s.state)) [
  | inl gives_up ↦
      rw gives_up (record {
        placed = v.placed;
        rooted = v.rooted;
        started = v.started;
        storable = v.storable;
      })
  | inr stays ↦ rw stays v
]

follow_leader_fields :
    (t : ℕ) (s : Server)
    → ((follow_leader t s).log ≡ s.log)
      × ((follow_leader t s).commit_index ≡ s.commit_index)
      × ((follow_leader t s).current_term ≡ s.current_term)
      × (is_follower (follow_leader t s).state
          ≡ is_follower s.state || (t == s.current_term && is_candidate s.state))
unfolding follow_leader
follow_leader_fields t s = ground arith

-- The handler from `updateTerm` on.
abbrev guarded :
    (ℕ → ℕ) → Env → AppendEntriesRequest → Server → Outcome (AppendEntriesResponse × Server)
guarded spare env req s₂ =
    if not (is_follower s₂.state) || ltb req.term s₂.current_term
    then ok (append_reply s₂.current_term false, s₂)
    else (let s₃ = record (reset_election_timeout env s₂) { passive = false } in
        if valid_previous_log req s₃.log
        then accept_entries spare req s₃
        else ok (append_reply s₃.current_term false, s₃))

ready-IsValid :
    (env : Env) (s : Server)
    → IsValid s
    → IsValid (record (reset_election_timeout env s) { passive = false })
unfolding reset_election_timeout
ready-IsValid env s v = record {
  placed = v.placed;
  rooted = v.rooted;
  started = v.started;
  storable = v.storable;
}

module _ (req : AppendEntriesRequest) (s s₂ : Server) (log : s₂.log ≡ s.log)
    (commit : s₂.commit_index ≡ s.commit_index)
    (term : s₂.current_term ≡ max s.current_term req.term)
    (follower_now : (not (is_follower s₂.state) || ltb req.term s₂.current_term)
      ≡ not (follows req s)) where
  stays_follower : follows req s ≡ true → is_follower s₂.state ≡ true
  stays_follower f =
      let now : (not (is_follower s₂.state) || ltb req.term s₂.current_term) ≡ false =
        follower_now ∙ ap not f in
      ground (arith, now)

  refused :
      (s₃ : Server)
      → may_accept req s ≡ false
      → s₃.log ≡ s₂.log
      → s₃.commit_index ≡ s₂.commit_index
      → s₃.current_term ≡ s₂.current_term
      → s₃.state ≡ s₂.state
      → IsValid s₃
      → AppendStep req s (append_reply s₃.current_term false) s₃
  refused s₃ no' l c t st v = record {
    success = sym no';
    told = t ∙ term;
    current_term = t ∙ term;
    log = rw no' (l ∙ log);
    commit_index = rw no' (c ∙ commit);
    state = λ n f. ap is_follower st ∙ stays_follower f;
    valid = v;
  }

  guarded-Returns :
      (spare : ℕ → ℕ) (env : Env)
      → IsValid s₂
      → All IsStorableEntry req.entries
      → Returns (λ r. AppendStep req s r.0 r.1) (guarded spare env req s₂)
  unfolding may_accept reset_election_timeout
  guarded-Returns spare env v storable =
      let v₃ = ready-IsValid env s₂ v in
      let s₃ : Server = record (reset_election_timeout env s₂) { passive = false } in
      elim (Bool-cases (follows req s)) [
        | inl follows' ↦ elim (Bool-cases (valid_previous_log req s₂.log)) [
          | inl previous ↦
              let can : may_accept req s ≡ true =
                rw (follows', ← valid_previous_log-has_previous req s.log, ← log, previous) in
              rw (follower_now, follows', previous)
                (Returns-map (λ r. Accepted req s₃ r.0 r.1) (λ r. AppendStep req s r.0 r.1)
                  (accept_entries spare req s₃)
                  (accept_entries-Returns spare req s₃ v₃ storable previous)
                  λ r e a. record {
                    success = a.success ∙ sym can;
                    told = a.told ∙ term;
                    current_term = a.current_term ∙ term;
                    log = rw can (a.log ∙ ap (appended_log req) log);
                    commit_index =
                        rw can (
                          a.commit_index ∙ ap (followed req.leader_commit (length r.1.log)) commit);
                    state = λ n f. absurd (ground (arith, a.success, n));
                    valid = a.valid;
                  })
          | inr missing ↦
              let cannot : may_accept req s ≡ false =
                rw (follows', ← valid_previous_log-has_previous req s.log, ← log, missing) in
              rw (follower_now, follows', missing) (refused s₃ cannot refl refl refl refl v₃)
        ]
        | inr no' ↦
            let cannot : may_accept req s ≡ false = rw no' in
            rw (follower_now, no') (refused s₂ cannot refl refl refl refl v)
      ]

follows_after :
    (req : AppendEntriesRequest) (b : Bool) (s s₁ : Server)
    → TermStep req.term s b s₁
    → (not (is_follower (follow_leader req.term s₁).state)
        || ltb req.term (follow_leader req.term s₁).current_term)
      ≡ not (follows req s)
follows_after req b s s₁ step =
    let (l, c, t, f) = follow_leader_fields req.term s₁ in
    rw (f, t, step.current_term, step.state) (by_cases s.state)
  where
    by_cases :
        (st : ServerState)
        → (not (
              is_follower (if ltb s.current_term req.term then follower else st)
              || (req.term == max s.current_term req.term
                  && is_candidate (if ltb s.current_term req.term then follower else st)))
            || ltb req.term (max s.current_term req.term))
          ≡ not (
              ltb s.current_term req.term
              || (req.term == s.current_term && (is_follower st || is_candidate st)))
    by_cases st = ground arith

-- On every valid server and every request whose commands fit and decode, the handler returns: no
-- assertion fails and nothing panics, whatever spare capacity the log has. It accepts exactly
-- when the server is, or becomes, a follower of the request's term (so a leader of that very term
-- refuses), and the previous index is 0 or the log has an entry of the previous term there. Then the log is the one that `reconcile` makes, and the commit index follows the
-- leader's up to the last entry; otherwise both stay. The term is the larger one, and the server
-- stays valid.
pub handle_append_entries_lem :
    (spare : ℕ → ℕ) (env : Env) (req : AppendEntriesRequest) (s : Server)
    → IsValid s
    → All IsStorableEntry req.entries
    → Returns (λ r. AppendStep req s r.0 r.1) (handle_append_entries spare env req s)
unfolding handle_append_entries
handle_append_entries_lem spare env req s v storable =
    Returns-bind (λ r. TermStep req.term s r.0 r.1) (λ r. AppendStep req s r.0 r.1)
      (update_term env req.term s) (λ r. guarded spare env req (follow_leader req.term r.1))
      (update_term-Returns env req.term s v)
      λ r e step.
        let (l, c, t, f) = follow_leader_fields req.term r.1 in
        guarded-Returns req s (follow_leader req.term r.1) (l ∙ step.log) (c ∙ step.commit_index)
          (t ∙ step.current_term) (follows_after req r.0 s r.1 step) spare env
          (follow_leader-IsValid req.term r.1 step.valid) storable
