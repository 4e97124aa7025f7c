-- ===== src/Raft/Replication/Accept.antt =====
-- `HandleAppendEntriesRequest` as a whole.
use navi_kv.Prelude.{Bool, ◌∷◌, [], zero, suc}
use navi_kv.Prelude.{ℕ, ◌+◌, ◌-◌, ◌<◌, min, ◌≡◌, refl, sym, ap, ◌∙◌}
use navi_kv.Prelude.{true, false, not, ◌||◌, List, ◌++◌, arith}
use navi_kv.Prelude.{ltb, ◌==◌, if◌then◌else◌, Bool-cases, Option-cases}
use navi_kv.Prelude.{ok, ◌>>=◌, Returns, Returns-bind}
use navi_kv.Prelude.{length, get_elem?, get_elem?-lt, take, drop, All}
use navi_kv.Prelude.{inl, inr}
use mathlib.Core.Path.{ap₂}
use navi_kv.Prelude.{take-append-drop, length-take}
use navi_kv.Raft.State.{Entry, Server}
use navi_kv.Raft.Invariant.{
  IsValid, IsValid-storage, IsStorableEntry, get_voted_for-own_vote, own_vote,
}
use navi_kv.Raft.Persistence.{persist}
use navi_kv.Raft.Persistence.Total.{persist_total}
use navi_kv.Raft.Replication.{
  AppendEntriesRequest, AppendEntriesResponse, valid_previous_log, same_term,
}
use navi_kv.Raft.Replication.{append_reply, append_loop, accept_entries, follow_commit}
use navi_kv.Raft.Replication.Reconcile.{reconcile}
use navi_kv.Raft.Replication.Loop.{LoopResult, append_loop-Returns}

-- The log that an accepted request leaves.
abbrev pub appended_log : AppendEntriesRequest → List Entry → List Entry
appended_log req log =
    take (req.prev_log_index + 1) log ++ reconcile (drop (req.prev_log_index + 1) log) req.entries

-- The commit index that an accepted request leaves, with a log of `len` entries.
abbrev pub followed : ℕ → ℕ → ℕ → ℕ
followed leader_commit len commit =
    if ltb commit leader_commit then min leader_commit (len - 1) else commit

-- Whether there is an entry of term `t` at index `i`.
abbrev has_term : ℕ → ℕ → List Entry → Bool
has_term t i [] = false
has_term t zero (e ∷ es) = e.term == t
has_term t (suc i) (e ∷ es) = has_term t i es

-- Whether a log has the previous entry of a request; the index 0 is no entry.
abbrev pub has_previous : AppendEntriesRequest → List Entry → Bool
has_previous req log = req.prev_log_index == 0 || has_term req.prev_log_term req.prev_log_index log

same_term-get_elem? :
    (t i : ℕ) (log : List Entry) → same_term t (get_elem? log i) ≡ has_term t i log
same_term-get_elem? t i [] = refl
same_term-get_elem? t zero (e ∷ es) = refl
same_term-get_elem? t (suc i) (e ∷ es) = same_term-get_elem? t i es

pub valid_previous_log-has_previous :
    (req : AppendEntriesRequest) (log : List Entry)
    → valid_previous_log req log ≡ has_previous req log
unfolding valid_previous_log
valid_previous_log-has_previous req log =
    ap (λ b. req.prev_log_index == 0 || b)
      (same_term-get_elem? req.prev_log_term req.prev_log_index log)

-- A request whose previous entry is there.
pub valid_previous-lt :
    (req : AppendEntriesRequest) (log : List Entry)
    → 0 < length log
    → valid_previous_log req log ≡ true
    → req.prev_log_index < length log
unfolding valid_previous_log
valid_previous-lt req log h e = elim (Option-cases (get_elem? log req.prev_log_index)) [
  | inl none_here ↦
      let zero_index : (req.prev_log_index == 0 || false) ≡ true = rw none_here at e in ground arith
  | inr (x, here) ↦ get_elem?-lt log req.prev_log_index here
]

pub record Accepted (req : AppendEntriesRequest) (s : Server) (rsp : AppendEntriesResponse)
    (s' : Server) : Type 0 where
  pub success : rsp.success ≡ true
  pub told : rsp.term ≡ s.current_term
  pub log : s'.log ≡ appended_log req s.log
  pub commit_index : s'.commit_index ≡ followed req.leader_commit (length s'.log) s.commit_index
  pub current_term : s'.current_term ≡ s.current_term
  pub state : s'.state ≡ s.state
  pub valid : IsValid s'

follow_commit-IsValid : (c : ℕ) (s : Server) → IsValid s → IsValid (follow_commit c s)
unfolding follow_commit
follow_commit-IsValid c s v = elim (Bool-cases (ltb s.commit_index c)) [
  | inl more ↦
      rw more (record {
        placed = v.placed;
        rooted = v.rooted;
        started = v.started;
        storable = v.storable;
      })
  | inr same ↦ rw same v
]

follow_commit_fields :
    (c : ℕ) (s : Server)
    → ((follow_commit c s).log ≡ s.log)
      × ((follow_commit c s).commit_index ≡ followed c (length s.log) s.commit_index)
      × ((follow_commit c s).current_term ≡ s.current_term)
      × ((follow_commit c s).state ≡ s.state)
unfolding follow_commit
follow_commit_fields c s = ground arith

pub accept_entries-Returns :
    (spare : ℕ → ℕ) (req : AppendEntriesRequest) (s : Server)
    → IsValid s
    → All IsStorableEntry req.entries
    → valid_previous_log req s.log ≡ true
    → Returns (λ r. Accepted req s r.0 r.1) (accept_entries spare req s)
unfolding accept_entries
accept_entries-Returns spare req s v storable prev =
    let next = req.prev_log_index + 1 in
    let at : next ≡ length (take next s.log) =
      omega (arith, length-take next s.log, valid_previous-lt req s.log v.started prev) in
    rw (get_voted_for-own_vote s v) (
      Returns-bind (LoopResult spare (own_vote s) (take next s.log) (drop next s.log) req.entries s)
        (λ r. Accepted req s r.0 r.1) (append_loop spare (own_vote s) next req.entries s)
        (λ r. persist (not (r.0 == 0)) r.0 (follow_commit req.leader_commit r.1) >>= λ s₂.
          ok (append_reply s.current_term true, s₂))
        (append_loop-Returns spare (own_vote s) req.entries (take next s.log) (drop next s.log) next
          s at (omega arith) v (sym (take-append-drop next s.log)) storable)
        λ r e (count, h).
          let s₁ = follow_commit req.leader_commit r.1 in
          let v₁ = follow_commit-IsValid req.leader_commit r.1 h.valid in
          let (m, p) = persist_total (not (r.0 == 0)) r.0 s₁ v₁ in
          let (l, c, t, st) = follow_commit_fields req.leader_commit r.1 in
          rw p (record {
            success = refl;
            told = refl;
            log = l ∙ h.log;
            commit_index =
                c ∙ ap₂ (followed req.leader_commit) (ap length (sym l)) h.rest.commit_index;
            current_term = t ∙ h.rest.current_term;
            state = st ∙ h.rest.state;
            valid = IsValid-storage s₁ m v₁;
          }))
