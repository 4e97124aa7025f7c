-- ===== src/Raft/Replication/AcceptedLog.antt =====
-- What `HandleAppendEntriesRequest` leaves in the log.
use navi_kv.Prelude.{take_front, drop_front}
use navi_kv.Prelude.{ℕ, ◌+◌, ◌<◌, ◌≡◌, sym, ap, ◌∙◌}
use navi_kv.Prelude.{true, List, ◌++◌, map, arith}
use navi_kv.Prelude.{ok}
use navi_kv.Prelude.{length, take, drop, All}
use navi_kv.Prelude.{append_assoc}
use navi_kv.Prelude.{take-append-drop, length-take}
use navi_kv.Raft.State.{Entry, Server, Env}
use navi_kv.Raft.Invariant.{IsValid, IsStorableEntry}
use navi_kv.Raft.Replication.{AppendEntriesRequest, AppendEntriesResponse, valid_previous_log}
use navi_kv.Raft.Replication.{handle_append_entries}
use navi_kv.Raft.Replication.Reconcile.{
  kept, reconcile, reconcile-terms, reconcile-agree, reconcile-reconcile, agree, terms,
}
use navi_kv.Raft.Replication.Accept.{appended_log, valid_previous-lt}
use navi_kv.Prelude.{Returns-at}
use mathlib.Core.Path.{ap₂}
use navi_kv.Raft.Replication.Accept.{valid_previous_log-has_previous}
use navi_kv.Raft.Replication.Handling.{AppendStep, may_accept, handle_append_entries_lem}

-- The reconciled log, of a log that reaches to the previous entry.
module _ (req : AppendEntriesRequest) (log : List Entry)
    (has_prev : req.prev_log_index < length log) where
  abbrev next : ℕ
  next = req.prev_log_index + 1

  length-front : next ≡ length (take next log)
  length-front = omega (arith, length-take next log)

  -- Up to the previous entry the log stays; behind it stand the terms of the request; and where the
  -- request does not conflict, the whole log stays and the entries beyond its end are appended.
  pub appended_log_shape :
      (take next (appended_log req log) ≡ take next log)
      × (take (length req.entries) (terms (drop next (appended_log req log))) ≡ terms req.entries)
      × (agree (drop next log) req.entries ≡ true
          → appended_log req log ≡ log ++ map kept (drop (length (drop next log)) req.entries))
      × (appended_log req (appended_log req log) ≡ appended_log req log)
  appended_log_shape =
      let front = take next log in
      let back = drop next log in
      let tail = reconcile back req.entries in
      let t : take next (front ++ tail) ≡ front = take_front next front tail length-front in
      let d : drop next (front ++ tail) ≡ tail = drop_front next front tail length-front in
      (
        t,
        ap (λ l. take (length req.entries) (terms l)) d ∙ reconcile-terms back req.entries,
        λ h.
            ap (λ l. front ++ l) (reconcile-agree back req.entries h)
            ∙ sym (append_assoc front back (map kept (drop (length back) req.entries)))
            ∙ ap (λ l. l ++ map kept (drop (length back) req.entries)) (take-append-drop next log),
        ap₂ (λ a b. a ++ reconcile b req.entries) t d
            ∙ ap (λ l. front ++ l) (reconcile-reconcile back req.entries),
      )

-- What an accepted request leaves in the log: the entries up to the previous one are those that
-- were there; behind them stand entries with the terms of the request, in order; without a conflict
-- no entry is lost, and the log only gains the entries beyond its end; and the same request once
-- more would leave the same log.
pub accepted_log :
    (spare : ℕ → ℕ) (env : Env) (req : AppendEntriesRequest) (s : Server)
    {rsp : AppendEntriesResponse} {s' : Server}
    → IsValid s
    → All IsStorableEntry req.entries
    → handle_append_entries spare env req s ≡ ok (rsp, s')
    → rsp.success ≡ true
    → (take (req.prev_log_index + 1) s'.log ≡ take (req.prev_log_index + 1) s.log)
      × (take (length req.entries) (terms (drop (req.prev_log_index + 1) s'.log))
          ≡ terms req.entries)
      × (agree (drop (req.prev_log_index + 1) s.log) req.entries ≡ true
          → s'.log
            ≡ s.log ++ map kept (drop (length (drop (req.prev_log_index + 1) s.log)) req.entries))
      × (appended_log req s'.log ≡ s'.log)
unfolding may_accept
accepted_log spare env req s {rsp} {s'} v storable e success =
    let step =
      Returns-at (λ r. AppendStep req s r.0 r.1) (handle_append_entries spare env req s) (rsp, s') e
        (handle_append_entries_lem spare env req s v storable) in
    let can : may_accept req s ≡ true = sym step.success ∙ success in
    let log : s'.log ≡ appended_log req s.log = rw can at step.log in
    let prev : valid_previous_log req s.log ≡ true =
      valid_previous_log-has_previous req s.log ∙ ground arith in
    rw log (appended_log_shape req s.log (valid_previous-lt req s.log v.started prev))
