-- ===== src/Raft/Replication/CaughtUp.antt =====
-- A follower that is behind catches up.
use navi_kv.Prelude.{
  ℕ, zero, suc, ◌+◌, ◌≤◌, ◌<◌, ◌≡◌, refl, sym, ap, ◌∙◌, arith, Bool, true, false, some, ltb,
  Bool-cases, inl, inr, Returns, Returns-map, Returns-eq_ok, length, get_elem?, get_elem?-lt, take,
  drop,
}
use navi_kv.Raft.State.{ClusterMember, Entry, Server, Env}
use navi_kv.Raft.Invariant.{IsValid}
use navi_kv.Raft.Replication.{AppendEntriesResponse, handle_append_entries, handle_append_response}
use navi_kv.Raft.Replication.Reconcile.{terms}
use navi_kv.Raft.Replication.Handling.{AppendStep, may_accept, handle_append_entries_lem}
use navi_kv.Raft.Replication.AcceptedLog.{accepted_log}
use navi_kv.Raft.Replication.Acknowledging.{
  AckStep, is_stale, agreed_up_to, stepped_back, handle_append_response_lem,
}
use navi_kv.Raft.Replication.CatchingUp.{
  exchange, catch_up, batch, CanReach, request_at, append_request_lem, batch-IsStorable,
  last_sent-batch, get_elem?-modify,
}

-- After an accepted request with the previous index `prev`: the leader knows how far the follower
-- agrees, and the follower has the terms of the leader's entries behind `prev` and its own entries
-- up to there.
pub record CaughtUp (i p : ℕ) (l f l' f' : Server) : Type 0 where
  pub prev : ℕ
  pub before : prev ≤ p
  pub member : ClusterMember
  pub there : get_elem? l'.cluster i ≡ some member
  pub match : member.match_index ≡ prev + length (batch l.log prev)
  pub next : member.next_index ≡ prev + length (batch l.log prev) + 1
  pub copied :
      take (length (batch l.log prev)) (terms (drop (prev + 1) f'.log)) ≡ terms (batch l.log prev)
  pub kept : take (prev + 1) f'.log ≡ take (prev + 1) f.log
  pub leader_log : l'.log ≡ l.log
  pub leader_term : l'.current_term ≡ l.current_term
  pub follower_term : f'.current_term ≡ l.current_term

-- After a refused one, the leader tries the entry before.
pub record BackedOff (i p : ℕ) (l f l' f' : Server) : Type 0 where
  pub smaller : 0 < p
  pub reaches : (q : ℕ) → p ≡ q + 1 → CanReach i q l' f'
  pub leader_log : l'.log ≡ l.log
  pub leader_term : l'.current_term ≡ l.current_term
  pub follower_log : f'.log ≡ f.log

pub record Exchanged (i p : ℕ) (l f : Server) (success : Bool) (l' f' : Server) : Type 0 where
  pub done : success ≡ true → CaughtUp i p l f l' f'
  pub back : success ≡ false → BackedOff i p l f l' f'

-- An answer in the leader's term counts.
module _ (i p : ℕ) (l f : Server) (c : CanReach i p l f) (id : ℕ) (prev : Entry)
    (rsp : AppendEntriesResponse) (l' f' : Server)
    (step : AppendStep (request_at id l p prev) f rsp f')
    (ack : AckStep i (request_at id l p prev) rsp l l') where
  told_term : rsp.term ≡ l.current_term
  told_term = step.told ∙ ground (arith, c.obeys)

  not_newer : ltb l.current_term rsp.term ≡ false
  not_newer = ground (arith, told_term)

  counts : is_stale (request_at id l p prev) rsp l ≡ false
  counts = ground (arith, told_term)

  same_term : l'.current_term ≡ l.current_term
  same_term = ack.current_term ∙ ground (arith, told_term)

  follower_in_term : f'.current_term ≡ l.current_term
  follower_in_term = step.current_term ∙ ground (arith, c.obeys)

  acknowledged :
      take (p + 1) f'.log ≡ take (p + 1) f.log
      → take (length (batch l.log p)) (terms (drop (p + 1) f'.log)) ≡ terms (batch l.log p)
      → rsp.success ≡ true
      → CaughtUp i p l f l' f'
  acknowledged kept copied success =
      let agreed = agreed_up_to (p + length (batch l.log p)) in
      record {
        prev = p;
        before = omega arith;
        member = agreed c.member;
        there =
            ap (λ ms. get_elem? ms i) (ack.agreed not_newer counts success)
            ∙ get_elem?-modify l.cluster i agreed c.member c.there;
        match = refl;
        next = refl;
        copied = copied;
        kept = kept;
        leader_log = ack.log;
        leader_term = same_term;
        follower_term = follower_in_term;
      }

  -- The previous index 0 is never refused.
  may_not : rsp.success ≡ false → may_accept (request_at id l p prev) f ≡ false
  may_not failure = sym step.success ∙ failure

  refused_above : rsp.success ≡ false → 0 < p
  unfolding may_accept
  refused_above failure =
      let no' : may_accept (request_at id l p prev) f ≡ false = may_not failure in
      ground (arith, no', c.obeys)

  refused : rsp.success ≡ false → f'.log ≡ f.log → IsValid f' → BackedOff i p l f l' f'
  refused failure log v = record {
    smaller = refused_above failure;
    reaches = λ q e. record {
      leader_valid = ack.valid;
      follower_valid = v;
      member = stepped_back c.member;
      there =
          ap (λ ms. get_elem? ms i)
            (ack.refused c.member c.there (omega (arith, c.next, c.in_log, c.small)) not_newer
              counts failure)
          ∙ get_elem?-modify l.cluster i stepped_back c.member c.there;
      next = ground (arith, c.next, e, c.in_log, c.small);
      in_log = omega (arith, ap length ack.log, e, c.in_log);
      small = omega (arith, ap length ack.log, c.small);
      obeys = ground (arith, same_term, follower_in_term, step.state failure c.obeys);
    };
    leader_log = ack.log;
    leader_term = same_term;
    follower_log = log;
  }

exchange_lem :
    (spare : ℕ → ℕ) (env : Env) (i p : ℕ) (l f : Server)
    → CanReach i p l f
    → Returns (λ r. Exchanged i p l f r.0 r.1.0 r.1.1) (exchange spare env i l f)
unfolding exchange may_accept
exchange_lem spare env i p l f c =
    let (id, prev, asked) = append_request_lem i p l f c in
    let req = request_at id l p prev in
    let storable = batch-IsStorable l p c.leader_valid in
    let (r, handled, step) =
      Returns-eq_ok (λ r. AppendStep req f r.0 r.1) (handle_append_entries spare env req f)
        (handle_append_entries_lem spare env req f c.follower_valid storable) in
    let (l', answered, ack) =
      Returns-eq_ok (AckStep i req r.0 l) (handle_append_response env i req r.0 l) (
        handle_append_response_lem env i req r.0 l c.leader_valid (get_elem?-lt l.cluster i c.there)
          (omega (arith, last_sent-batch l.log p c.in_log, c.small))) in
    rw (asked, handled, answered)
      (record {
        done = λ success.
            let (kept, copied, extends, again) =
              accepted_log spare env req f {rsp = r.0} {s' = r.1} c.follower_valid storable handled
                success in
            acknowledged i p l f c id prev r.0 l' r.1 step ack kept copied success;
        back = λ failure.
            let no' = may_not i p l f c id prev r.0 l' r.1 step ack failure in
            refused i p l f c id prev r.0 l' r.1 step ack failure (rw no' at step.log) step.valid;
      })

-- What holds after the entry before has been tried holds from the start.
from_back :
    (i p q : ℕ) (l f l' f' l'' f'' : Server)
    → p ≡ q + 1
    → BackedOff i p l f l' f'
    → CaughtUp i q l' f' l'' f''
    → CaughtUp i p l f l'' f''
from_back i p q l f l' f' l'' f'' e b u =
    let sent : batch l'.log u.prev ≡ batch l.log u.prev = ap (λ x. batch x u.prev) b.leader_log in
    record {
      prev = u.prev;
      before = omega (arith, u.before, e);
      member = u.member;
      there = u.there;
      match = u.match ∙ ap (λ x. u.prev + length x) sent;
      next = u.next ∙ ap (λ x. u.prev + length x + 1) sent;
      copied = rw sent at u.copied;
      kept = u.kept ∙ ap (take (u.prev + 1)) b.follower_log;
      leader_log = u.leader_log ∙ b.leader_log;
      leader_term = u.leader_term ∙ b.leader_term;
      follower_term = u.follower_term ∙ b.leader_term;
    }

-- A valid leader and a valid follower that takes requests of its term exchange at most as many
-- requests as the member's next index, an index of the leader's log or the one behind it, until one
-- is accepted, and nothing panics. Then the follower has the terms of the leader's entries behind
-- the previous entry of that request, 8000 of them at most, and the leader has recorded just that
-- as its match index; its log and term have stayed.
pub catch_up_lem :
    (spare : ℕ → (ℕ → ℕ)) (env : ℕ → Env) (i p : ℕ) (l f : Server)
    → CanReach i p l f
    → Returns (λ r. (r.0 ≡ true) × CaughtUp i p l f r.1.0 r.1.1) (catch_up spare env i (suc p) l f)
unfolding catch_up
catch_up_lem spare env i zero l f c =
    let (r, e, x) =
      Returns-eq_ok (λ r. Exchanged i zero l f r.0 r.1.0 r.1.1)
        (exchange (spare zero) (env zero) i l f)
        (exchange_lem (spare zero) (env zero) i zero l f c) in
    elim (Bool-cases r.0) [
      | inl success ↦ rw (e, success) (refl, x.done success)
      | inr failure ↦ absurd (omega (arith, (x.back failure).smaller))
    ]
catch_up_lem spare env i (suc q) l f c =
    let (r, e, x) =
      Returns-eq_ok (λ r. Exchanged i (suc q) l f r.0 r.1.0 r.1.1)
        (exchange (spare (suc q)) (env (suc q)) i l f)
        (exchange_lem (spare (suc q)) (env (suc q)) i (suc q) l f c) in
    elim (Bool-cases r.0) [
      | inl success ↦ rw (e, success) (refl, x.done success)
      | inr failure ↦
          let b = x.back failure in
          let one : suc q ≡ q + 1 = omega arith in
          rw (e, failure)
            (Returns-map (λ u. (u.0 ≡ true) × CaughtUp i q r.1.0 r.1.1 u.1.0 u.1.1)
              (λ u. (u.0 ≡ true) × CaughtUp i (suc q) l f u.1.0 u.1.1)
              (catch_up spare env i (suc q) r.1.0 r.1.1)
              (catch_up_lem spare env i q r.1.0 r.1.1 (b.reaches q one))
              λ u e' (good, done).
                (good, from_back i (suc q) q l f r.1.0 r.1.1 u.1.0 u.1.1 one b done))
    ]
