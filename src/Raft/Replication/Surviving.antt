-- ===== src/Raft/Replication/Surviving.antt =====
-- Submitted commands across a restart.
use navi_kv.Prelude.{ℕ, suc, ◌+◌, ◌-◌, ◌*◌, ◌^◌, ◌<◌, ◌≡◌, refl, sym, ap, ◌∙◌, arith}
use navi_kv.Prelude.{
  true, List, [], ◌∷◌, ◌++◌, map, Returns, Returns-map, length, drop, All, All-append,
  length-append, take_front, drop_front,
}
use navi_kv.Bytes.{Bytes, IsU64}
use navi_kv.Raft.State.{Entry, Server, is_leader}
use navi_kv.Raft.Config.{entry_size}
use navi_kv.Raft.Invariant.{IsValid, IsStorable, IsValid-storage, own_vote}
use navi_kv.Raft.Persistence.{page_size, page_of, new_entries, restore}
use navi_kv.Raft.Persistence.Pages.{length-page_of}
use navi_kv.Raft.Persistence.LogFile.{restored, HasTermU64}
use navi_kv.Raft.Persistence.Durable.{IsDurable, HasStored, HasU64, kept_entries, persist-IsDurable}
use navi_kv.Raft.Persistence.Recovering.{Recovered, restore-IsDurable}
use navi_kv.Raft.Replication.{apply_commands}
use navi_kv.Raft.Replication.Submitting.{
  submitted, append_commands_lem, submitted-IsStorable, with_entries-IsValid,
}

-- Entries that are appended to a durable log leave it stored.
durable_stored :
    (s : Server) (es : List Entry) (n : ℕ)
    → IsDurable s
    → HasStored (length s.log) (record s { log = s.log ++ es; next_chan = n })
durable_stored s es n d = record {
  slots = d.slots;
  rest = d.rest;
  behind =
      ap (λ b. drop page_size b) d.written
      ∙ drop_front page_size (page_of s.current_term (own_vote s) (length s.log))
          (d.slots ++ d.rest) (sym (length-page_of s.current_term (own_vote s) (length s.log)));
  stored = rw (take_front (length s.log) s.log es refl) d.stored;
}

nothing_stored : (s : Server) → HasStored 0 s
nothing_stored s = record {
  slots = [];
  rest = drop page_size s.storage.bytes;
  behind = refl;
  stored = refl;
}

length-submitted : (t n : ℕ) (cs : List Bytes) → length (submitted t n cs) ≡ length cs
unfolding submitted
length-submitted t n [] = refl
length-submitted t n (c ∷ cs) = ap suc (length-submitted t (suc n) cs)

submitted-HasTermU64 : (t n : ℕ) (cs : List Bytes) → IsU64 t → All HasTermU64 (submitted t n cs)
unfolding submitted
submitted-HasTermU64 t n [] h = tt
submitted-HasTermU64 t n (c ∷ cs) h = (h, submitted-HasTermU64 t (suc n) cs h)

-- `persist` writes all entries if it is told of none, and the new ones otherwise.
stored_before :
    (cs : List Bytes) (s : Server)
    → IsDurable s
    → let s₁ : Server = record s {
      log = s.log ++ submitted s.current_term s.next_chan cs;
      next_chan = s.next_chan + length cs;
    } in
      HasStored (kept_entries true (length cs) (length s₁.log)) s₁
stored_before [] s d =
    let n = length (s.log ++ submitted s.current_term s.next_chan []) in
    let none_left : n - n ≡ 0 = omega arith in
    rw none_left (
      nothing_stored (record s {
        log = s.log ++ submitted s.current_term s.next_chan [];
        next_chan = s.next_chan + 0;
      }))
stored_before (c ∷ cs) s d =
    let es = submitted s.current_term s.next_chan (c ∷ cs) in
    let n : length (s.log ++ es) ≡ length s.log + suc (length cs) =
      omega (arith, length-append s.log es, length-submitted s.current_term s.next_chan (c ∷ cs)) in
    let kept : length (s.log ++ es) - new_entries true (suc (length cs)) (length (s.log ++ es))
        ≡ length s.log =
      ground (arith, n) in
    rw kept (durable_stored s es (s.next_chan + suc (length cs)) d)

-- A valid leader whose storage is durable makes the commands durable that it is given, if they are
-- storable, its terms and vote are of 64 bits, and the file with them is in the range of an int64:
-- when `Apply` starts to wait for them, the server is durable again, and a restart from its storage
-- returns with the leader's term and, but for the channels, the leader's log with the commands
-- behind it, in order and in the leader's term.
pub apply_commands-restore :
    (cs : List Bytes) (s : Server)
    → IsValid s
    → All IsStorable cs
    → is_leader s.state ≡ true
    → HasU64 s
    → page_size + entry_size * (length s.log + length cs) < 2 ^ 63
    → IsDurable s
    → Returns
        (λ r.
          IsDurable r.1
          × Returns
              (λ s'.
                (s'.current_term ≡ s.current_term)
                × (s'.log ≡ map restored (s.log ++ submitted s.current_term s.next_chan cs)))
              (restore r.1))
        (apply_commands cs s)
unfolding apply_commands
apply_commands-restore cs s v h leads u fits d =
    let es = submitted s.current_term s.next_chan cs in
    let s₁ : Server = record s { log = s.log ++ es; next_chan = s.next_chan + length cs } in
    let v₁ : IsValid s₁ =
      with_entries-IsValid es (s.next_chan + length cs) s v
        (submitted-IsStorable s.current_term s.next_chan cs h) in
    let n : length (s.log ++ es) ≡ length s.log + length cs =
      omega (arith, length-append s.log es, length-submitted s.current_term s.next_chan cs) in
    let u₁ : HasU64 s₁ = record {
      term = u.term;
      vote = u.vote;
      count = rw n fits;
      terms =
          All-append HasTermU64 s.log es u.terms
            (submitted-HasTermU64 s.current_term s.next_chan cs u.term);
    } in
    let (m, e, d₁) =
      persist-IsDurable true (length cs) s₁ v₁ u₁ (omega (arith, n)) (stored_before cs s d) in
    let s₂ : Server = record s₁ { storage = m } in
    rw (leads, append_commands_lem cs s, e)
      (
        d₁,
        Returns-map (Recovered s₂)
            (λ s'. (s'.current_term ≡ s.current_term) × (s'.log ≡ map restored (s.log ++ es)))
            (restore s₂)
            (restore-IsDurable s₂ (IsValid-storage s₁ m v₁)
              (record { term = u₁.term; vote = u₁.vote; count = u₁.count; terms = u₁.terms }) d₁)
            λ s' p r. (r.term, r.log),
      )
