-- ===== src/Raft/Persistence/Durable.antt =====
-- The durable state that `persist` leaves in the storage.
use navi_kv.Prelude.Int.{pos}
use navi_kv.Raft.Storage.{settle}
use navi_kv.Raft.Persistence.{seek_start}
use navi_kv.Prelude.{ℕ, ◌+◌, ◌-◌, ◌*◌, ◌^◌, ◌<◌, ◌≤◌, ◌≡◌, refl, sym, ap, ◌∙◌, arith}
use navi_kv.Prelude.{Bool, true, false, ◌&&◌, List, ◌++◌, some, ltb, if◌then◌else◌}
use navi_kv.Prelude.{
  ok, length, take, drop, replicate, All, All-drop, length-append, length-replicate, length-take,
  take_all, take-append-drop, append_assoc,
}
use navi_kv.Bytes.{Bytes, IsU64}
use navi_kv.Raft.State.{Entry, Server}
use navi_kv.Raft.Config.{entry_size}
use navi_kv.Raft.Invariant.{IsValid, IsStorableEntry, own_vote, get_voted_for-own_vote}
use navi_kv.Raft.Storage.{MemStorage, seek, seek_to, write}
use navi_kv.Raft.Storage.Writing.{write_front, write_behind}
use navi_kv.Raft.Persistence.Pages.{length-page_of}
use navi_kv.Raft.Persistence.LogFile.{
  HasTermU64, StoredLog, length-StoredLog, StoredLog-append, encode_entries-StoredLog,
}
use navi_kv.Raft.Persistence.{page_size, page_of, new_entries, write_state, persist}

-- The slots behind the page begin with the first `k` entries of the log.
pub record HasStored (k : ℕ) (s : Server) : Type 0 where
  pub slots : Bytes
  pub rest : Bytes
  pub behind : drop page_size s.storage.bytes ≡ slots ++ rest
  pub stored : StoredLog slots (take k s.log)

-- The storage has the term, the own vote and the whole log.
pub record IsDurable (s : Server) : Type 0 where
  pub slots : Bytes
  pub rest : Bytes
  pub written :
      s.storage.bytes ≡ page_of s.current_term (own_vote s) (length s.log) ++ (slots ++ rest)
  pub stored : StoredLog slots s.log

-- A server whose numbers are in the range of their types.
pub record HasU64 (s : Server) : Type 0 where
  pub term : IsU64 s.current_term
  pub vote : IsU64 (own_vote s)
  pub count : page_size + entry_size * length s.log < 2 ^ 63
  pub terms : All HasTermU64 s.log

-- How many entries `persist` leaves as the storage has them.
abbrev pub kept_entries : Bool → ℕ → ℕ → ℕ
kept_entries write_log new len = if write_log then len - new_entries write_log new len else len

seek_to-pos : (n : ℕ) → n < 2 ^ 63 → seek_to 0 (pos n) ≡ some n
unfolding seek_to
seek_to-pos n h =
    let at : 0 + n ≡ n = omega arith in
    let fits : ltb n (2 ^ 63) ≡ true = ground arith in rw (at, fits) refl

-- The position is in the range of an int64, so that the storage goes there.
pub seek_start_lem : (n : ℕ) (m : MemStorage) → n < 2 ^ 63 → seek_start n m ≡ record m { pos = n }
unfolding seek
seek_start_lem n m h = ap (λ o. (settle o m).1) (seek_to-pos n h)

page_written :
    (s : Server)
    → (write (page_of s.current_term (own_vote s) (length s.log)) (record s.storage { pos = 0 })).1
      ≡ record {
        bytes =
            page_of s.current_term (own_vote s) (length s.log) ++ drop page_size s.storage.bytes;
        pos = page_size;
      }
page_written s = rw (length-page_of s.current_term (own_vote s) (length s.log)) at (
    write_front (page_of s.current_term (own_vote s) (length s.log)) (record s.storage { pos = 0 })
      refl)

-- The entries that are written go behind those that are there.
entries_written :
    (page slots rest out : Bytes) (k : ℕ) (es : List Entry)
    → length page ≡ page_size
    → StoredLog slots es
    → length es ≡ k
    → (rest' : Bytes) × (at : ℕ) × ((write out
          (record { bytes = page ++ (slots ++ rest); pos = page_size + entry_size * k })).1
        ≡ record { bytes = page ++ ((slots ++ out) ++ rest'); pos = at })
entries_written page slots rest out k es size stored count =
    let front = page ++ slots in
    let at : length front ≡ page_size + entry_size * k = omega (
      arith,
      length-append page slots,
      size,
      length-StoredLog slots es stored,
      ap (λ n. entry_size * n) count,
    ) in
    let (rest', e) = write_behind out front rest in
    let before : front ++ rest ≡ page ++ (slots ++ rest) = append_assoc page slots rest in
    let after : front ++ (out ++ rest') ≡ page ++ ((slots ++ out) ++ rest') =
      append_assoc page slots (out ++ rest')
      ∙ ap (λ b. page ++ b) (sym (append_assoc slots out rest')) in
    (rest', length front + length out, rw (← at, ← before, ← after) e)

-- The page alone is written.
module _ (s : Server) (v : IsValid s) where
  write_page_only :
      (write_log : Bool) (new : ℕ)
      → (write_log && ltb 0 new) ≡ false
      → HasStored (length s.log) s
      → (m : MemStorage) × (write_state write_log new s s.storage ≡ ok m)
        × IsDurable (record s { storage = m })
  unfolding write_state seek seek_to
  write_page_only write_log new skip h = (
    record {
      bytes = page_of s.current_term (own_vote s) (length s.log) ++ drop page_size s.storage.bytes;
      pos = page_size;
    },
    rw (get_voted_for-own_vote s v, skip, page_written s) refl,
    record {
      slots = h.slots;
      rest = h.rest;
      written = ap (λ b. page_of s.current_term (own_vote s) (length s.log) ++ b) h.behind;
      stored = rw (take_all s.log) at h.stored;
    },
  )

  -- The page and the last entries are written.
  write_with_log :
      (new : ℕ)
      → HasU64 s
      → 0 < new
      → new ≤ length s.log
      → HasStored (length s.log - new) s
      → (m : MemStorage) × (write_state true new s s.storage ≡ ok m)
        × IsDurable (record s { storage = m })
  unfolding write_state seek seek_to
  write_with_log new u some_new le h =
      let k = length s.log - new in
      let page = page_of s.current_term (own_vote s) (length s.log) in
      let (out, encoded, tail) =
        encode_entries-StoredLog (replicate entry_size 0) (drop k s.log)
          (length-replicate {A = ℕ} entry_size 0) (All-drop IsStorableEntry k s.log v.storable)
          (All-drop HasTermU64 k s.log u.terms) in
      let (rest', at, e) =
        entries_written page h.slots h.rest out k (take k s.log)
          (length-page_of s.current_term (own_vote s) (length s.log)) h.stored
          (omega (arith, length-take k s.log)) in
      let is_new : ltb 0 new ≡ true = ground arith in
      let at_slot : (write out (
            seek_start (page_size + entry_size * k)
              (record { bytes = page ++ drop page_size s.storage.bytes; pos = page_size }))).1
          ≡ record { bytes = page ++ ((h.slots ++ out) ++ rest'); pos = at } =
        ap (λ m. (write out m).1)
          (seek_start_lem (page_size + entry_size * k)
              (record { bytes = page ++ drop page_size s.storage.bytes; pos = page_size })
              (omega (arith, u.count))
            ∙ ap (λ b. record { bytes = page ++ b; pos = page_size + entry_size * k }) h.behind)
        ∙ e in
      (
        record { bytes = page ++ ((h.slots ++ out) ++ rest'); pos = at },
        rw (get_voted_for-own_vote s v, is_new, page_written s, encoded, at_slot) refl,
        record {
          slots = h.slots ++ out;
          rest = rest';
          written = refl;
          stored =
              rw (take-append-drop k s.log) at
                (StoredLog-append h.slots out (take k s.log) (drop k s.log) h.stored tail);
        },
      )

-- `persist` of a valid server makes it durable, if the storage has the entries before those that it
-- writes; nothing but the storage changes.
pub persist-IsDurable :
    (write_log : Bool) (new : ℕ) (s : Server)
    → IsValid s
    → HasU64 s
    → new ≤ length s.log
    → HasStored (kept_entries write_log new (length s.log)) s
    → (m : MemStorage) × (persist write_log new s ≡ ok (record s { storage = m }))
      × IsDurable (record s { storage = m })
unfolding persist
persist-IsDurable false new s v u le h =
    let (m, e, d) = write_page_only s v false (new_entries false new (length s.log)) refl h in
    (m, rw e refl, d)
persist-IsDurable true new s v u le h =
    let n = new_entries true new (length s.log) in
    let (m, e, d) = write_with_log s v n u (ground (arith, v.started)) (ground arith) h in
    (m, rw e refl, d)
