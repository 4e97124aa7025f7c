-- ===== src/Raft/Persistence/EarlyRestart.antt =====
-- A restart after the page was written and before any entry was.
use navi_kv.Raft.Storage.Writing.{write_first, read_page}
use navi_kv.Raft.Persistence.Pages.{length-page_of, page_term, page_vote, page_length}
use navi_kv.Prelude.{ℕ, zero, suc, ◌<◌, ◌≤◌, ◌≡◌, refl, arith}
use navi_kv.Prelude.{true, false, [], some, ltb, leb, ◌==◌}
use navi_kv.Prelude.{panic, Returns, length}
use navi_kv.Bytes.{Bytes, IsU64}
use navi_kv.Raft.State.{Server}
use navi_kv.Raft.Invariant.{IsValid, own_vote, get_voted_for-own_vote, set_voted_for-IsValid}
use navi_kv.Raft.Storage.{seek, seek_to, read}
use navi_kv.Raft.Persistence.{
  page_size, page_of, persist, write_state, restore, restore_page, read_entries,
}

-- Reading an entry at the end of the storage panics.
read_at_end :
    (count : ℕ) (p : Bytes) (at : ℕ)
    → 0 < count
    → length p ≤ at
    → read_entries count (record { bytes = p; pos = at }) ≡ panic
unfolding read_entries read
read_at_end zero p at h e = absurd (omega arith)
read_at_end (suc count) p at h e =
    let past : leb (length p) at ≡ true = ground (arith, e) in rw past refl

-- A page that promises entries, and nothing behind it.
restore_lone_page :
    (t v n at : ℕ) (s : Server)
    → IsU64 t
    → IsU64 v
    → IsU64 n
    → 0 < n
    → IsValid s
    → restore_page
        (some (page_of t v n))
        (record s { storage = record { bytes = page_of t v n; pos = at } })
      ≡ panic
unfolding restore_page
restore_lone_page t v n at s ht hv hn some_entry valid =
    let s₀ : Server = record s {
      storage = record { bytes = page_of t v n; pos = at };
      current_term = t;
    } in
    let w : IsValid s₀ = record {
      placed = valid.placed;
      rooted = valid.rooted;
      started = valid.started;
      storable = valid.storable;
    } in
    let (s₁, e, w₁, same) = set_voted_for-IsValid v s₀ w in
    let test : ltb 0 n ≡ true = ground arith in
    let ends =
      read_at_end n (page_of t v n) page_size some_entry (omega (arith, length-page_of t v n)) in
    rw (page_term t v n ht, page_vote t v n hv, e, page_length t v n hn, test, same) (rw ends refl)

restore_written :
    (t v n at : ℕ) (s : Server)
    → IsU64 t
    → IsU64 v
    → IsU64 n
    → 0 < n
    → IsValid s
    → restore (record s { storage = record { bytes = page_of t v n; pos = at } }) ≡ panic
unfolding restore seek seek_to
restore_written t v n at s ht hv hn some_entry valid =
    let whole : (length (page_of t v n) == page_size) ≡ true =
      ground (arith, length-page_of t v n) in
    rw (read_page (page_of t v n) 4095 (length-page_of t v n), whole)
      (restore_lone_page t v n page_size s ht hv hn some_entry valid)

-- A valid server whose storage is still empty, and whose numbers are of 64 bits, writes its term
-- and vote without its log: that returns, but a restart from what it wrote panics.
pub early_restart_panics :
    (s : Server)
    → IsValid s
    → IsU64 s.current_term
    → IsU64 (own_vote s)
    → IsU64 (length s.log)
    → s.storage.bytes ≡ []
    → Returns (λ s'. restore s' ≡ panic) (persist false 0 s)
unfolding persist write_state seek seek_to
early_restart_panics s v ht hv hn empty =
    let p = page_of s.current_term (own_vote s) (length s.log) in
    let wrote = write_first p (record s.storage { pos = 0 }) empty refl in
    rw (get_voted_for-own_vote s v, wrote)
      (restore_written s.current_term (own_vote s) (length s.log) (length p) s ht hv hn v.started v)
