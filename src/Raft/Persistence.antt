-- ===== src/Raft/Persistence.antt =====
-- navi/persistence.go: the durable state, in one page and one slot of 128 bytes for each entry.
-- The writer of bufio hands its bytes on in order, so its writes are one write of all of them.
pub mod Total
pub mod Pages
pub mod LogFile
pub mod Durable
pub mod Recovering
pub mod Restart
pub mod EarlyRestart
use navi_kv.Prelude.{ℕ, zero, suc, ◌+◌, ◌-◌, ◌*◌, ◌/◌}
use navi_kv.Prelude.{Bool, not, ◌&&◌, Option, none, some, List, [], ◌∷◌, ◌++◌}
use navi_kv.Prelude.{ltb, leb, ◌==◌, if◌then◌else◌}
use navi_kv.Prelude.{◌>>=◌, ◌>>◌, Outcome, ok, panic, or_panic, assert}
use navi_kv.Prelude.{length, drop, replicate}
use navi_kv.Bytes.{Bytes, put_u64, get_u64, slice}
use navi_kv.Prelude.Int.{pos}
use navi_kv.Raft.Storage.{MemStorage, seek, read, write}
use navi_kv.Raft.State.{Entry, Server, get_voted_for, set_voted_for}
use navi_kv.Raft.Config.{entry_header, entry_size}
use navi_kv.Raft.Cluster.{rebuild_cluster_from_log}

abbrev pub page_size : ℕ
page_size = 4096

abbrev pub seek_start : ℕ → MemStorage → MemStorage
seek_start p m = (seek (pos p) 0 m).1

-- The page: term, vote and log length, and zeros behind them.
unfoldable pub page_of : ℕ → ℕ → ℕ → Bytes
page_of term vote len =
    put_u64 term ++ (put_u64 vote ++ (put_u64 len ++ replicate (page_size - 24) 0))

-- The slot of one entry. The buffer is not cleared, so what the last entry left stays behind a
-- shorter command.
abbrev pub entry_bytes : Bytes → Entry → Bytes
entry_bytes buffer e =
    put_u64 e.term
    ++ (put_u64 (length e.command) ++ (e.command ++ drop (entry_header + length e.command) buffer))

-- The loop over the entries: the bytes that go to the writer, from the buffer on.
unfoldable pub encode_entries : Bytes → List Entry → Outcome Bytes
encode_entries buffer [] = ok []
encode_entries buffer (e ∷ es) = do
  assert (leb (length e.command) (entry_size - entry_header))
  rest ← encode_entries (entry_bytes buffer e) es
  ok (entry_bytes buffer e ++ rest)

-- The storage after the page and, if `write_log`, the last `new` entries.
unfoldable pub write_state : Bool → ℕ → Server → MemStorage → Outcome MemStorage
unfolding encode_entries seek write page_of
write_state write_log new s m = do
  vote ← get_voted_for s
  let paged = (write (page_of s.current_term vote (length s.log)) (seek_start 0 m)).1
  if write_log && ltb 0 new
      then (do
        let offset = length s.log - new
        out ← encode_entries (replicate entry_size 0) (drop offset s.log)
        ok (write out (seek_start (page_size + entry_size * offset) paged)).1)
      else ok paged

abbrev pub new_entries : Bool → ℕ → ℕ → ℕ
new_entries write_log new len = if new == 0 && write_log then len else new

unfoldable pub persist : Bool → ℕ → Server → Outcome Server
unfolding write_state
persist write_log new s = do
  m ← write_state write_log (new_entries write_log new (length s.log)) s s.storage
  ok (record s { storage = m })

unfoldable pub ensure_log : Server → Server
ensure_log s =
    if length s.log == 0
    then record s { log = record { command = []; term = 0; result = none } ∷ [] }
    else s

-- `Read` of a whole buffer: a short read fails the assertion, and `io.EOF` is `none`.
abbrev pub read_full : ℕ → Option Bytes → Outcome (Option Bytes)
read_full n none = ok none
read_full n (some b) = if length b == n then ok (some b) else panic

-- The loop of `restore`: `count` entries from the storage.
unfoldable pub read_entries : ℕ → MemStorage → Outcome (List Entry × MemStorage)
unfolding read get_u64 slice
read_entries zero m = ok ([], m)
read_entries (suc count) m = do
  got ← read_full entry_size (read entry_size m).0
  b ← or_panic got
  t ← get_u64 b 0
  n ← get_u64 b 8
  c ← slice b 16 (16 + n)
  (es, m') ← read_entries count (read entry_size m).1
  ok (record { command = c; term = t; result = none } ∷ es, m')

-- `restore` after its read of the page.
unfoldable pub restore_page : Option Bytes → Server → Outcome Server
unfolding read_entries ensure_log seek
restore_page none s = do
  vote ← get_voted_for (ensure_log s)
  rebuild_cluster_from_log vote (ensure_log s)
restore_page (some page) s = do
  t ← get_u64 page 0
  v ← get_u64 page 8
  s₁ ← set_voted_for v (record s { current_term = t })
  n ← get_u64 page 16
  (es, m) ← read_entries n (if ltb 0 n then seek_start page_size s₁.storage else s₁.storage)
  let s₂ = ensure_log (record s₁ { log = es; storage = m })
  vote ← get_voted_for s₂
  rebuild_cluster_from_log vote s₂

unfoldable pub restore : Server → Outcome Server
unfolding restore_page seek read
restore s = do
  let (got, m) = read page_size (seek_start 0 s.storage)
  page ← read_full page_size got
  restore_page page (record s { storage = m })
