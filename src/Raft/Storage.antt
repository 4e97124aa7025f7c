-- ===== src/Raft/Storage.antt =====
-- navi/storage.go: the in-memory storage. `pos` is never negative, since `Seek` refuses it.
pub mod Writing
use navi_kv.Prelude.{ℕ, suc, ◌+◌, ◌-◌, ◌^◌}
use navi_kv.Prelude.{Option, none, some, [], ◌++◌}
use navi_kv.Prelude.{ltb, leb, ◌==◌, if◌then◌else◌}
use navi_kv.Prelude.{length, take, drop, replicate}
use navi_kv.Bytes.{Bytes}
use navi_kv.Prelude.Int.{ℤ, pos, negsuc}

pub record MemStorage : Type 0 where
  pub bytes : Bytes
  pub pos : ℕ

-- `NewMemStorage`
abbrev pub new_mem_storage : MemStorage
new_mem_storage = record { bytes = []; pos = 0 }

pub data SeekError : Type 0 where
  invalid_origin negative_position : SeekError

pub data SeekResult : Type 0 where
  sought : ℕ → SeekResult
  refused : SeekError → SeekResult

abbrev i64_limit : ℕ
i64_limit = 2 ^ 63

-- start + offset as an int64; a sum above the range wraps to a negative number.
unfoldable pub seek_to : ℕ → ℤ → Option ℕ
seek_to start (pos n) = if ltb (start + n) i64_limit then some (start + n) else none
seek_to start (negsuc n) = if ltb n start then some (start - suc n) else none

abbrev pub settle : Option ℕ → MemStorage → SeekResult × MemStorage
settle none m = (refused negative_position, m)
settle (some p) m = (sought p, record m { pos = p })

-- The origins 0, 1 and 2 are `io.SeekStart`, `io.SeekCurrent` and `io.SeekEnd`.
unfoldable pub seek : ℤ → ℕ → MemStorage → SeekResult × MemStorage
unfolding seek_to
seek offset origin m =
    if origin == 0
    then settle (seek_to 0 offset) m
    else if origin == 1
    then settle (seek_to m.pos offset) m
    else if origin == 2
    then settle (seek_to (length m.bytes) offset) m
    else (refused invalid_origin, m)

-- `Read` into a buffer of `n` bytes: what was copied, or `none` for `io.EOF`.
unfoldable pub read : ℕ → MemStorage → Option Bytes × MemStorage
read n m =
    let got = take n (drop m.pos m.bytes) in
    if leb (length m.bytes) m.pos
    then (none, m)
    else (some got, record m { pos = m.pos + length got })

-- `make([]byte, end)` and a copy, where the write passes the end.
unfoldable pub grown : ℕ → Bytes → Bytes
grown end bytes =
    if ltb (length bytes) end then bytes ++ replicate (end - length bytes) 0 else bytes

unfoldable pub write : Bytes → MemStorage → ℕ × MemStorage
unfolding grown
write p m =
    let end = m.pos + length p in
    let room = grown end m.bytes in
    (length p, record { bytes = take m.pos room ++ (p ++ drop end room); pos = end })
