-- ===== src/Raft/Persistence/Total.antt =====
-- `persist` returns on every valid server, and touches the storage only.
use navi_kv.Prelude.{All-drop}
use navi_kv.Prelude.{ℕ, ◌-◌, ◌≡◌, refl}
use navi_kv.Prelude.{Bool, true, ◌&&◌, List, [], ◌∷◌, ◌++◌, arith}
use navi_kv.Prelude.{ltb, leb, Bool-cases}
use navi_kv.Prelude.{ok, Returns, Returns-eq_ok}
use navi_kv.Prelude.{length, drop, replicate, All}
use navi_kv.Prelude.{inl, inr}
use navi_kv.Bytes.{Bytes}
use navi_kv.Raft.State.{Entry, Server}
use navi_kv.Raft.Storage.{MemStorage}
use navi_kv.Raft.Config.{entry_size}
use navi_kv.Raft.Invariant.{IsValid, IsStorableEntry, get_voted_for_total}
use navi_kv.Raft.Persistence.{entry_bytes, encode_entries, write_state, persist, new_entries}

encode_entries_total :
    (buffer : Bytes) (es : List Entry)
    → All IsStorableEntry es
    → (out : Bytes) × (encode_entries buffer es ≡ ok out)
unfolding encode_entries
encode_entries_total buffer [] h = ([], refl)
encode_entries_total buffer (e ∷ es) (storable, h) =
    let (out, p) = encode_entries_total (entry_bytes buffer e) es h in
    let fits : leb (length e.command) 112 ≡ true = ground (arith, storable.fits) in
    (entry_bytes buffer e ++ out, rw (fits, p))

write_state-Returns :
    (write_log : Bool) (new : ℕ) (s : Server) (m : MemStorage)
    → IsValid s
    → Returns (λ m'. Unit {0}) (write_state write_log new s m)
unfolding write_state
write_state-Returns write_log new s m v =
    let (vote, e) = get_voted_for_total s v in
    elim (Bool-cases (write_log && ltb 0 new)) [
      | inl both ↦
          let tail = drop (length s.log - new) s.log in
          let (out, p) =
            encode_entries_total (replicate entry_size 0) tail
              (All-drop IsStorableEntry (length s.log - new) s.log v.storable) in
          rw (e, both, p) tt
      | inr page_only ↦ rw (e, page_only) tt
    ]

write_state_total :
    (write_log : Bool) (new : ℕ) (s : Server) (m : MemStorage)
    → IsValid s
    → (m' : MemStorage) × (write_state write_log new s m ≡ ok m')
write_state_total write_log new s m v =
    let (m', e, u) =
      Returns-eq_ok (λ m'. Unit {0}) (write_state write_log new s m)
        (write_state-Returns write_log new s m v) in
    (m', e)

-- `persist` of a valid server returns, for either flag and any count, and what it returns differs
-- in the storage only.
pub persist_total :
    (write_log : Bool) (new : ℕ) (s : Server)
    → IsValid s
    → (m : MemStorage) × (persist write_log new s ≡ ok (record s { storage = m }))
unfolding persist
persist_total write_log new s v =
    let (m, e) =
      write_state_total write_log (new_entries write_log new (length s.log)) s s.storage v in
    (m, rw e)
