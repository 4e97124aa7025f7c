-- ===== src/Raft/Persistence/Recovering.antt =====
-- `restore` of what `persist` has written.
use navi_kv.Raft.Persistence.{seek_start, read_entries}
use navi_kv.Prelude.{suc, ◌+◌, ◌≡◌, refl, ap, ◌∙◌, arith}
use navi_kv.Prelude.{true, false, List, [], ◌∷◌, ◌++◌, map, some, ltb, ◌==◌, if◌then◌else◌}
use navi_kv.Prelude.{◌>>=◌, Returns, Returns-map, length, All}
use navi_kv.Bytes.{Bytes}
use navi_kv.Raft.State.{Entry, Server, get_voted_for}
use navi_kv.Raft.Invariant.{
  IsValid, IsStorableEntry, own_vote, get_voted_for_total, set_voted_for-IsValid, IsValid-storage,
}
use navi_kv.Raft.Cluster.{rebuild_cluster_from_log}
use navi_kv.Raft.Cluster.Rebuild.{Rebuilt, rebuild_cluster_lem}
use navi_kv.Raft.Storage.{MemStorage, read}
use navi_kv.Raft.Storage.Writing.{read_middle}
use navi_kv.Raft.Persistence.Pages.{length-page_of, page_term, page_vote, page_length}
use navi_kv.Raft.Persistence.LogFile.{restored, StoredLog, read_entries-StoredLog}
use navi_kv.Raft.Persistence.{page_size, page_of, ensure_log, restore, restore_page}
use navi_kv.Raft.Persistence.Durable.{IsDurable, HasU64, seek_start_lem}

-- What a restart keeps: the term, and the log without its channels.
pub record Recovered (s s' : Server) : Type 0 where
  pub term : s'.current_term ≡ s.current_term
  pub log : s'.log ≡ map restored s.log
  pub valid : IsValid s'

restored-IsStorable :
    (es : List Entry) → All IsStorableEntry es → All IsStorableEntry (map restored es)
restored-IsStorable [] h = tt
restored-IsStorable (e ∷ es) (p, h) =
    (record { fits = p.fits; decodes = p.decodes }, restored-IsStorable es h)

length-restored : (es : List Entry) → length (map restored es) ≡ length es
length-restored [] = refl
length-restored (e ∷ es) = ap suc (length-restored es)

-- The server with the restored log, before its cluster is rebuilt.
reloaded-IsValid :
    (s : Server) (m : MemStorage)
    → IsValid s
    → IsValid (record s { log = map restored s.log; storage = m })
reloaded-IsValid s m v = record {
  placed = v.placed;
  rooted = v.rooted;
  started = omega (arith, v.started, length-restored s.log);
  storable = restored-IsStorable s.log v.storable;
}

rebuilt_after_restart :
    (s : Server)
    → IsValid s
    → Returns
        (λ s'. (s'.current_term ≡ s.current_term) × (s'.log ≡ s.log) × IsValid s')
        (get_voted_for (ensure_log s) >>= λ vote. rebuild_cluster_from_log vote (ensure_log s))
unfolding ensure_log
rebuilt_after_restart s v =
    let (x, e) = get_voted_for_total s v in
    let there : (length s.log == 0) ≡ false = ground (arith, v.started) in
    rw (there, e)
      (Returns-map (Rebuilt x s)
        (λ s'. (s'.current_term ≡ s.current_term) × (s'.log ≡ s.log) × IsValid s')
        (rebuild_cluster_from_log x s) (rebuild_cluster_lem x s v.storable v.rooted)
        λ s' p b. rw b.rest (
          refl,
          refl,
          record {
            placed = b.placed;
            rooted = v.rooted;
            started = v.started;
            storable = v.storable;
          },
        ))

-- The part of `restore` behind the term and the vote.
log_restored :
    (page slots rest : Bytes) (es : List Entry) (s : Server)
    → IsValid s
    → s.storage.bytes ≡ page ++ (slots ++ rest)
    → length page ≡ page_size
    → StoredLog slots es
    → All IsStorableEntry es
    → ltb 0 (length es) ≡ true
    → Returns
        (λ s'. (s'.current_term ≡ s.current_term) × (s'.log ≡ map restored es) × IsValid s')
        (do
          (es', m) ←
              read_entries
                (length es)
                (if ltb 0 (length es) then seek_start page_size s.storage else s.storage)
          let s₂ = ensure_log (record s { log = es'; storage = m })
          vote ← get_voted_for s₂
          rebuild_cluster_from_log vote s₂)
log_restored page slots rest es s v bytes size stored storable some_log =
    let read_back = rw size at (read_entries-StoredLog page slots rest es stored) in
    let m : MemStorage = record {
      bytes = page ++ (slots ++ rest);
      pos = page_size + length slots;
    } in
    rw (some_log, seek_start_lem page_size s.storage (omega arith), bytes, read_back)
      (rebuilt_after_restart (record s { log = map restored es; storage = m })
        (record {
          placed = v.placed;
          rooted = v.rooted;
          started = ground (arith, some_log, length-restored es);
          storable = restored-IsStorable es storable;
        }))

-- A durable server is recovered by `restore`.
pub restore-IsDurable :
    (s : Server) → IsValid s → HasU64 s → IsDurable s → Returns (Recovered s) (restore s)
unfolding restore restore_page
restore-IsDurable s v u d =
    let page = page_of s.current_term (own_vote s) (length s.log) in
    let size = length-page_of s.current_term (own_vote s) (length s.log) in
    let whole = page ++ (d.slots ++ d.rest) in
    let got : read page_size (seek_start 0 s.storage)
        ≡ (some page, record { bytes = whole; pos = page_size }) =
      ap (λ m. read page_size m)
        (seek_start_lem 0 s.storage (omega arith)
          ∙ ap (λ b. record { bytes = b; pos = 0 }) d.written)
      ∙ rw size at (read_middle [] page (d.slots ++ d.rest) (omega (arith, size))) in
    let full : (length page == page_size) ≡ true = ground (arith, size) in
    let s₀ : Server = record s { storage = record { bytes = whole; pos = page_size } } in
    let (s₁, e, v₁, same) =
      set_voted_for-IsValid (own_vote s) s₀
        (IsValid-storage s (record { bytes = whole; pos = page_size }) v) in
    rw
      (
        got,
        full,
        page_term s.current_term (own_vote s) (length s.log) u.term,
        page_vote s.current_term (own_vote s) (length s.log) u.vote,
        e,
        page_length s.current_term (own_vote s) (length s.log) (omega (arith, u.count)),
      )
      (Returns-map
        (λ s'. (s'.current_term ≡ s₁.current_term) × (s'.log ≡ map restored s.log) × IsValid s')
        (Recovered s) _
        (log_restored page d.slots d.rest s.log s₁ v₁ (ap (λ x. x.storage.bytes) same) size d.stored
          v.storable (has_entries s v))
        λ s' p r. record { term = r.0 ∙ ap (λ x. x.current_term) same; log = r.1; valid = r.2 })
  where
    has_entries : (s : Server) → IsValid s → ltb 0 (length s.log) ≡ true
    has_entries s v = ground (arith, v.started)
