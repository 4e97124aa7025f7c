-- ===== src/Raft/Persistence/Pages.antt =====
-- The page in front of the log file.
use navi_kv.Prelude.{ℕ, ◌-◌, ◌≡◌, refl, sym, ap, ◌∙◌, arith, [], ◌++◌, ok, length, replicate}
use navi_kv.Prelude.{length-append, length-replicate, append_assoc}
use navi_kv.Bytes.{IsU64, put_u64, get_u64}
use navi_kv.Bytes.Laws.{get_u64_middle, length-to_le}
use navi_kv.Raft.Persistence.{page_size, page_of}

pub length-page_of : (t v n : ℕ) → length (page_of t v n) ≡ page_size
unfolding page_of
length-page_of t v n = omega (
  arith,
  length-append (put_u64 t) (put_u64 v ++ (put_u64 n ++ replicate (page_size - 24) 0)),
  length-append (put_u64 v) (put_u64 n ++ replicate (page_size - 24) 0),
  length-append (put_u64 n) (replicate (page_size - 24) 0),
  length-to_le 8 t,
  length-to_le 8 v,
  length-to_le 8 n,
  length-replicate {A = ℕ} (page_size - 24) 0,
)

module _ (t v n : ℕ) where
  pub page_term : IsU64 t → get_u64 (page_of t v n) 0 ≡ ok t
  unfolding page_of
  page_term h =
      get_u64_middle [] (put_u64 v ++ (put_u64 n ++ replicate (page_size - 24) 0)) 0 t refl h

  pub page_vote : IsU64 v → get_u64 (page_of t v n) 8 ≡ ok v
  unfolding page_of
  page_vote h =
      get_u64_middle (put_u64 t) (put_u64 n ++ replicate (page_size - 24) 0) 8 v
        (sym (length-to_le 8 t)) h

  pub page_length : IsU64 n → get_u64 (page_of t v n) 16 ≡ ok n
  unfolding page_of
  page_length h =
      let front = put_u64 t ++ put_u64 v in
      let size : 16 ≡ length front =
        omega (arith, length-append (put_u64 t) (put_u64 v), length-to_le 8 t, length-to_le 8 v) in
      ap (λ b. get_u64 b 16)
        (sym (append_assoc (put_u64 t) (put_u64 v) (put_u64 n ++ replicate (page_size - 24) 0)))
      ∙ get_u64_middle front (replicate (page_size - 24) 0) 16 n size h
