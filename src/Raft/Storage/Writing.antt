-- ===== src/Raft/Storage/Writing.antt =====
-- Writes and reads at known places of the storage.
use navi_kv.Prelude.{ℕ, suc, ◌+◌, ◌-◌, ◌<◌, ◌≤◌, ◌≡◌, refl, sym, ap, ◌∙◌, arith}
use navi_kv.Prelude.{false, [], ◌++◌, some, ltb, leb, inl, inr, Bool-cases}
use navi_kv.Prelude.{
  length, take, drop, replicate, length-append, length-replicate, take_all, take_front, drop_front,
  drop_all, append-nil, append_assoc,
}
use navi_kv.Bytes.{Bytes}
use navi_kv.Raft.Storage.{MemStorage, read, write, grown}

length-grown : (n : ℕ) → length (grown n []) ≤ n
unfolding grown
length-grown n = ground (arith, length-replicate {A = ℕ} n 0)

-- Writing over an empty storage from its front leaves what is written.
pub write_first :
    (p : Bytes) (m : MemStorage)
    → m.bytes ≡ []
    → m.pos ≡ 0
    → (write p m).1 ≡ record { bytes = p; pos = length p }
unfolding write
write_first p m e z =
    let none_left : drop (length p) (grown (length p) []) ≡ [] =
      drop_all (length p) (grown (length p) []) (length-grown (length p)) in
    let at : 0 + length p ≡ length p = omega arith in rw (e, z, at, none_left, append-nil) refl

pub read_page :
    (p : Bytes) (k : ℕ)
    → length p ≡ suc k
    → read (suc k) (record { bytes = p; pos = 0 }) ≡ (some p, record { bytes = p; pos = suc k })
unfolding read
read_page p k h =
    let all : take (suc k) p ≡ p = ap (λ n. take n p) (sym h) ∙ take_all p in
    let more : leb (length p) 0 ≡ false = ground (arith, h) in
    let at : 0 + length p ≡ suc k = omega (arith, h) in rw (more, all, at) refl

-- What the storage has beyond `end`, when it is grown to there.
drop-grown : (end : ℕ) (bytes : Bytes) → drop end (grown end bytes) ≡ drop end bytes
unfolding grown
drop-grown end bytes = elim (Bool-cases (ltb (length bytes) end)) [
  | inl short ↦
      let zeros = replicate {A = ℕ} (end - length bytes) 0 in
      let size : length (bytes ++ zeros) ≤ end =
        ground
          (arith, length-append bytes zeros, length-replicate {A = ℕ} (end - length bytes) 0) in
      rw short (drop_all end (bytes ++ zeros) size ∙ sym (drop_all end bytes (ground arith)))
  | inr long ↦ rw long
]

-- A write at the front replaces as much as it has bytes.
pub write_front :
    (p : Bytes) (m : MemStorage)
    → m.pos ≡ 0
    → (write p m).1 ≡ record { bytes = p ++ drop (length p) m.bytes; pos = length p }
unfolding write
write_front p m z =
    let at : 0 + length p ≡ length p = omega arith in
    rw (z, at) (ap (λ b. record { bytes = p ++ b; pos = length p }) (drop-grown (length p) m.bytes))

take-grown :
    (end : ℕ) (front back : Bytes) → take (length front) (grown end (front ++ back)) ≡ front
unfolding grown
take-grown end front back = elim (Bool-cases (ltb (length (front ++ back)) end)) [
  | inl short ↦
      let zeros = replicate {A = ℕ} (end - length (front ++ back)) 0 in
      rw (short, append_assoc) (take_front (length front) front (back ++ zeros) refl)
  | inr long ↦ rw long (take_front (length front) front back refl)
]

-- A write behind a front leaves the front, and what it reaches over is behind it.
pub write_behind :
    (p front back : Bytes)
    → (rest : Bytes) × ((write p (record { bytes = front ++ back; pos = length front })).1
        ≡ record { bytes = front ++ (p ++ rest); pos = length front + length p })
unfolding write
write_behind p front back =
    let end = length front + length p in
    (
      drop end (grown end (front ++ back)),
      ap (λ b. record { bytes = b ++ (p ++ drop end (grown end (front ++ back))); pos = end })
          (take-grown end front back),
    )

-- A read of as many bytes as the middle has.
pub read_middle :
    (front mid back : Bytes)
    → 0 < length mid
    → read (length mid) (record { bytes = front ++ (mid ++ back); pos = length front })
      ≡ (some mid, record { bytes = front ++ (mid ++ back); pos = length front + length mid })
unfolding read
read_middle front mid back h =
    let d : drop (length front) (front ++ (mid ++ back)) ≡ mid ++ back =
      drop_front (length front) front (mid ++ back) refl in
    let t : take (length mid) (mid ++ back) ≡ mid = take_front (length mid) mid back refl in
    let more : leb (length (front ++ (mid ++ back))) (length front) ≡ false =
      ground (arith, length-append front (mid ++ back), length-append mid back, h) in
    rw (more, d, t) refl
