-- ===== src/Raft/Config/RoundTrip.antt =====
-- Decoding an encoded config change, and when a cluster can be encoded.
use navi_kv.Prelude.{ℕ, zero, suc, ◌+◌, ◌-◌, ◌%◌, ◌≤◌, ◌≡◌, refl, sym, ◌∙◌}
use navi_kv.Prelude.{true, false, some, List, [], ◌∷◌, ◌++◌, map, arith}
use navi_kv.Prelude.{ltb, Bool-cases}
use navi_kv.Prelude.{ok, ◌>>=◌}
use navi_kv.Prelude.{length, get_elem?, All, length-append}
use navi_kv.Prelude.{inl, inr, ◌↔◌, append-nil, append_assoc}
use navi_kv.Bytes.{Bytes, IsU64, put_u64, get_u64, slice}
use navi_kv.Prelude.{length-append}
use navi_kv.Bytes.Laws.{length-to_le, slice_middle, get_u64_middle}
use navi_kv.Raft.State.{ClusterMember}
use navi_kv.Raft.Config.{encode_member, encode_members, encode_config_change, payload, Encoded}
use navi_kv.Raft.Config.{config_change_marker, is_config_change_command, new_member, decode_members}
use navi_kv.Raft.Config.{check_size, decode_config_change, encode_error, entry_size, entry_header}
use navi_kv.Raft.Config.Shape.{members_bytes, HasShortAddress, encode_members-payload}
use navi_kv.Raft.Config.Shape.{encode_members_short, members_size, length-members_bytes}

-- A member as it comes back: the bookkeeping fields are not encoded.
abbrev pub fresh : ClusterMember → ClusterMember
fresh m = new_member m.id m.address

abbrev pub HasIdU64 : ClusterMember → Type 0
HasIdU64 m = IsU64 m.id

get_elem?-append_self {ℓ} :
    {A : Type ℓ} (xs : List A) (y : A) (ys : List A) (i : ℕ)
    → i ≡ length xs
    → get_elem? (xs ++ y ∷ ys) i ≡ some y
get_elem?-append_self [] y ys zero h = refl
get_elem?-append_self [] y ys (suc i) h = absurd (omega arith)
get_elem?-append_self (x ∷ xs) y ys zero h = absurd (omega arith)
get_elem?-append_self (x ∷ xs) y ys (suc i) h = get_elem?-append_self xs y ys i (omega arith)

module _ (front : Bytes) (m : ClusterMember) (rest : Bytes) where
  abbrev whole : Bytes
  whole = front ++ (encode_member m ++ rest)

  member_id : (pos : ℕ) → pos ≡ length front → IsU64 m.id → get_u64 whole pos ≡ ok m.id
  member_id pos p h =
      rw (append_assoc (put_u64 m.id) ((length m.address % 256) ∷ m.address) rest)
        (get_u64_middle front ((length m.address % 256) ∷ m.address ++ rest) pos m.id p h)

  member_length :
      (pos : ℕ)
      → pos ≡ length front
      → HasShortAddress m
      → get_elem? whole (pos + 8) ≡ some (length m.address)
  member_length pos p h =
      let e : length m.address % 256 ≡ length m.address = omega arith in
      rw
        (
          append_assoc (put_u64 m.id) ((length m.address % 256) ∷ m.address) rest,
          ← append_assoc front (put_u64 m.id) ((length m.address % 256) ∷ m.address ++ rest),
          e,
        )
        (get_elem?-append_self (front ++ put_u64 m.id) (length m.address) (m.address ++ rest)
          (pos + 8) (omega (arith, length-append front (put_u64 m.id), length-to_le 8 m.id)))

  member_address :
      (pos : ℕ)
      → pos ≡ length front
      → slice whole (pos + 9) (pos + 9 + length m.address) ≡ ok m.address
  member_address pos p =
      let head : Bytes = put_u64 m.id ++ (length m.address % 256) ∷ [] in
      let e : whole ≡ (front ++ head) ++ (m.address ++ rest) = simp append_assoc in
      rw e (
        slice_middle (front ++ head) m.address rest (pos + 9) (pos + 9 + length m.address)
          (omega (
            arith,
            length-append front head,
            length-append (put_u64 m.id) ((length m.address % 256) ∷ []),
            length-to_le 8 m.id,
          ))
          (omega (
            arith,
            length-append front head,
            length-append (put_u64 m.id) ((length m.address % 256) ∷ []),
            length-to_le 8 m.id,
          )))

  -- One round of the decoder's loop, at a member that starts at `pos`.
  decode_member :
      (count pos : ℕ)
      → pos ≡ length front
      → HasIdU64 m
      → HasShortAddress m
      → decode_members (suc count) pos whole
        ≡ (do ms ← decode_members count (pos + 9 + length m.address) whole; ok (fresh m ∷ ms))
  unfolding decode_members
  decode_member count pos p i a =
      rw (member_id pos p i, member_length pos p a, member_address pos p)

  length-front_member :
      (pos : ℕ)
      → pos ≡ length front
      → pos + 9 + length m.address ≡ length (front ++ encode_member m)
  length-front_member pos p = omega (
    arith,
    length-append front (encode_member m),
    length-append (put_u64 m.id) ((length m.address % 256) ∷ m.address),
    length-to_le 8 m.id,
  )

-- The decoder's loop reads back the members that stand at `pos`.
decode_members-members_bytes :
    (ms : List ClusterMember) (front rest : Bytes) (pos : ℕ)
    → pos ≡ length front
    → All HasIdU64 ms
    → All HasShortAddress ms
    → decode_members (length ms) pos (front ++ (members_bytes ms ++ rest)) ≡ ok (map fresh ms)
unfolding members_bytes
decode_members-members_bytes [] front rest pos p ids short = unfold decode_members in refl
decode_members-members_bytes (m ∷ ms) front rest pos p (i, ids) (a, short) =
    let more : Bytes = members_bytes ms ++ rest in
    let next : front ++ (encode_member m ++ more) ≡ (front ++ encode_member m) ++ more =
      sym (append_assoc front (encode_member m) more) in
    rw (append_assoc (encode_member m) (members_bytes ms) rest) (
      decode_member front m more (length ms) pos p i a
      ∙ rw (
        next,
        decode_members-members_bytes ms (front ++ encode_member m) rest (pos + 9 + length m.address)
            (length-front_member front m more pos p) ids short,
      ))

-- What `encode_config_change` accepts: 255 members, addresses of 255 bytes, 112 bytes in all.
pub record CanEncode (ms : List ClusterMember) : Type 0 where
  pub few : length ms ≤ 255
  pub short : All HasShortAddress ms
  pub small : 2 + members_size ms ≤ entry_size - entry_header

encode-payload :
    (ms : List ClusterMember) (p : Bytes)
    → encode_config_change ms ≡ payload p
    → (p ≡ config_change_marker ∷ length ms ∷ members_bytes ms) × CanEncode ms
unfolding encode_config_change
encode-payload ms p h = elim (Bool-cases (ltb 255 (length ms))) [
  | inl many ↦ cc (rw many at h)
  | inr few ↦
      let head : Bytes = config_change_marker ∷ (length ms % 256) ∷ [] in
      finish (encode_members head ms) refl few (rw few at h)
]
  where
    finish :
        (r : Encoded)
        → encode_members (config_change_marker ∷ (length ms % 256) ∷ []) ms ≡ r
        → ltb 255 (length ms) ≡ false
        → check_size r ≡ payload p
        → (p ≡ config_change_marker ∷ length ms ∷ members_bytes ms) × CanEncode ms
    finish (encode_error x) e few h' = cc
    finish (payload buf) e few h' =
        let (shape, short) =
          encode_members-payload (config_change_marker ∷ (length ms % 256) ∷ []) ms buf e in
        let n : length ms % 256 ≡ length ms = ground arith in
        let fits : length buf ≤ 112 = ground arith in
        let same : p ≡ buf = ground arith in
        let total : length buf ≡ 2 + members_size ms =
          rw shape (omega (arith, length-members_bytes ms)) in
        (same ∙ rw n at shape, record { few = ground arith; short = short; small = omega arith })

-- A config change of members with 64-bit ids that is encoded decodes to the same ids and addresses
-- in the same order, with the bookkeeping fields zero; and the payload is recognised as a config
-- change and fits the 112 bytes of a log slot.
pub decode-encode :
    (ms : List ClusterMember) (p : Bytes)
    → All HasIdU64 ms
    → encode_config_change ms ≡ payload p
    → (decode_config_change p ≡ ok (map fresh ms))
      × (is_config_change_command p ≡ true)
      × (length p ≤ entry_size - entry_header)
unfolding decode_config_change is_config_change_command
decode-encode ms p ids h =
    let (shape, can) = encode-payload ms p h in
    let e : config_change_marker ∷ length ms ∷ (members_bytes ms ++ []) ≡ p =
      rw append-nil (sym shape) in
    let d =
      decode_members-members_bytes ms (config_change_marker ∷ length ms ∷ []) [] 2 refl ids
        can.short in
    let size : length p ≤ 112 = rw shape (omega (arith, can.small, length-members_bytes ms)) in
    let d' : decode_members (length ms) 2 (config_change_marker ∷ length ms ∷ members_bytes ms)
        ≡ ok (map fresh ms) =
      rw append-nil at d in
    (rw shape d', rw shape refl, size)

-- Encoding succeeds exactly on the clusters within the three limits, and is an error on all others.
pub encode_succeeds_iff :
    (ms : List ClusterMember) → ((p : Bytes) × (encode_config_change ms ≡ payload p)) ↔ CanEncode ms
unfolding encode_config_change
encode_succeeds_iff ms = (
  λ r. (encode-payload ms r.0 r.1).1,
  λ can.
      let head : Bytes = config_change_marker ∷ (length ms % 256) ∷ [] in
      let few : ltb 255 (length ms) ≡ false = ground (arith, can.few) in
      let e = encode_members_short head ms can.short in
      let fits : ltb 112 (length (head ++ members_bytes ms)) ≡ false =
        ground (arith, can.small, length-members_bytes ms) in
      (head ++ members_bytes ms, rw few (rw e (rw fits refl))),
)
