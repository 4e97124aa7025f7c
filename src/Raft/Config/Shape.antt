-- ===== src/Raft/Config/Shape.antt =====
-- What `encode_config_change` writes: the marker, the count and the members one after the other.
use navi_kv.Prelude.{ℕ, ◌+◌, ◌%◌, ◌≤◌, ◌≡◌, refl, ap, ◌∙◌}
use navi_kv.Prelude.{false, List, [], ◌∷◌, ◌++◌, arith}
use navi_kv.Prelude.{ltb, Bool-cases}
use navi_kv.Prelude.{length, All, length-append}
use navi_kv.Prelude.{inl, inr, append-nil, append_assoc}
use navi_kv.Bytes.{Bytes, put_u64}
use navi_kv.Prelude.{length-append}
use navi_kv.Bytes.Laws.{length-to_le}
use navi_kv.Raft.State.{ClusterMember}
use navi_kv.Raft.Config.{encode_member, encode_members, payload}

unfoldable pub members_bytes : List ClusterMember → Bytes
members_bytes [] = []
members_bytes (m ∷ ms) = encode_member m ++ members_bytes ms

abbrev pub HasShortAddress : ClusterMember → Type 0
HasShortAddress m = length m.address ≤ 255

pub encode_members-payload :
    (buf : Bytes) (ms : List ClusterMember) (p : Bytes)
    → encode_members buf ms ≡ payload p
    → (p ≡ buf ++ members_bytes ms) × All HasShortAddress ms
unfolding encode_members members_bytes
encode_members-payload buf [] p h = (ground (arith, append-nil buf), tt)
encode_members-payload buf (m ∷ ms) p h = elim (Bool-cases (ltb 255 (length m.address))) [
  | inl long ↦ cc (rw long at h)
  | inr short ↦
      let (e, s) = encode_members-payload (buf ++ encode_member m) ms p (rw short at h) in
      (e ∙ append_assoc buf (encode_member m) (members_bytes ms), (ground arith, s))
]

pub encode_members_short :
    (buf : Bytes) (ms : List ClusterMember)
    → All HasShortAddress ms
    → encode_members buf ms ≡ payload (buf ++ members_bytes ms)
unfolding encode_members members_bytes
encode_members_short buf [] h = rw append-nil
encode_members_short buf (m ∷ ms) (short, h) =
    let e : ltb 255 (length m.address) ≡ false = ground arith in
    rw e (
      encode_members_short (buf ++ encode_member m) ms h
      ∙ ap payload (append_assoc buf (encode_member m) (members_bytes ms)))

abbrev pub members_size : List ClusterMember → ℕ
members_size [] = 0
members_size (m ∷ ms) = 9 + length m.address + members_size ms

pub length-members_bytes : (ms : List ClusterMember) → length (members_bytes ms) ≡ members_size ms
unfolding members_bytes
length-members_bytes [] = refl
length-members_bytes (m ∷ ms) =
    let tail : Bytes = (length m.address % 256) ∷ m.address in
    omega (
      arith,
      length-members_bytes ms,
      length-append (encode_member m) (members_bytes ms),
      length-append (put_u64 m.id) tail,
      length-to_le 8 m.id,
    )
