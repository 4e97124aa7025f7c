-- ===== src/Raft/Config.antt =====
-- navi/membership.go: the encoding of a config change as a command.
mod Shape
pub mod RoundTrip
use navi_kv.Prelude.{ℕ, zero, suc, ◌+◌, ◌-◌, ◌/◌, ◌%◌}
use navi_kv.Prelude.{Bool, false, List, [], ◌∷◌, ◌++◌}
use navi_kv.Prelude.{ltb, ◌==◌, if◌then◌else◌}
use navi_kv.Prelude.{◌>>=◌, Outcome, ok, panic, or_panic}
use navi_kv.Prelude.{length, get_elem?}
use navi_kv.Bytes.{Bytes, put_u64, get_u64, slice}
use navi_kv.Raft.State.{ClusterMember}

pub data EncodeError : Type 0 where
  too_many_members address_too_long config_change_too_large : EncodeError

pub data Encoded : Type 0 where
  payload : Bytes → Encoded
  encode_error : EncodeError → Encoded

abbrev pub config_change_marker : ℕ
config_change_marker = 0xff

abbrev pub entry_header : ℕ
entry_header = 16

abbrev pub entry_size : ℕ
entry_size = 128

unfoldable pub is_config_change_command : Bytes → Bool
is_config_change_command [] = false
is_config_change_command (b ∷ bs) = b == config_change_marker

-- The bytes of one member: the header of nine bytes and the address.
abbrev pub encode_member : ClusterMember → Bytes
encode_member m = put_u64 m.id ++ (length m.address % 256) ∷ m.address

-- The loop over the members, behind what `buf` holds already.
unfoldable pub encode_members : Bytes → List ClusterMember → Encoded
encode_members buf [] = payload buf
encode_members buf (m ∷ ms) =
    let rest = encode_members (buf ++ encode_member m) ms in
    if ltb 255 (length m.address) then encode_error address_too_long else rest

abbrev pub check_size : Encoded → Encoded
check_size (encode_error e) = encode_error e
check_size (payload buf) =
    if ltb (entry_size - entry_header) (length buf)
    then encode_error config_change_too_large
    else payload buf

unfoldable pub encode_config_change : List ClusterMember → Encoded
unfolding encode_members
encode_config_change members =
    if ltb 255 (length members)
    then encode_error too_many_members
    else check_size (encode_members (config_change_marker ∷ (length members % 256) ∷ []) members)

-- `ClusterMember{Id: id, Address: address}`
abbrev pub new_member : ℕ → Bytes → ClusterMember
new_member i a = record { id = i; address = a; next_index = 0; match_index = 0; voted_for = 0 }

-- The loop over the members that are left, at `pos`.
unfoldable pub decode_members : ℕ → ℕ → Bytes → Outcome (List ClusterMember)
unfolding get_u64 slice
decode_members zero pos cmd = ok []
decode_members (suc count) pos cmd = do
  i ← get_u64 cmd pos
  n ← or_panic (get_elem? cmd (pos + 8))
  a ← slice cmd (pos + 9) (pos + 9 + n)
  rest ← decode_members count (pos + 9 + n) cmd
  ok (new_member i a ∷ rest)

unfoldable pub decode_config_change : Bytes → Outcome (List ClusterMember)
unfolding decode_members
decode_config_change (b ∷ count ∷ rest) =
    if b == config_change_marker then decode_members count 2 (b ∷ count ∷ rest) else panic
decode_config_change _ = panic
