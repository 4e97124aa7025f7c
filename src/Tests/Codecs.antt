-- ===== src/Tests/Codecs.antt =====
-- The theorems about the encodings and the key-value state machine at concrete inputs.
use navi_kv.Prelude.{◌-◌, ◌≤◌, ◌≡◌, refl}
use navi_kv.Prelude.{true, false, none, [], ◌∷◌, arith}
use navi_kv.Prelude.{ok, ◌>>=◌, Returns}
use navi_kv.Prelude.{length}
use navi_kv.Prelude.{◌↔◌}
use navi_kv.Bytes.{Bytes}
use navi_kv.Raft.Config.{
  payload, encode_config_change, decode_config_change, is_config_change_command,
}
use navi_kv.Raft.Config.{entry_size, entry_header}
use navi_kv.Raft.Config.RoundTrip.{decode-encode, CanEncode, encode_succeeds_iff}
use navi_kv.Raft.Invariant.{IsStorable}
use navi_kv.Kv.{Command, encode_command, decode_command, apply, found}
use navi_kv.Kv.RoundTrip.{IsCommand, decode-encode_command, encode_command-IsStorable}
use navi_kv.Kv.Machine.{apply_all, last_value, get_last_set}
use navi_kv.Tests.Samples.{all_open, founders}

-- What the founders encode to.
abbrev founders_bytes : Bytes
founders_bytes =
    0xff ∷ 3 ∷ 1 ∷ 0 ∷ 0 ∷ 0 ∷ 0 ∷ 0 ∷ 0 ∷ 0 ∷ 1 ∷ b'a' ∷ 2 ∷ 0 ∷ 0 ∷ 0 ∷ 0 ∷ 0 ∷ 0 ∷ 0 ∷ 1 ∷ b'b'
    ∷ 3 ∷ 0 ∷ 0 ∷ 0 ∷ 0 ∷ 0 ∷ 0 ∷ 0 ∷ 1 ∷ b'c' ∷ []

founders_payload : encode_config_change founders ≡ payload founders_bytes
unfolding all_open
founders_payload = refl

decode-encode_example :
    (decode_config_change founders_bytes ≡ ok founders)
    × (is_config_change_command founders_bytes ≡ true)
    × (length founders_bytes ≤ entry_size - entry_header)
decode-encode_example = decode-encode founders founders_bytes (omega arith) founders_payload

encode_succeeds_iff_example :
    ((p : Bytes) × (encode_config_change founders ≡ payload p)) ↔ CanEncode founders
encode_succeeds_iff_example = encode_succeeds_iff founders

abbrev set_a : Command
set_a = record { kind = 0; key = b'a' ∷ []; value = b'1' ∷ b'2' ∷ [] }

abbrev get_a : Command
get_a = record { kind = 1; key = b'a' ∷ []; value = [] }

set_a-IsCommand : IsCommand set_a
set_a-IsCommand = omega arith

get_a-IsCommand : IsCommand get_a
get_a-IsCommand = omega arith

decode-encode_command_example : decode_command (encode_command set_a) ≡ ok set_a
decode-encode_command_example = decode-encode_command set_a set_a-IsCommand

encode_command-IsStorable_example :
    (is_config_change_command (encode_command set_a) ≡ false)
    × (3 ≤ 95 → IsStorable (encode_command set_a))
encode_command-IsStorable_example = encode_command-IsStorable set_a set_a-IsCommand

get_last_set_example :
    Returns
      (λ r. r.0 ≡ found (last_value (b'a' ∷ []) none (set_a ∷ get_a ∷ [])))
      (apply_all (set_a ∷ get_a ∷ []) [] >>= λ db. apply (encode_command get_a) db)
get_last_set_example =
    get_last_set (set_a ∷ get_a ∷ []) get_a (set_a-IsCommand, (get_a-IsCommand, tt)) get_a-IsCommand
      refl
