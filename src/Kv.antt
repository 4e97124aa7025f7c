-- ===== src/Kv.antt =====
-- cmd/kv-api/main.go: the key-value state machine, and the encoding of its commands.
pub mod RoundTrip
pub mod Machine
pub mod Startup
pub mod Http
use navi_kv.Prelude.{ℕ, ◌+◌, ◌-◌, ◌/◌}
use navi_kv.Prelude.{not, Option, none, some, List, [], ◌∷◌, ◌++◌}
use navi_kv.Prelude.{◌==◌, if◌then◌else◌, add64}
use navi_kv.Prelude.{◌>>=◌, Outcome, ok, panic, or_panic}
use navi_kv.Prelude.{length, get_elem?}
use navi_kv.Bytes.{Bytes, put_u64, get_u64, slice, bytes_eq}
use navi_kv.Raft.Advance.{ApplyResult, applied, failed}

-- `kind` is a byte: decoding makes no check of it.
pub record Command : Type 0 where
  pub kind : ℕ
  pub key : Bytes
  pub value : Bytes

abbrev pub set_command : ℕ
set_command = 0

abbrev pub get_command : ℕ
get_command = 1

unfoldable pub encode_command : Command → Bytes
encode_command c =
    c.kind ∷ (put_u64 (length c.key) ++ (c.key ++ (put_u64 (length c.value) ++ c.value)))

-- `string(msg[lo : lo+n])` with the sum as a uint64.
abbrev text_at : Bytes → ℕ → ℕ → Outcome Bytes
text_at msg lo n = slice msg lo (add64 lo n)

unfoldable pub decode_command : Bytes → Outcome Command
unfolding get_u64 slice
decode_command msg = do
  kind ← or_panic (get_elem? msg 0)
  key_len ← get_u64 msg 1
  key ← text_at msg 9 key_len
  if kind == set_command
      then (do
        let at = add64 9 key_len
        val_len ← get_u64 msg at
        value ← text_at msg (add64 at 8) val_len
        ok (record { kind = kind; key = key; value = value }))
      else ok (record { kind = kind; key = key; value = [] })

-- The `sync.Map` of the state machine.
abbrev pub Db : Type 0
Db = List (Bytes × Bytes)

unfoldable pub load : Bytes → Db → Option Bytes
load k [] = none
load k ((j, v) ∷ db) = if bytes_eq j k then some v else load k db

unfoldable pub store : Bytes → Bytes → Db → Db
store k v [] = (k, v) ∷ []
store k v ((j, w) ∷ db) = if bytes_eq j k then (k, v) ∷ db else (j, w) ∷ store k v db

-- The errors of `Apply`; the second holds the command that it prints.
pub data ApplyError : Type 0 where
  key_not_found : ApplyError
  unknown_command : Bytes → ApplyError

abbrev pub Result : Type 0
Result = ApplyResult ApplyError

abbrev pub found : Option Bytes → Result
found none = failed key_not_found
found (some v) = applied v

-- The switch of `Apply` on a decoded command.
unfoldable pub execute : Bytes → Command → Db → Result × Db
unfolding load store
execute msg c db =
    if c.kind == set_command
    then (applied [], store c.key c.value db)
    else if c.kind == get_command
    then (found (load c.key db), db)
    else (failed (unknown_command msg), db)

-- `Apply`; a command that does not decode is a panic.
unfoldable pub apply : Bytes → Db → Outcome (Result × Db)
unfolding decode_command execute
apply msg db = do c ← decode_command msg; ok (execute msg c db)
