-- ===== src/Kv/RoundTrip.antt =====
-- Decoding an encoded command.
use navi_kv.Prelude.{◌+◌, ◌^◌, ◌≤◌, ◌<◌, ◌≡◌, refl, sym, ap, ◌∙◌}
use navi_kv.Prelude.{false, some, [], ◌∷◌, ◌++◌, arith}
use navi_kv.Prelude.{◌==◌, if◌then◌else◌, add64, Bool-cases}
use navi_kv.Prelude.{ok}
use navi_kv.Prelude.{length, get_elem?, length-append}
use navi_kv.Prelude.{inl, inr, append-nil, append_assoc}
use navi_kv.Bytes.{Bytes, put_u64, get_u64, slice}
use navi_kv.Bytes.Laws.{slice_middle, get_u64_middle, length-to_le}
use navi_kv.Raft.Config.{is_config_change_command}
use navi_kv.Raft.Invariant.{IsStorable}
use navi_kv.Kv.{Command, encode_command, decode_command, set_command}

-- A command that the HTTP handlers make: its kind is 0 or 1, and its texts are shorter than 2 ^ 62.
pub record IsCommand (c : Command) : Type 0 where
  pub kind : c.kind ≤ 1
  pub key : length c.key < 2 ^ 62
  pub value : length c.value < 2 ^ 62

-- A command as it comes back: a get is decoded without its value.
abbrev pub received : Command → Command
received c = if c.kind == set_command then c else record c { value = [] }

module _ (c : Command) (is : IsCommand c) where
  abbrev key_part : Bytes
  key_part = c.key ++ (put_u64 (length c.value) ++ c.value)

  key_length : get_u64 (encode_command c) 1 ≡ ok (length c.key)
  unfolding encode_command
  key_length = get_u64_middle (c.kind ∷ []) key_part 1 (length c.key) refl (omega (arith, is.key))

  key_text : slice (encode_command c) 9 (add64 9 (length c.key)) ≡ ok c.key
  unfolding encode_command
  key_text =
      let fits : add64 9 (length c.key) ≡ 9 + length c.key = omega (arith, is.key) in
      let n : 9 ≡ length (c.kind ∷ put_u64 (length c.key)) =
        omega (arith, length-to_le 8 (length c.key)) in
      rw fits (
        slice_middle (c.kind ∷ put_u64 (length c.key)) c.key (put_u64 (length c.value) ++ c.value) 9
          (9 + length c.key) n (omega arith))

  abbrev before_value : Bytes
  before_value = c.kind ∷ (put_u64 (length c.key) ++ c.key)

  length-before_value : length before_value ≡ 9 + length c.key
  length-before_value =
      omega (arith, length-append (put_u64 (length c.key)) c.key, length-to_le 8 (length c.key))

  regrouped : encode_command c ≡ before_value ++ (put_u64 (length c.value) ++ c.value)
  unfolding encode_command
  regrouped =
      ap (λ t. c.kind ∷ t)
        (sym (append_assoc (put_u64 (length c.key)) c.key (put_u64 (length c.value) ++ c.value)))

  value_length : get_u64 (encode_command c) (add64 9 (length c.key)) ≡ ok (length c.value)
  value_length =
      let fits : add64 9 (length c.key) ≡ length before_value =
        omega (arith, is.key, length-before_value) in
      rw (regrouped, fits)
        (get_u64_middle before_value c.value (length before_value) (length c.value) refl
          (omega (arith, is.value)))

  value_text :
      slice
        (encode_command c)
        (add64 (add64 9 (length c.key)) 8)
        (add64 (add64 (add64 9 (length c.key)) 8) (length c.value))
      ≡ ok c.value
  value_text =
      let front : Bytes = before_value ++ put_u64 (length c.value) in
      let n : length front ≡ 17 + length c.key = omega (
        arith,
        length-append before_value (put_u64 (length c.value)),
        length-before_value,
        length-to_le 8 (length c.value),
      ) in
      let e : encode_command c ≡ front ++ (c.value ++ []) =
        regrouped
        ∙ sym (append_assoc before_value (put_u64 (length c.value)) c.value)
        ∙ ap (λ t. front ++ t) (sym (append-nil c.value)) in
      rw e (
        slice_middle front c.value [] _ _ (omega (arith, is.key, n))
          (omega (arith, is.key, is.value, n)))

  -- For a set or a get with texts shorter than 2 ^ 62 bytes, decoding what `encodeCommand` wrote
  -- gives the command back: a set with its key and value, a get with its key and no value. Nothing
  -- panics.
  pub decode-encode_command : decode_command (encode_command c) ≡ ok (received c)
  unfolding decode_command
  decode-encode_command =
      let first : get_elem? (encode_command c) 0 ≡ some c.kind = unfold encode_command in refl in
      elim (Bool-cases (c.kind == set_command)) [
        | inl set' ↦ rw (first, key_length, key_text, set', value_length, value_text) refl
        | inr get' ↦ rw (first, key_length, key_text, get') refl
      ]

  pub length-encode_command : length (encode_command c) ≡ 17 + length c.key + length c.value
  unfolding encode_command
  length-encode_command = omega (
    arith,
    length-append (put_u64 (length c.key)) key_part,
    length-append c.key (put_u64 (length c.value) ++ c.value),
    length-append (put_u64 (length c.value)) c.value,
    length-to_le 8 (length c.key),
    length-to_le 8 (length c.value),
  )

  -- An encoded set or get is never taken for a config change, and is storable if its key and value
  -- have 95 bytes at most together.
  pub encode_command-IsStorable :
      (is_config_change_command (encode_command c) ≡ false)
      × (length c.key + length c.value ≤ 95 → IsStorable (encode_command c))
  unfolding encode_command is_config_change_command
  encode_command-IsStorable =
      let plain : (c.kind == 0xff) ≡ false = ground (arith, is.kind) in
      (
        plain,
        λ h. record {
          fits = omega (arith, length-encode_command);
          decodes = λ e. absurd (ground (arith, plain));
        },
      )
