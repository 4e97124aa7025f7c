-- ===== src/Kv/Http/Reading.antt =====
-- The two ways to read a key.
use navi_kv.Prelude.{
  ◌<◌, ◌^◌, ◌≡◌, refl, ap, sym, ◌∙◌, arith, false, Option, none, some, List, [], ◌∷◌, length, ok,
  Returns-at,
}
use navi_kv.Bytes.{Bytes, bytes_eq}
use navi_kv.Bytes.Laws.{bytes_eq_refl}
use navi_kv.Text.{text}
use navi_kv.Kv.{Command, encode_command, Db, load, Result, found, apply}
use navi_kv.Kv.RoundTrip.{IsCommand}
use navi_kv.Kv.Machine.{Applied, apply_lem}
use navi_kv.Kv.Http.{ok_response, respond, single_result, set_of, get_of, set_handler, get_handler}

get_of-IsCommand : (key : Bytes) → length key < 2 ^ 62 → IsCommand (get_of key)
get_of-IsCommand key h = record { kind = omega arith; key = h; value = omega arith }

single_result-found : (o : Option Bytes) → single_result (some (found o ∷ [])) ≡ o
single_result-found none = refl
single_result-found (some v) = refl

-- `hs.raft.Apply` has had the command applied by the state machine with `db`, and returns the
-- result.
abbrev pub Answers : (Bytes → Option (List Result)) → Command → Db → Db → Type 0
Answers raft_apply c db db' =
    (r : Result) × (apply (encode_command c) db ≡ ok (r, db'))
    × (raft_apply (encode_command c) ≡ some (r ∷ []))

-- The texts of a request are far below this limit.
abbrev pub IsText : Bytes → Type 0
IsText s = length s < 2 ^ 62

Answers-Applied :
    (raft_apply : Bytes → Option (List Result)) (c : Command) (db db' : Db)
    → IsCommand c
    → (a : Answers raft_apply c db db') → Applied c db a.0 db'
Answers-Applied raft_apply c db db' is (r, run, answer) =
    Returns-at (λ p. Applied c db p.0 p.1) (apply (encode_command c) db) (r, db') run
      (apply_lem c db is)

module _ (raft_apply : Bytes → Option (List Result)) (query : Bytes → Bytes) (db db' : Db) where
  -- A get through the log answers what the state machine had.
  strict_get :
      bytes_eq (query (text "relaxed")) (text "true") ≡ false
      → IsText (query (text "key"))
      → Answers raft_apply (get_of (query (text "key"))) db db'
      → get_handler raft_apply query db' ≡ respond (load (query (text "key")) db)
  unfolding get_handler
  strict_get is_strict fits answers =
      let done =
        Answers-Applied raft_apply (get_of (query (text "key"))) db db'
          (get_of-IsCommand (query (text "key")) fits) answers in
      rw (is_strict, answers.2, done.answer refl, single_result-found) refl

-- A relaxed get answers as one of the same key through the log, if the local copy has what the
-- state machine had when it applied that one, and the key is shorter than 2 ^ 62 bytes.
pub relaxed_get :
    (raft_apply : Bytes → Option (List Result)) (relaxed strict : Bytes → Bytes) (db db' : Db)
    → relaxed (text "relaxed") ≡ text "true"
    → bytes_eq (strict (text "relaxed")) (text "true") ≡ false
    → relaxed (text "key") ≡ strict (text "key")
    → IsText (strict (text "key"))
    → Answers raft_apply (get_of (strict (text "key"))) db db'
    → get_handler raft_apply relaxed db ≡ get_handler raft_apply strict db'
unfolding get_handler bytes_eq
relaxed_get raft_apply relaxed strict db db' is_relaxed is_strict same fits answers =
    rw (is_relaxed, same) (sym (strict_get raft_apply strict db db' is_strict fits answers))

-- When the server has applied a set and next a get of the same key, both through the log and with
-- texts shorter than 2 ^ 62 bytes, the set is answered with an empty body and the get with the
-- value of the set, both with the status 200.
pub get-set :
    (raft_apply raft_apply' : Bytes → Option (List Result)) (set_query get_query : Bytes → Bytes)
    (db db' db'' : Db)
    → bytes_eq (get_query (text "relaxed")) (text "true") ≡ false
    → get_query (text "key") ≡ set_query (text "key")
    → IsText (set_query (text "key"))
    → IsText (set_query (text "value"))
    → Answers raft_apply (set_of (set_query (text "key")) (set_query (text "value"))) db db'
    → Answers raft_apply' (get_of (get_query (text "key"))) db' db''
    → (set_handler raft_apply set_query ≡ ok_response [])
      × (get_handler raft_apply' get_query db'' ≡ ok_response (set_query (text "value")))
unfolding set_handler
get-set raft_apply raft_apply' set_query get_query db db' db'' is_strict same key value sets gets =
    let done =
      Answers-Applied raft_apply (set_of (set_query (text "key")) (set_query (text "value"))) db db'
        (record { kind = omega arith; key = key; value = value }) sets in
    let found_value : load (get_query (text "key")) db' ≡ some (set_query (text "value")) =
      rw (same, done.loads (set_query (text "key")), bytes_eq_refl (set_query (text "key"))) refl in
    (
      rw sets.2 refl,
      strict_get raft_apply' get_query db' db'' is_strict (rw same key) gets
          ∙ ap respond found_value,
    )
