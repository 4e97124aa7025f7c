-- ===== src/Tests/Requests.antt =====
-- Requests to the HTTP handlers, and their theorems at concrete inputs.
use navi_kv.Prelude.{◌≡◌, refl, arith, true, none, some, Option, List, [], ◌∷◌, ◌++◌, if◌then◌else◌}
use navi_kv.Bytes.{Bytes, bytes_eq}
use navi_kv.Text.{text, parse_digits, parse_uint}
use navi_kv.Raft.Advance.{applied}
use navi_kv.Kv.{Db, Result}
use navi_kv.Kv.Http.{
  ok_response, error_response, bad_request, set_of, get_of, set_handler, get_handler,
  add_server_handler,
}
use navi_kv.Kv.Http.Reading.{Answers, relaxed_get, get-set}
use navi_kv.Tests.Samples.{all_open}

-- The first value of a parameter.
pub query_of : List (Bytes × Bytes) → Bytes → Bytes
query_of [] name = []
query_of ((n, v) ∷ ps) name = let rest = query_of ps name in if bytes_eq n name then v else rest

abbrev set_x : Bytes → Bytes
set_x = query_of ((text "key", text "x") ∷ (text "value", text "1") ∷ [])

abbrev relaxed_x : Bytes → Bytes
relaxed_x = query_of ((text "key", text "x") ∷ (text "relaxed", text "true") ∷ [])

abbrev strict_x : Bytes → Bytes
strict_x = query_of ((text "key", text "x") ∷ [])

abbrev with_x : Db
with_x = (text "x", text "1") ∷ []

-- What `Apply` returns for a set and for a get of the value.
abbrev answers_empty : Bytes → Option (List Result)
answers_empty msg = some (applied [] ∷ [])

abbrev answers_one : Bytes → Option (List Result)
answers_one msg = some (applied (text "1") ∷ [])

set_x_answered : Answers answers_empty (set_of (text "x") (text "1")) [] with_x
unfolding all_open
set_x_answered = (applied [], refl, refl)

get_x_answered : Answers answers_one (get_of (text "x")) with_x with_x
unfolding all_open
get_x_answered = (applied (text "1"), refl, refl)

relaxed_get_example :
    get_handler answers_one relaxed_x with_x ≡ get_handler answers_one strict_x with_x
unfolding query_of all_open
relaxed_get_example =
    relaxed_get answers_one relaxed_x strict_x with_x with_x refl refl refl (omega arith)
      get_x_answered

get-set_example :
    (set_handler answers_empty set_x ≡ ok_response [])
    × (get_handler answers_one strict_x with_x ≡ ok_response (text "1"))
unfolding query_of all_open
get-set_example =
    get-set answers_empty answers_one set_x strict_x [] with_x with_x refl refl (omega arith)
      (omega arith) set_x_answered get_x_answered

no_leader_refuses : set_handler (λ msg. none) set_x ≡ bad_request
unfolding set_handler
no_leader_refuses = refl

-- The quotes of `%q`, which a text without special characters gets.
abbrev quoted : Bytes → Bytes
quoted s = 34 ∷ (s ++ 34 ∷ [])

no_id_refused :
    add_server_handler quoted (λ id address. true) strict_x
    ≡ error_response 400 (text "invalid id: \"\"")
unfolding query_of all_open add_server_handler parse_uint parse_digits
no_id_refused = refl
