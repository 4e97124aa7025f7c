-- ===== src/Kv/Http.antt =====
-- cmd/kv-api/main.go: the HTTP handlers. `query` is `r.URL.Query().Get`, which is empty for a
-- parameter that is not there. What the handlers get from the server are arguments: the return of
-- `hs.raft.Apply`, `none` for its error, and whether `hs.raft.AddServer` has returned no error.
-- `quote` is the `%q` of fmt. The body goes to the client in one write, since a writer writes all
-- or fails.
pub mod Reading
use navi_kv.Prelude.{ℕ, Bool, true, false, Option, none, some, List, [], ◌∷◌, ◌++◌}
use navi_kv.Prelude.{◌==◌, if◌then◌else◌, length}
use navi_kv.Bytes.{Bytes, bytes_eq}
use navi_kv.Text.{text, parse_uint}
use navi_kv.Raft.State.{Server}
use navi_kv.Raft.Lifecycle.{stop}
use navi_kv.Raft.Advance.{ApplyResult, applied, failed}
use navi_kv.Kv.{Command, set_command, get_command, encode_command, Db, load, Result}

pub record Response : Type 0 where
  pub status : ℕ
  pub body : Bytes

-- `http.Error`, which ends the text with a line break.
abbrev pub error_response : ℕ → Bytes → Response
error_response status message = record { status = status; body = message ++ 10 ∷ [] }

abbrev pub bad_request : Response
bad_request = error_response 400 (text "Bad Request")

abbrev pub server_error : Response
server_error = error_response 500 (text "Internal Server Error")

abbrev pub ok_response : Bytes → Response
ok_response body = record { status = 200; body = body }

abbrev pub set_of : Bytes → Bytes → Command
set_of key value = record { kind = set_command; key = key; value = value }

abbrev pub get_of : Bytes → Command
get_of key = record { kind = get_command; key = key; value = [] }

-- The branches on the value or the error.
abbrev pub respond : Option Bytes → Response
respond none = server_error
respond (some value) = ok_response value

-- The value of the one result.
abbrev pub single_result : Option (List Result) → Option Bytes
single_result none = none
single_result (some []) = none
single_result (some (failed e ∷ [])) = none
single_result (some (applied value ∷ [])) = some value
single_result (some (r ∷ r' ∷ rs)) = none

abbrev answer_set : Option (List Result) → Response
answer_set none = bad_request
answer_set (some results) = ok_response []

module _ (raft_apply : Bytes → Option (List Result)) (query : Bytes → Bytes) where
  -- The errors of single results are not looked at.
  unfoldable pub set_handler : Response
  set_handler =
      answer_set (raft_apply (encode_command (set_of (query (text "key")) (query (text "value")))))

  -- `db` is the local copy.
  unfoldable pub get_handler : Db → Response
  unfolding load
  get_handler db = respond (
      if bytes_eq (query (text "relaxed")) (text "true")
      then load (query (text "key")) db
      else single_result (raft_apply (encode_command (get_of (query (text "key"))))))

module _ (quote : Bytes → Bytes) (add_server : ℕ → Bytes → Bool) (query : Bytes → Bytes) where
  abbrev answer_add : Bool → Response
  answer_add true = ok_response (text "ok" ++ 10 ∷ [])
  answer_add false = bad_request

  abbrev add_parsed : Option ℕ → Response
  add_parsed none = error_response 400 (text "invalid id: " ++ quote (query (text "id")))
  add_parsed (some id) =
      if length (query (text "address")) == 0
      then error_response 400 (text "missing required parameter: address")
      else answer_add (add_server id (query (text "address")))

  unfoldable pub add_server_handler : Response
  add_server_handler = add_parsed (parse_uint (query (text "id")))

-- `Stop` runs on its own, after the answer or before.
abbrev pub kill_handler : Server → Response × Server
kill_handler s = (ok_response (text "ok" ++ 10 ∷ []), stop s)
