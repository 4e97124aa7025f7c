-- ===== src/Console/Status.antt =====
-- cmd/navi-cli/status.go: what the console asks of the nodes. `Send` is what `probeClient` gets
-- from the server at a port of this host: nothing, or a response that is read as a whole. A loop
-- that waits takes one `Send` for each of its rounds before the deadline.
use navi_kv.Prelude.{ℕ, Bool, true, false, Option, none, some, List, [], ◌∷◌, ◌++◌, ◌⊎◌, inl, inr}
use navi_kv.Prelude.{◌==◌, if◌then◌else◌, length}
use navi_kv.Bytes.{Bytes}
use navi_kv.Text.{text, to_decimal}
use navi_kv.Kv.Http.{Response}

pub data Method : Type 0 where
  get_method post_method : Method

abbrev pub Send : Type 0
Send = Method → ℕ → Bytes → Option Response

abbrev pub is_ok : Option Response → Bool
is_ok none = false
is_ok (some r) = r.status == 200

abbrev pub probe_path : Bytes
probe_path = text "/set?key=__leader_probe__&value=1"

-- `none` is the error that no leader was found.
unfoldable pub probe_leader : Send → List ℕ → Option ℕ
probe_leader send [] = none
probe_leader send (port ∷ ports) =
    let rest = probe_leader send ports in
    if is_ok (send post_method port probe_path) then some port else rest

abbrev pub no_leader : List ℕ → Bytes
no_leader ports = text "no leader found among " ++ (to_decimal (length ports) ++ text " node(s)")

abbrev or_later : Option ℕ → Option ℕ → Option ℕ
or_later (some port) later = some port
or_later none later = later

-- The first probe, and the later ones.
unfoldable pub probe_leader_with_retry : Send → List Send → List ℕ → Option ℕ
unfolding probe_leader
probe_leader_with_retry send [] ports = probe_leader send ports
probe_leader_with_retry send (next ∷ later) ports =
    or_later (probe_leader send ports) (probe_leader_with_retry next later ports)

abbrev has_answer : Option Response → Bool
has_answer none = false
has_answer (some r) = true

unfoldable pub node_up : Send → ℕ → Bool
node_up send port = has_answer (send get_method port (text "/get?key=__health_probe__"))

-- The rounds before the deadline, and the last look.
unfoldable pub wait_for_node_up : List Send → Send → ℕ → Bool
unfolding node_up
wait_for_node_up [] last port = node_up last port
wait_for_node_up (send ∷ sends) last port =
    let rest = wait_for_node_up sends last port in if node_up send port then true else rest

pub data RequestError : Type 0 where
  no_answer : RequestError
  refused : Bytes → Response → RequestError

abbrev checked : Bytes → Option Response → RequestError ⊎ Response
checked name none = inl no_answer
checked name (some r) = if r.status == 200 then inr r else inl (refused name r)

unfoldable pub do_set : Send → ℕ → Bytes → Bytes → RequestError ⊎ Response
do_set send port key value =
    checked (text "set")
      (send post_method port (text "/set?key=" ++ (key ++ (text "&value=" ++ value))))

unfoldable pub do_kill : Send → ℕ → RequestError ⊎ Response
do_kill send port = checked (text "kill") (send get_method port (text "/kill"))

unfoldable pub do_add_server : Send → ℕ → ℕ → Bytes → RequestError ⊎ Response
do_add_server send port id address = checked (text "add-server") (
    send get_method port
      (text "/add-server?id=" ++ (to_decimal id ++ (text "&address=" ++ address))))

unfoldable pub do_get : Send → ℕ → Bytes → Bool → RequestError ⊎ Response
do_get send port key relaxed = checked (text "get") (
    send get_method port
      (text "/get?key=" ++ (key ++ (if relaxed then text "&relaxed=true" else []))))
