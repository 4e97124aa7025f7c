-- ===== src/Raft/Rpc.antt =====
-- navi/transport.go: the clients that the RPC transport keeps. A client is a number; what
-- `dialHTTPTimeout` returns, and how a call ends, are inputs. A call takes the mutex twice: it is
-- `dial` and `end_call`, between which other calls go on.
pub mod Clients
use navi_kv.Prelude.{ℕ, Bool, true, false, Option, none, some, List, [], ◌∷◌, if◌then◌else◌}
use navi_kv.Bytes.{Bytes, bytes_eq}

-- `closed` are the clients that were closed, the last one first.
pub record RpcTransport : Type 0 where
  pub clients : List (Bytes × ℕ)
  pub closed : List ℕ
  pub serving : Bool

abbrev pub new_rpc_transport : RpcTransport
new_rpc_transport = record { clients = []; closed = []; serving = false }

-- `t.clients[address]`
unfoldable pub client_of : Bytes → List (Bytes × ℕ) → Option ℕ
client_of address [] = none
client_of address ((a, c) ∷ cs) =
    let rest = client_of address cs in if bytes_eq a address then some c else rest

unfoldable pub without : Bytes → List (Bytes × ℕ) → List (Bytes × ℕ)
without address [] = []
without address ((a, c) ∷ cs) =
    let rest = without address cs in if bytes_eq a address then rest else (a, c) ∷ rest

abbrev pub dial_new : Bytes → Option ℕ → RpcTransport → Option ℕ × RpcTransport
dial_new address none t = (none, t)
dial_new address (some c) t = (some c, record t { clients = (address, c) ∷ t.clients })

abbrev dial_cached : Option ℕ → Bytes → Option ℕ → RpcTransport → Option ℕ × RpcTransport
dial_cached (some c) address dialed t = (some c, t)
dial_cached none address dialed t = dial_new address dialed t

-- The client for the address, or `none` for the error of a new connection.
unfoldable pub dial : Bytes → Option ℕ → RpcTransport → Option ℕ × RpcTransport
unfolding client_of
dial address dialed t = dial_cached (client_of address t.clients) address dialed t

unfoldable pub evict : Bytes → ℕ → RpcTransport → RpcTransport
unfolding without
evict address c t = record t { clients = without address t.clients; closed = c ∷ t.closed }

pub data CallEnd : Type 0 where
  answered failed timed_out : CallEnd

unfoldable pub end_call : Bytes → ℕ → CallEnd → RpcTransport → RpcTransport
unfolding evict
end_call address c answered t = t
end_call address c failed t = evict address c t
end_call address c timed_out t = evict address c t
