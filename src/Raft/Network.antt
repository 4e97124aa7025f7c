-- ===== src/Raft/Network.antt =====
-- navi/transport_memory.go: the in-memory network. A transport, a server and a channel are numbers;
-- `gates` is the state of each transport. Sleeping is a part of what `deliver` answers.
pub mod Routing
use navi_kv.Prelude.{ℕ, suc, Bool, true, false, ◌&&◌, ◌||◌, Option, none, some, List, [], ◌∷◌, not}
use navi_kv.Prelude.{if◌then◌else◌, modify, get_elem?}
use navi_kv.Prelude.Int.{ℤ, pos}
use navi_kv.Bytes.{Bytes, bytes_eq}

pub data NetworkError : Type 0 where
  no_route partitioned_node dropped_message : NetworkError

-- A map from strings, with the newest value of a key in front.
unfoldable pub look_up {ℓ} : {A : Type ℓ} → Bytes → List (Bytes × A) → Option A
look_up k [] = none
look_up k ((j, v) ∷ m) = if bytes_eq j k then some v else look_up k m

-- `delete(m, k)`
unfoldable pub delete {ℓ} : {A : Type ℓ} → Bytes → List (Bytes × A) → List (Bytes × A)
delete k [] = []
delete k ((j, v) ∷ m) = let rest = delete k m in if bytes_eq j k then rest else (j, v) ∷ rest

-- The members of a map to `true` with string keys, and of one with pairs of strings as keys.
unfoldable pub has : Bytes → List Bytes → Bool
has k [] = false
has k (j ∷ js) = bytes_eq j k || has k js

unfoldable pub remove : Bytes → List Bytes → List Bytes
remove k [] = []
remove k (j ∷ js) = let rest = remove k js in if bytes_eq j k then rest else j ∷ rest

abbrev pub is_link : Bytes → Bytes → Bytes × Bytes → Bool
is_link from to (f, t) = bytes_eq f from && bytes_eq t to

unfoldable pub has_link : Bytes → Bytes → List (Bytes × Bytes) → Bool
has_link from to [] = false
has_link from to (l ∷ ls) = is_link from to l || has_link from to ls

unfoldable pub remove_link : Bytes → Bytes → List (Bytes × Bytes) → List (Bytes × Bytes)
remove_link from to [] = []
remove_link from to (l ∷ ls) =
    let rest = remove_link from to ls in if is_link from to l then rest else l ∷ rest

pub record MemoryNetwork : Type 0 where
  pub nodes : List (Bytes × ℕ)
  pub partitioned : List Bytes
  pub dropped : List (Bytes × Bytes)
  pub delay : ℤ

abbrev pub new_memory_network : MemoryNetwork
new_memory_network = record { nodes = []; partitioned = []; dropped = []; delay = pos 0 }

abbrev pub register : Bytes → ℕ → MemoryNetwork → MemoryNetwork
register address t n = record n { nodes = (address, t) ∷ n.nodes }

unfoldable pub unregister : Bytes → MemoryNetwork → MemoryNetwork
unfolding delete
unregister address n = record n { nodes = delete address n.nodes }

abbrev pub partition : Bytes → MemoryNetwork → MemoryNetwork
partition address n = record n { partitioned = address ∷ n.partitioned }

unfoldable pub heal : Bytes → MemoryNetwork → MemoryNetwork
unfolding remove
heal address n = record n { partitioned = remove address n.partitioned }

abbrev pub drop_link : Bytes → Bytes → MemoryNetwork → MemoryNetwork
drop_link from to n = record n { dropped = (from, to) ∷ n.dropped }

unfoldable pub undrop : Bytes → Bytes → MemoryNetwork → MemoryNetwork
unfolding remove_link
undrop from to n = record n { dropped = remove_link from to n.dropped }

abbrev pub set_delay : ℤ → MemoryNetwork → MemoryNetwork
set_delay d n = record n { delay = d }

-- The transport and the delay, or the error.
pub data Route : Type 0 where
  unreachable : NetworkError → Route
  routed : ℕ → ℤ → Route

abbrev pub route_to : Option ℕ → ℤ → Route
route_to none d = unreachable no_route
route_to (some t) d = routed t d

unfoldable pub route : Bytes → Bytes → MemoryNetwork → Route
unfolding has has_link look_up
route from to n =
    if has from n.partitioned || has to n.partitioned
    then unreachable partitioned_node
    else if has_link from to n.dropped
    then unreachable dropped_message
    else route_to (look_up to n.nodes) n.delay

pub record MemoryTransport : Type 0 where
  pub address : Bytes
  pub server : Option ℕ
  pub paused : Bool
  pub resume_ch : Option ℕ

-- The network, its transports, the channels that are closed and the next new channel.
pub record World : Type 0 where
  pub network : MemoryNetwork
  pub transports : List MemoryTransport
  pub closed : List ℕ
  pub next_chan : ℕ

-- `Serve` of the transport `t`, for the server `s` with the address.
abbrev pub serve : ℕ → ℕ → Bytes → World → World
serve t s a w = record w {
  transports = modify w.transports t (λ x. record x { address = a; server = some s });
  network = register a t w.network;
}

-- `Close` of the transport `t`; the address is the one that `Serve` has written.
abbrev close_at : Option MemoryTransport → World → World
close_at none w = w
close_at (some x) w = record w { network = unregister x.address w.network }

unfoldable pub close : ℕ → World → World
unfolding unregister
close t w = close_at (get_elem? w.transports t) w

-- `Pause` and `Resume` of a transport. Pausing makes a channel, resuming closes it.
unfoldable pub pause : ℕ → MemoryTransport → MemoryTransport × ℕ
pause next t =
    if t.paused then (t, next) else (record t { paused = true; resume_ch = some next }, suc next)

abbrev close_chan : Option ℕ → List ℕ → List ℕ
close_chan none closed = closed
close_chan (some c) closed = c ∷ closed

unfoldable pub resume : List ℕ → MemoryTransport → MemoryTransport × List ℕ
resume closed t =
    if not t.paused
    then (t, closed)
    else (record t { paused = false; resume_ch = none }, close_chan t.resume_ch closed)

-- `calls d ch s`: after a delay of `d` if it is positive, and once `ch` is closed if there is one,
-- the server `s` is called.
pub data Delivery : Type 0 where
  undelivered : NetworkError → Delivery
  calls : ℤ → Option ℕ → ℕ → Delivery

abbrev deliver_at : ℤ → Option MemoryTransport → Delivery
deliver_at d none = undelivered no_route
deliver_at d (some x) = elim x.server [
  | none ↦ undelivered no_route
  | some s ↦ calls d x.resume_ch s
]

abbrev deliver_on : Route → List MemoryTransport → Delivery
deliver_on (unreachable e) ts = undelivered e
deliver_on (routed t d) ts = deliver_at d (get_elem? ts t)

unfoldable pub deliver : Bytes → Bytes → World → Delivery
unfolding route
deliver from to w = deliver_on (route from to w.network) w.transports
