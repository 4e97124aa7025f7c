-- ===== src/Kv/Startup.antt =====
-- cmd/kv-api/main.go: the command line of the server, and the server that `main` makes of it.
pub mod Flags
pub mod Going
pub mod Checked
pub mod Rereading
use navi_kv.Prelude.{ℕ, Bool, true, false, List, [], ◌∷◌, ◌++◌, Option, none, some}
use navi_kv.Prelude.{◌==◌, if◌then◌else◌, length, get_elem?, Outcome, ok, panic}
use navi_kv.Prelude.Int.{ℤ, pos, negsuc}
use navi_kv.Bytes.{Bytes, bytes_eq}
use navi_kv.Text.{text, split, parse_uint, atoi}
use navi_kv.Raft.State.{ClusterMember, Server}
use navi_kv.Raft.Config.{new_member}
use navi_kv.Raft.Storage.{MemStorage}
use navi_kv.Raft.Lifecycle.{new_server}

-- What `log.Fatal` is called for.
pub data ConfigError : Type 0 where
  bad_node : Bytes → ConfigError
  bad_member : List Bytes → ConfigError
  no_node no_http no_cluster : ConfigError
  duplicate_id : ℕ → ConfigError

-- The code goes on, ends the process, or panics.
pub data Start {ℓ} (A : Type ℓ) : Type ℓ where
  ready : A → Start A
  fatal : ConfigError → Start A
  crash : Start A

infixl 5 ◌>>=◌
abbrev pub ◌>>=◌ {ℓ κ} : {A : Type ℓ} {B : Type κ} → Start A → (A → Start B) → Start B
ready a >>= f = f a
fatal e >>= f = fatal e
crash >>= f = crash

-- An index expression.
abbrev pub or_crash {ℓ} : {A : Type ℓ} → Option A → Start A
or_crash none = crash
or_crash (some a) = ready a

abbrev pub or_fatal {ℓ} : {A : Type ℓ} → ConfigError → Option A → Start A
or_fatal e none = fatal e
or_fatal e (some a) = ready a

pub record Config : Type 0 where
  pub cluster : List ClusterMember
  pub index : ℤ
  pub id : Bytes
  pub address : Bytes
  pub http : Bytes
  pub pending_join : Bool

-- `cfg` and `node` in the loop over the arguments.
pub record Reading : Type 0 where
  pub config : Config
  pub node : Bytes

abbrev pub nothing_read : Reading
nothing_read = record {
  config = record {
    cluster = [];
    index = pos 0;
    id = [];
    address = [];
    http = [];
    pending_join = false;
  };
  node = [];
}

abbrev pub read_member : Bytes → Start ClusterMember
read_member part = do
  let id_address = split b',' part
  first ← or_crash (get_elem? id_address 0)
  id ← or_fatal (bad_member id_address) (parse_uint first)
  address ← or_crash (get_elem? id_address 1)
  ready (new_member id address)

unfoldable pub read_members : List Bytes → Start (List ClusterMember)
read_members [] = ready []
read_members (part ∷ parts) = do m ← read_member part; ms ← read_members parts; ready (m ∷ ms)

-- One round of the loop; `rest` are the arguments behind `arg`. `os.Args[i+2]` is the first of
-- them.
unfoldable pub read_argument : Bytes → List Bytes → Reading → Start Reading
unfolding read_members
read_argument arg rest r =
    if bytes_eq arg (text "--node")
    then (do
      node ← or_crash (get_elem? rest 0)
      index ← or_fatal (bad_node node) (atoi node)
      ready (record { config = record r.config { index = index }; node = node }))
    else if bytes_eq arg (text "--http")
    then (do
      http ← or_crash (get_elem? rest 0)
      ready (record r { config = record r.config { http = http } }))
    else if bytes_eq arg (text "--cluster")
    then (do
      cluster ← or_crash (get_elem? rest 0)
      ms ← read_members (split b';' cluster)
      ready (record r { config = record r.config { cluster = r.config.cluster ++ ms } }))
    else if bytes_eq arg (text "--pending-join")
    then ready (record r { config = record r.config { pending_join = true } })
    else ready r

-- The range clause gives `i` anew in every round, so `i++` has no effect: an argument that was read
-- as the value of a flag is read once more, as an argument.
unfoldable pub read_arguments : List Bytes → Reading → Start Reading
unfolding read_argument
read_arguments [] r = ready r
read_arguments (arg ∷ rest) r = do r' ← read_argument arg rest r; read_arguments rest r'

unfoldable pub seen_id : ℕ → List ℕ → Bool
seen_id id [] = false
seen_id id (i ∷ seen) = let rest = seen_id id seen in if i == id then true else rest

-- The loop over the members with the ids before.
unfoldable pub check_ids : List ℕ → List ClusterMember → Start (Unit {0})
unfolding seen_id
check_ids seen [] = ready tt
check_ids seen (m ∷ ms) =
    let rest = check_ids (m.id ∷ seen) ms in
    if seen_id m.id seen then fatal (duplicate_id m.id) else rest

-- `getConfig` behind its loop.
unfoldable pub check_config : Reading → Start Config
unfolding check_ids
check_config r =
    if length r.node == 0
    then fatal no_node
    else if length r.config.http == 0
    then fatal no_http
    else if length r.config.cluster == 0
    then fatal no_cluster
    else (do _ ← check_ids [] r.config.cluster; ready r.config)

-- `getConfig` on `os.Args`.
unfoldable pub get_config : List Bytes → Start Config
unfolding read_arguments check_config
get_config [] = crash
get_config (program ∷ args) = do r ← read_arguments args nothing_read; check_config r

abbrev server_at : Bool → Config → MemStorage → ℤ → Outcome Server
server_at seeded c storage (pos i) = new_server seeded c.cluster i storage
server_at seeded c storage (negsuc i) = panic

abbrev passive_if : Bool → Outcome Server → Outcome Server
passive_if b panic = panic
passive_if b (ok s) = ok (record s { passive = b })

-- The server that `main` starts. A negative index is out of the range of the members.
unfoldable pub make_server : Bool → Config → MemStorage → Outcome Server
make_server seeded c storage = passive_if c.pending_join (server_at seeded c storage c.index)
