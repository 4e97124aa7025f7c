-- ===== src/Console/Compose.antt =====
-- cmd/navi-cli/compose.go: the nodes of the compose file. `render` is the writing of the file with
-- text/template and os, and returns its error, if any. Counts and ports are below 2 ^ 63: the list
-- of the nodes has no room in memory long before that.
pub mod Booting
pub mod Nodes
pub mod Clusters
use navi_kv.Prelude.{ℕ, zero, suc, ◌+◌, ◌-◌, Bool, true, false, Option, none, some}
use navi_kv.Prelude.{List, [], ◌∷◌, ◌++◌, map, ltb, if◌then◌else◌, ◌⊎◌, inl, inr}
use navi_kv.Prelude.Int.{ℤ, pos, negsuc}
use navi_kv.Bytes.{Bytes}
use navi_kv.Text.{text, to_decimal, join}

abbrev pub compose_file_name : Bytes
compose_file_name = text "docker-compose.generated.yml"

pub record ComposeNode : Type 0 where
  pub index : ℕ
  pub node_arg : ℕ
  pub host_port : ℕ
  pub cluster : Bytes
  pub pending_join : Bool

pub record ComposeData : Type 0 where
  pub nodes : List ComposeNode
  pub debug : Bool

-- The `command` of a node, as the template lists it.
abbrev pub node_command : ComposeNode → List Bytes
node_command n =
    text "--node"
    ∷ to_decimal n.node_arg
    ∷ text "--http"
    ∷ text ":2020"
    ∷ text "--cluster"
    ∷ n.cluster
    ∷ (if n.pending_join then text "--pending-join" ∷ [] else [])

unfoldable pub raft_address : ℕ → Bytes
raft_address index = text "node" ++ (to_decimal index ++ text ":3030")

unfoldable pub cluster_spec : ℕ → Bytes
unfolding raft_address
cluster_spec index = to_decimal index ++ b',' ∷ raft_address index

-- The loop of `clusterString`: `count` rounds from `i` on.
unfoldable pub cluster_parts : ℕ → ℕ → List Bytes
unfolding cluster_spec
cluster_parts zero i = []
cluster_parts (suc count) i = cluster_spec i ∷ cluster_parts count (suc i)

unfoldable pub cluster_string : ℕ → Bytes
unfolding cluster_parts join
cluster_string n = join b';' (cluster_parts n 1)

abbrev pub host_port_of : ℕ → ℕ
host_port_of i = 2020 + i

abbrev pub compose_node : Bytes → ℕ → ComposeNode
compose_node cluster i = record {
  index = i;
  node_arg = i - 1;
  host_port = host_port_of i;
  cluster = cluster;
  pending_join = false;
}

-- The loop over the nodes that share a cluster.
unfoldable pub compose_nodes : Bytes → ℕ → ℕ → List ComposeNode
compose_nodes cluster zero i = []
compose_nodes cluster (suc count) i = compose_node cluster i ∷ compose_nodes cluster count (suc i)

pub data ComposeError (E : Type 0) : Type 0 where
  too_few : ComposeError E
  not_rendered : E → ComposeError E

-- What is returned without an error, with what was rendered.
pub record Generated : Type 0 where
  pub rendered : ComposeData
  pub path : Bytes
  pub ports : List ℕ

pub record Added : Type 0 where
  pub rendered : ComposeData
  pub path : Bytes
  pub new_index : ℕ
  pub new_port : ℕ
  pub node_address : Bytes

-- The node that joins: its cluster is itself alone.
abbrev pub joining_node : ℕ → ComposeNode
joining_node i = record {
  index = i;
  node_arg = 0;
  host_port = host_port_of i;
  cluster = cluster_spec i;
  pending_join = true;
}

abbrev pub generated : ComposeData → Generated
generated d = record {
  rendered = d;
  path = compose_file_name;
  ports = map (λ node. node.host_port) d.nodes;
}

abbrev pub added : ℕ → ComposeData → Added
added new_index d = record {
  rendered = d;
  path = compose_file_name;
  new_index = new_index;
  new_port = host_port_of new_index;
  node_address = raft_address new_index;
}

module _ {E : Type 0} (render : ComposeData → Option E) where
  abbrev pub written {ℓ} : {A : Type ℓ} → Option E → A → ComposeError E ⊎ A
  written none a = inr a
  written (some e) a = inl (not_rendered e)

  unfoldable pub generate_compose : ℤ → Bool → ComposeError E ⊎ Generated
  unfolding cluster_string compose_nodes
  generate_compose (negsuc n) debug = inl too_few
  generate_compose (pos n) debug =
      let composed : ComposeData = record {
        nodes = compose_nodes (cluster_string n) n 1;
        debug = debug;
      } in
      if ltb n 1 then inl too_few else written (render composed) (generated composed)

  unfoldable pub add_compose_node : ℤ → Bool → ComposeError E ⊎ Added
  unfolding cluster_string compose_nodes raft_address
  add_compose_node (negsuc n) debug = inl too_few
  add_compose_node (pos n) debug =
      let composed : ComposeData = record {
        nodes = compose_nodes (cluster_string n) n 1 ++ joining_node (suc n) ∷ [];
        debug = debug;
      } in
      if ltb n 1 then inl too_few else written (render composed) (added (suc n) composed)
