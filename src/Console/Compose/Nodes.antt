-- ===== src/Console/Compose/Nodes.antt =====
-- A node of a compose file starts as the server that the console means it to be.
use navi_kv.Prelude.{
  ℕ, zero, suc, ◌+◌, ◌-◌, ◌^◌, ◌<◌, ◌≡◌, refl, ap, ◌∙◌, arith, Bool, true, false, some, List, [],
  ◌∷◌, ◌==◌, get_elem?, ok, ap,
}
use navi_kv.Bytes.{Bytes}
use navi_kv.Text.{text}
use navi_kv.Raft.State.{ClusterMember, Server}
use navi_kv.Raft.Config.{new_member}
use navi_kv.Raft.Storage.{MemStorage}
use navi_kv.Raft.Lifecycle.{new_server, all_named}
use navi_kv.Kv.Startup.{Config, ready, read_members, get_config, make_server}
use navi_kv.Console.Compose.{
  raft_address, cluster_string, ComposeNode, compose_node, compose_nodes, joining_node,
  node_command,
}
use navi_kv.Console.Compose.Booting.{
  members_from, split-cluster_string, split-cluster_spec, read_members-cluster_parts, spec-Digits,
  string-Digits, check_ids-members_from, get_config-node_command, node_config,
}

-- The command line of a node makes it the server with the id, at the position in the members.
pub record BootsAs (node : ComposeNode) (id at : ℕ) (members : List ClusterMember) (joins : Bool)
    (program : Bytes) (storage : MemStorage) : Type 0 where
  pub config : Config
  pub server : Server
  pub read : get_config (program ∷ node_command node) ≡ ready config
  pub made : make_server true config storage ≡ ok server
  pub serves : config.http ≡ text ":2020"
  pub identity : server.id ≡ id
  pub address : server.address ≡ raft_address id
  pub cluster : server.cluster ≡ members
  pub position : server.cluster_index ≡ at
  pub passive : server.passive ≡ joins

all_named-members_from : (count i : ℕ) → all_named (members_from count (suc i)) ≡ true
unfolding all_named
all_named-members_from zero i = refl
all_named-members_from (suc count) i =
    let named : (suc i == 0) ≡ false = ground arith in
    rw (named, all_named-members_from count (suc i)) refl

get_elem?-members_from :
    (count i k : ℕ)
    → k < count
    → get_elem? (members_from count i) k ≡ some (new_member (i + k) (raft_address (i + k)))
get_elem?-members_from zero i k h = absurd (omega arith)
get_elem?-members_from (suc count) i zero h = let same : i + 0 ≡ i = omega arith in rw same refl
get_elem?-members_from (suc count) i (suc k) h =
    let same : suc i + k ≡ i + suc k = omega arith in
    rw same at (get_elem?-members_from count (suc i) k (omega arith))

pub get_elem?-compose_nodes :
    (c : Bytes) (count i k : ℕ)
    → k < count
    → get_elem? (compose_nodes c count i) k ≡ some (compose_node c (i + k))
unfolding compose_nodes
get_elem?-compose_nodes c zero i k h = absurd (omega arith)
get_elem?-compose_nodes c (suc count) i zero h = let same : i + 0 ≡ i = omega arith in rw same refl
get_elem?-compose_nodes c (suc count) i (suc k) h =
    let same : suc i + k ≡ i + suc k = omega arith in
    rw same at (get_elem?-compose_nodes c count (suc i) k (omega arith))

make_server-node_config :
    (members : List ClusterMember) (k : ℕ) (m : ClusterMember) (joins : Bool) (storage : MemStorage)
    → all_named members ≡ true
    → get_elem? members k ≡ some m
    → (s : Server) × (make_server true (node_config k members joins) storage ≡ ok s)
      × (s.id ≡ m.id)
      × (s.address ≡ m.address)
      × (s.cluster ≡ members)
      × (s.cluster_index ≡ k)
      × (s.passive ≡ joins)
unfolding make_server new_server
make_server-node_config members k m joins storage named there =
    rw (named, there) (_, refl, refl, refl, refl, refl, refl)

module _ (n : ℕ) (small : suc n < 2 ^ 63) (program : Bytes) (storage : MemStorage) where
  -- A node that shares the cluster of all nodes.
  pub node_boots :
      (k : ℕ)
      → k < suc n
      → BootsAs
          (compose_node (cluster_string (suc n)) (suc k))
          (suc k)
          k
          (members_from (suc n) 1)
          false
          program
          storage
  node_boots k h =
      let node = compose_node (cluster_string (suc n)) (suc k) in
      let at : 1 + k ≡ suc k = omega arith in
      let less : suc k - 1 ≡ k = omega arith in
      let (s, made, i, a, c, p, q) =
        make_server-node_config (members_from (suc n) 1) k
          (new_member (suc k) (raft_address (suc k))) false storage
          (all_named-members_from (suc n) 0) (rw at at (get_elem?-members_from (suc n) 1 k h)) in
      record {
        config = node_config k (members_from (suc n) 1) false;
        server = s;
        read =
            get_config-node_command program node (new_member 1 (raft_address 1)) (members_from n 2)
              (omega arith) (string-Digits n)
              (ap read_members (split-cluster_string n)
                ∙ read_members-cluster_parts (suc n) 1 (omega arith))
              (check_ids-members_from (suc n) 1 [] tt)
            ∙ ap (λ j. ready (node_config j (members_from (suc n) 1) false)) less;
        made = made;
        serves = refl;
        identity = i;
        address = a;
        cluster = c;
        position = p;
        passive = q;
      }

  -- The node that joins has itself for its cluster.
  pub new_node_boots :
      BootsAs
        (joining_node (suc n))
        (suc n)
        0
        (new_member (suc n) (raft_address (suc n)) ∷ [])
        true
        program
        storage
  new_node_boots =
      let m = new_member (suc n) (raft_address (suc n)) in
      let (s, made, i, a, c, p, q) =
        make_server-node_config (m ∷ []) 0 m true storage (all_named-members_from 1 n) refl in
      record {
        config = node_config 0 (m ∷ []) true;
        server = s;
        read =
            get_config-node_command program (joining_node (suc n)) m [] (omega arith)
              (spec-Digits (suc n))
              (ap read_members (split-cluster_spec (suc n))
                ∙ read_members-cluster_parts 1 (suc n) (omega arith))
              (check_ids-members_from 1 (suc n) [] tt);
        made = made;
        serves = refl;
        identity = i;
        address = a;
        cluster = c;
        position = p;
        passive = q;
      }
