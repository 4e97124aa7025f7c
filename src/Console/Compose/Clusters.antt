-- ===== src/Console/Compose/Clusters.antt =====
-- The compose files of the console start the servers that it means to start.
use navi_kv.Prelude.{
  ℕ, zero, suc, ◌+◌, ◌^◌, ◌<◌, ◌≡◌, refl, ap, arith, Bool, true, false, none, some, Option, List,
  [], ◌∷◌, ◌++◌, ltb, length, get_elem?, inr, ap,
}
use navi_kv.Prelude.Int.{pos}
use navi_kv.Bytes.{Bytes}
use navi_kv.Raft.Config.{new_member}
use navi_kv.Raft.Storage.{MemStorage}
use navi_kv.Console.Compose.{
  cluster_string, ComposeNode, ComposeData, compose_node, compose_nodes, joining_node, host_port_of,
  generate_compose, add_compose_node, Generated, Added, generated, added,
}
use navi_kv.Console.Compose.Nodes.{BootsAs, get_elem?-compose_nodes, node_boots, new_node_boots}
use navi_kv.Console.Compose.Booting.{members_from}

-- The nodes of a file: the node at each position is a member of the one cluster.
abbrev pub AreMembers : ℕ → List ComposeNode → Bytes → MemStorage → Type 0
AreMembers n nodes program storage =
    (k : ℕ)
    → k < n
    → (node : ComposeNode) × (get_elem? nodes k ≡ some node)
      × (node.host_port ≡ host_port_of (suc k))
      × BootsAs node (suc k) k (members_from n 1) false program storage

nodes_boot :
    (n : ℕ) (program : Bytes) (storage : MemStorage)
    → 0 < n
    → n < 2 ^ 63
    → AreMembers n (compose_nodes (cluster_string n) n 1) program storage
nodes_boot zero program storage some_node small k h = absurd (omega arith)
nodes_boot (suc n) program storage some_node small k h =
    let at : 1 + k ≡ suc k = omega arith in
    (
      compose_node (cluster_string (suc n)) (suc k),
      rw at at (get_elem?-compose_nodes (cluster_string (suc n)) (suc n) 1 k h),
      refl,
      node_boots n small program storage k h,
    )

get_elem?_front :
    {A : Type 0} (xs ys : List A) (k : ℕ) (a : A)
    → get_elem? xs k ≡ some a
    → get_elem? (xs ++ ys) k ≡ some a
get_elem?_front [] ys k a h = cc
get_elem?_front (x ∷ xs) ys zero a h = h
get_elem?_front (x ∷ xs) ys (suc k) a h = get_elem?_front xs ys k a h

get_elem?_behind : {A : Type 0} (xs ys : List A) → get_elem? (xs ++ ys) (length xs) ≡ get_elem? ys 0
get_elem?_behind [] ys = refl
get_elem?_behind (x ∷ xs) ys = get_elem?_behind xs ys

length-compose_nodes : (c : Bytes) (count i : ℕ) → length (compose_nodes c count i) ≡ count
unfolding compose_nodes
length-compose_nodes c zero i = refl
length-compose_nodes c (suc count) i = ap suc (length-compose_nodes c count (suc i))

module _ {E : Type 0} (render : ComposeData → Option E)
    (written : (d : ComposeData) → render d ≡ none) where
  pub generate_compose-AreMembers :
      (n : ℕ) (debug : Bool) (program : Bytes) (storage : MemStorage)
      → 0 < n
      → n < 2 ^ 63
      → (g : Generated) × (generate_compose render (pos n) debug ≡ inr g)
        × (length g.rendered.nodes ≡ n)
        × AreMembers n g.rendered.nodes program storage
  unfolding generate_compose
  generate_compose-AreMembers n debug program storage some_node small =
      let enough : ltb n 1 ≡ false = ground arith in
      let nodes = compose_nodes (cluster_string n) n 1 in
      (
        generated (record { nodes = nodes; debug = debug }),
        rw (enough, written (record { nodes = nodes; debug = debug })) refl,
        length-compose_nodes (cluster_string n) n 1,
        nodes_boot n program storage some_node small,
      )

  pub add_compose_node-AreMembers :
      (n : ℕ) (debug : Bool) (program : Bytes) (storage : MemStorage)
      → 0 < n
      → suc n < 2 ^ 63
      → (a : Added) × (add_compose_node render (pos n) debug ≡ inr a)
        × AreMembers n a.rendered.nodes program storage
        × ((node : ComposeNode) × (get_elem? a.rendered.nodes n ≡ some node)
            × (node.host_port ≡ a.new_port)
            × BootsAs node a.new_index 0
                (new_member a.new_index a.node_address ∷ [])
                true
                program
                storage)
  unfolding add_compose_node
  add_compose_node-AreMembers n debug program storage some_node small =
      let enough : ltb n 1 ≡ false = ground arith in
      let olds = compose_nodes (cluster_string n) n 1 in
      let there : get_elem? (olds ++ joining_node (suc n) ∷ []) n ≡ some (joining_node (suc n)) =
        rw (length-compose_nodes (cluster_string n) n 1) at
          (get_elem?_behind olds (joining_node (suc n) ∷ [])) in
      (
        added (suc n) (record { nodes = olds ++ joining_node (suc n) ∷ []; debug = debug }),
        rw (enough, written (record { nodes = olds ++ joining_node (suc n) ∷ []; debug = debug }))
            refl,
        λ k h.
            let (node, e, port, boots) = nodes_boot n program storage some_node (omega arith) k h in
            (node, get_elem?_front olds (joining_node (suc n) ∷ []) k node e, port, boots),
        (joining_node (suc n), there, refl, new_node_boots n small program storage),
      )
