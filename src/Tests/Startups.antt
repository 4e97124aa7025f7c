-- ===== src/Tests/Startups.antt =====
-- Command lines and compose files, and their theorems at concrete inputs.
use navi_kv.Prelude.{
  ℕ, ◌≡◌, refl, arith, true, false, none, some, Option, List, [], ◌∷◌, inl, inr, get_elem?, length,
}
use navi_kv.Prelude.Int.{pos, negsuc}
use navi_kv.Bytes.{Bytes, bytes_eq}
use navi_kv.Text.{text, digits, to_decimal, parse_digits, parse_uint, atoi, split, join}
use navi_kv.Raft.Config.{new_member}
use navi_kv.Raft.Storage.{new_mem_storage}
use navi_kv.Kv.Startup.{
  ready, fatal, crash, bad_member, Config, read_members, read_argument, read_arguments, seen_id,
  check_ids, check_config, get_config, make_server,
}
use navi_kv.Kv.Startup.Checked.{IsChecked, get_config-IsChecked}
use navi_kv.Kv.Startup.Rereading.{http_value_joins}
use navi_kv.Console.Compose.{
  raft_address, cluster_spec, cluster_parts, cluster_string, compose_nodes, generate_compose,
  add_compose_node, ComposeData, ComposeNode, Generated, Added, too_few,
}
use navi_kv.Console.Compose.Nodes.{BootsAs}
use navi_kv.Console.Compose.Clusters.{
  AreMembers, generate_compose-AreMembers, add_compose_node-AreMembers,
}

-- Opens the operations, for the runs.
unfoldable all_started : ℕ
unfolding bytes_eq digits to_decimal parse_digits parse_uint atoi split join read_members
    read_argument read_arguments seen_id check_ids check_config get_config raft_address cluster_spec
    cluster_parts cluster_string compose_nodes generate_compose add_compose_node make_server
all_started = 0

of_three : cluster_string 3 ≡ text "1,node1:3030;2,node2:3030;3,node3:3030"
unfolding all_started
of_three = refl

abbrev two_members : List Bytes
two_members =
    text "kv-api"
    ∷ text "--node"
    ∷ text "+1"
    ∷ text "--http"
    ∷ text ":2020"
    ∷ text "--cluster"
    ∷ text "7,a;09,b,c"
    ∷ []

abbrev two_members_config : Config
two_members_config = record {
  cluster = new_member 7 (text "a") ∷ new_member 9 (text "b") ∷ [];
  index = pos 1;
  id = [];
  address = [];
  http = text ":2020";
  pending_join = false;
}

two_members_read : get_config two_members ≡ ready two_members_config
unfolding all_started
two_members_read = refl

get_config-IsChecked_example : IsChecked two_members_config
get_config-IsChecked_example = get_config-IsChecked two_members two_members_config two_members_read

no_value_crashes : get_config (text "kv-api" ∷ text "--node" ∷ []) ≡ crash
unfolding all_started
no_value_crashes = refl

no_address_crashes : get_config (text "kv-api" ∷ text "--cluster" ∷ text "1" ∷ []) ≡ crash
unfolding all_started
no_address_crashes = refl

large_id_ends :
    get_config (text "kv-api" ∷ text "--cluster" ∷ text "18446744073709551616,a" ∷ [])
    ≡ fatal (bad_member (text "18446744073709551616" ∷ text "a" ∷ []))
unfolding all_started
large_id_ends = refl

abbrev rest_of_line : List Bytes
rest_of_line = text "--node" ∷ text "-1" ∷ text "--cluster" ∷ text "7,a" ∷ []

abbrev joining_config : Config
joining_config = record {
  cluster = new_member 7 (text "a") ∷ [];
  index = negsuc 0;
  id = [];
  address = [];
  http = text "--pending-join";
  pending_join = true;
}

joining_read :
    get_config (text "kv-api" ∷ text "--http" ∷ text "--pending-join" ∷ rest_of_line)
    ≡ ready joining_config
unfolding all_started
joining_read = refl

http_value_joins_example : joining_config.pending_join ≡ true
http_value_joins_example = http_value_joins (text "kv-api") rest_of_line joining_config joining_read

abbrev always_written : ComposeData → Option ℕ
always_written d = none

generate_compose-AreMembers_example :
    (g : Generated) × (generate_compose always_written (pos 3) true ≡ inr g)
    × (length g.rendered.nodes ≡ 3)
    × AreMembers 3 g.rendered.nodes (text "kv-api") new_mem_storage
generate_compose-AreMembers_example =
    generate_compose-AreMembers always_written (λ d. refl) 3 true (text "kv-api") new_mem_storage
      (omega arith) (omega arith)

add_compose_node-AreMembers_example :
    (a : Added) × (add_compose_node always_written (pos 3) false ≡ inr a)
    × AreMembers 3 a.rendered.nodes (text "kv-api") new_mem_storage
    × ((node : ComposeNode) × (get_elem? a.rendered.nodes 3 ≡ some node)
        × (node.host_port ≡ a.new_port)
        × BootsAs node a.new_index 0
            (new_member a.new_index a.node_address ∷ [])
            true
            (text "kv-api")
            new_mem_storage)
add_compose_node-AreMembers_example =
    add_compose_node-AreMembers always_written (λ d. refl) 3 false (text "kv-api") new_mem_storage
      (omega arith) (omega arith)

no_nodes : generate_compose always_written (pos 0) true ≡ inl too_few
unfolding all_started
no_nodes = refl
