-- ===== src/Kv/Startup/Rereading.antt =====
-- The values of flags are read once more as arguments.
use navi_kv.Prelude.{◌≡◌, refl, true, List, [], ◌∷◌, get_elem?, length, ◌==◌}
use navi_kv.Bytes.{Bytes, bytes_eq}
use navi_kv.Text.{text, split, atoi}
use navi_kv.Kv.Startup.{
  Start, ready, fatal, crash, ◌>>=◌, Config, Reading, nothing_read, bad_node, or_fatal, or_crash,
  read_members, read_argument, read_arguments, check_ids, check_config, get_config, no_node,
  no_http, no_cluster,
}
use navi_kv.Kv.Startup.Flags.{read_http, read_pending_join}
use navi_kv.Kv.Startup.Going.{Goes, Goes-bind, Goes-if, Goes-ready}

abbrev Joins : Reading → Type 0
Joins r = r.config.pending_join ≡ true

-- What holds after the rest of the code holds if it starts with any code.
Goes-behind :
    {A B : Type 0} (Q : B → Type 0) (m : Start A) (f : A → Start B)
    → ((a : A) → Goes Q (f a))
    → Goes Q (m >>= f)
Goes-behind Q (ready a) f k = k a
Goes-behind Q (fatal e) f k = tt
Goes-behind Q crash f k = tt

read_argument-Joins :
    (arg : Bytes) (rest : List Bytes) (r : Reading)
    → Joins r
    → Goes Joins (read_argument arg rest r)
unfolding read_argument
read_argument-Joins arg rest r j =
    let value = or_crash (get_elem? rest 0) in
    Goes-if Joins (bytes_eq arg (text "--node")) _ _
      (Goes-behind Joins value _
        λ node. Goes-behind Joins (or_fatal (bad_node node) (atoi node)) _ λ index. j)
      (Goes-if Joins (bytes_eq arg (text "--http")) _ _ (Goes-behind Joins value _ λ http. j) (
        Goes-if Joins (bytes_eq arg (text "--cluster")) _ _
          (Goes-behind Joins value _
            λ cluster. Goes-behind Joins (read_members (split b';' cluster)) _ λ ms. j)
          (Goes-if Joins (bytes_eq arg (text "--pending-join")) _ _ refl j)))

read_arguments-Joins :
    (args : List Bytes) (r : Reading) → Joins r → Goes Joins (read_arguments args r)
unfolding read_arguments
read_arguments-Joins [] r j = j
read_arguments-Joins (arg ∷ rest) r j =
    Goes-bind Joins Joins (read_argument arg rest r) _ (read_argument-Joins arg rest r j)
      (read_arguments-Joins rest)

check_config-Joins : (r : Reading) → Joins r → Goes (λ c. c.pending_join ≡ true) (check_config r)
unfolding check_config
check_config-Joins r j = Goes-if _ (length r.node == 0) (fatal no_node) _ tt (
    Goes-if _ (length r.config.http == 0) (fatal no_http) _ tt (
      Goes-if _ (length r.config.cluster == 0) (fatal no_cluster) _ tt
        (Goes-behind _ (check_ids [] r.config.cluster) _ λ done. j)))

-- The value of `--http` is read as a flag too: behind `--http --pending-join` the server is always
-- one that is to join, whatever the other arguments are.
pub http_value_joins :
    (program : Bytes) (args : List Bytes) (c : Config)
    → get_config (program ∷ text "--http" ∷ text "--pending-join" ∷ args) ≡ ready c
    → c.pending_join ≡ true
unfolding get_config read_arguments
http_value_joins program args c e =
    Goes-ready (λ c'. c'.pending_join ≡ true) _ c
      (rw
        (
          read_http (text "--pending-join" ∷ args) nothing_read (text "--pending-join"),
          read_pending_join args _,
        )
        at e)
      (Goes-bind Joins (λ c'. c'.pending_join ≡ true) (read_arguments args _) check_config
        (read_arguments-Joins args _ refl) check_config-Joins)
