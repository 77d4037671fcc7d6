-- ===== src/Startup/Admits.antt =====
-- What a client that starts has.
use distributed_hash_table.Base.{
  ℕ, ◌≤◌, ◌<◌, ◌≡◌, refl, List, Option, none, some, ok, arith, Memory, false, inl, inr, ◌⊎◌,
  Option-cases,
}
use distributed_hash_table.CString.{Bytes, argv_size}
use distributed_hash_table.Args.{Args, parse_opt_args}
use distributed_hash_table.Args.Bounds.{IsQuorum, parse_opt_args-IsQuorum}
use distributed_hash_table.Hashtable.{size_max}
use distributed_hash_table.System.{Platform}
use distributed_hash_table.Node.{Node}
use distributed_hash_table.NodeList.{ServerLine, Qsort, node_list_new}
use distributed_hash_table.Startup.{
  started, count_lines, wrong_count, client_args, client_nodes, client_init,
}

-- The arguments parsed are quorums, and the file has a line for each of the N servers.
pub record Admitted (servers : ℕ) (args : Option Args) : Type 0 where
  pub parsed : Args
  pub is : args ≡ some parsed
  pub quorum : IsQuorum parsed
  pub enough : parsed.n ≤ servers

client_args-Admitted :
    (servers kind : ℕ) (argv : List Bytes) (m : Memory) (args : Option Args) (rest : List Bytes)
    → 0 < kind
    → (client_args servers kind argv m).0 ≡ some (args, rest)
    → Admitted servers args
unfolding client_args
client_args-Admitted servers kind argv m args rest pos h =
    elim (Option-cases (parse_opt_args kind argv m).0) [
      | inl refusal ↦ absurd (ground (arith, h, refusal))
      | inr (b, found) ↦
          let quorum = parse_opt_args-IsQuorum kind argv m b found in
          record {
            parsed = b.0;
            is = ground (arith, h, found);
            quorum = quorum;
            enough = ground (arith, h, found);
          }
    ]

-- The nodes do not change what was parsed.
client_nodes_started :
    (platform : Platform) (qsort : Qsort) (name : Bytes) (file : Option (List (Option ServerLine)))
    (args : Option Args) (rest : List Bytes) (m m' : Memory) (name' : Bytes) (nodes : List Node)
    (args' : Option Args) (rest' : List Bytes)
    → client_nodes platform qsort name file args rest m ≡ ok (started name' nodes args' rest', m')
    → (name' ≡ name) × (args' ≡ args) × (rest' ≡ rest)
unfolding client_nodes node_list_new
client_nodes_started platform qsort name file args rest m m' name' nodes args' rest' h =
    ground arith

pub wrong_count_no :
    (args_req given : ℕ)
    → wrong_count args_req given ≡ false
    → (args_req ≡ size_max) ⊎ (given ≡ args_req)
unfolding wrong_count
wrong_count_no args_req given h = ground (arith, h)

-- A client that supports some option starts only if the file of servers has a line for each of the N
-- servers that it asks, its quorums are at least 1 and at most N, and, where a number of arguments is
-- required, so many are left.
pub client_init-Admitted :
    (platform : Platform) (qsort : Qsort) (servers : Option Bytes)
    (file : Option (List (Option ServerLine))) (args_req args_kind : ℕ) (name : Bytes)
    (argv : List Bytes) (m m' : Memory) (name' : Bytes) (nodes : List Node) (args : Option Args)
    (rest : List Bytes)
    → client_init platform qsort servers file args_req args_kind name argv m
      ≡ ok (started name' nodes args rest, m')
    → 0 < args_kind
    → (content : Bytes) × (servers ≡ some content)
      × Admitted (count_lines content) args
      × ((args_req ≡ size_max) ⊎ (argv_size rest ≡ args_req))
unfolding client_init
client_init-Admitted platform qsort none file args_req args_kind name argv m m' name' nodes args
      rest h pos =
    absurd (ground (arith, h))
client_init-Admitted platform qsort (some content) file args_req args_kind name argv m m' name'
      nodes args rest h pos =
    elim (Option-cases (client_args (count_lines content) args_kind argv m).0) [
      | inl refusal ↦ absurd (ground (arith, h, refusal))
      | inr (p, parsed) ↦
          let checked : wrong_count args_req (argv_size p.1) ≡ false = ground (arith, h, parsed) in
          let run : client_nodes platform qsort name file p.0 p.1
                (client_args (count_lines content) args_kind argv m).1
              ≡ ok (started name' nodes args rest, m') =
            ground (arith, h, parsed, checked) in
          let (_, same, same') =
            client_nodes_started platform qsort name file p.0 p.1 _ m' name' nodes args rest run in
          (
            content,
            refl,
            client_args-Admitted (count_lines content) args_kind argv m args rest pos
                (ground (arith, parsed, same, same')),
            wrong_count_no args_req (argv_size rest) (ground (arith, checked, same')),
          )
    ]
