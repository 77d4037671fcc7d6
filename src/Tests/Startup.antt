-- ===== src/Tests/Startup.antt =====
-- A client that starts with "-n 1 k" and one server.
use distributed_hash_table.Base.{◌≡◌, refl, [], ◌∷◌, List, Option, some, ok, live, arith, ◌⊎◌}
use distributed_hash_table.CString.{Bytes, str_eq, argv_size}
use distributed_hash_table.Args.{Args, parse_opt_args}
use distributed_hash_table.Scan.{scan_int}
use distributed_hash_table.Node.{Node}
use distributed_hash_table.NodeList.{ServerLine, node_list_new}
use distributed_hash_table.Hashtable.{size_max}
use distributed_hash_table.Ring.{ring_init}
use distributed_hash_table.Startup.{
  started, count_lines, client_init, client_nodes, too_few, client_args, wrong_count,
}
use distributed_hash_table.Startup.Admits.{Admitted, client_init-Admitted}
use distributed_hash_table.Tests.Ring.{toy}

abbrev arguments : List Bytes
arguments = (b'-' ∷ b'n' ∷ []) ∷ (b'1' ∷ []) ∷ (b'k' ∷ []) ∷ []

abbrev pub one_line : List (Option ServerLine)
one_line = some (record { ip = b'a' ∷ []; port = 5; ids = 1 }) ∷ []

-- The digest is the text "a 5 1".
abbrev pub only_node : Node
only_node = record {
  address = live (record { sin_addr = b'a' ∷ []; sin_port = 0 ∷ 5 ∷ [] });
  sha = live (b'a' ∷ 32 ∷ b'5' ∷ 32 ∷ b'1' ∷ []);
}

abbrev one_of_one : Option Args
one_of_one = some (record { n = 1; r = 1; w = 1 })

client_starts :
    client_init toy
      (λ order l. l)
      (some (b'x' ∷ 10 ∷ []))
      (some one_line)
      1
      3
      (b'c' ∷ [])
      arguments
      []
    ≡ ok (started (b'c' ∷ []) (only_node ∷ []) one_of_one ((b'k' ∷ []) ∷ []), [])
unfolding client_init client_nodes too_few client_args wrong_count count_lines parse_opt_args
    scan_int str_eq ring_init node_list_new
client_starts = refl

client_init_example :
    (content : Bytes) × (some (b'x' ∷ 10 ∷ []) ≡ some content)
    × Admitted (count_lines content) one_of_one
    × ((1 ≡ size_max) ⊎ (argv_size ((b'k' ∷ []) ∷ []) ≡ 1))
client_init_example =
    client_init-Admitted toy (λ order l. l) (some (b'x' ∷ 10 ∷ [])) (some one_line) 1 3 (b'c' ∷ [])
      arguments [] [] (b'c' ∷ []) (only_node ∷ []) one_of_one ((b'k' ∷ []) ∷ []) client_starts
      (omega arith)
