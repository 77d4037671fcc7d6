-- ===== src/Tests/Projet02.antt =====
-- The version of week 10 at small inputs.
use distributed_hash_table.Base.{
  ℕ, ◌+◌, ◌≤◌, ◌≡◌, ◌⊎◌, ◌∷◌, ◌∙◌, refl, [], List, Option, some, none, ok, false, map, arith, take,
  length,
}
use distributed_hash_table.Error.{err_none}
use distributed_hash_table.CString.{Bytes, text_at, str_eq, strncmp, argv_size}
use distributed_hash_table.Scan.{scan_int}
use distributed_hash_table.Hashtable.{size_max, htable_size, construct_htable}
use distributed_hash_table.Hashtable.Table.{view}
use distributed_hash_table.Hashtable.Content.{lookup, occurrences}
use distributed_hash_table.System.{SocketAddress, get_socket, get_server_addr}
use distributed_hash_table.Startup.{too_few, wrong_count}
use distributed_hash_table.Network.{get_loop}
use distributed_hash_table.Network.Quorum.{texts, winner, tally, get_loop-winner}
use distributed_hash_table.Network.Get.{Counts-new}
use distributed_hash_table.Server as Final
use distributed_hash_table.DumpNode.{printed}
use distributed_hash_table.DumpNode.Items.{kv_of, encode}
use distributed_hash_table.Projet02.Args.{
  scan_unsigned, go_fwd_and_parse_number, parse_loop, parse_opt_args,
}
use distributed_hash_table.Projet02.NodeList.{
  ServerLine, node_list_new, node_list_add, node_init, add_lines, get_nodes,
}
use distributed_hash_table.Projet02.Client.{Client, started, clamped, client_nodes, client_init}
use distributed_hash_table.Projet02.Client.Admits.{IsBounded, client_init-IsBounded}
use distributed_hash_table.Projet02.Network.{
  Exchange, same_sockaddr, reply_of, recvfrom_server, sent_all, network_put,
}
use distributed_hash_table.Projet02.Network as Rounds
use distributed_hash_table.Projet02.Network.Quorum.{replies_of}
use distributed_hash_table.Projet02.Network.Get.{Gets, network_get-Gets}
use distributed_hash_table.Projet02.Network.Compare.{get_loop-get_loop}
use distributed_hash_table.Projet02.Server.{max_udp_size, serve, server_step}
use distributed_hash_table.Projet02.Server.Same.{serve-serve}
use distributed_hash_table.Projet02.DumpNode.{read_dump}
use distributed_hash_table.Projet02.DumpNode.RoundTrip.{read_dump-dump}
use distributed_hash_table.Tests.Table.{key_a, value_b, small_table}
use distributed_hash_table.Tests.Ring.{toy}
use distributed_hash_table.Tests.Dump.{full_table, full_table-IsValid, full_table-content, items}

abbrev first : SocketAddress
first = record { sin_addr = b'a' ∷ []; sin_port = 0 ∷ 5 ∷ [] }

abbrev second : SocketAddress
second = record { sin_addr = b'b' ∷ []; sin_port = 0 ∷ 6 ∷ [] }

-- At the port of the first.
abbrev third : SocketAddress
third = record { sin_addr = b'c' ∷ []; sin_port = 0 ∷ 5 ∷ [] }

abbrev pub client : Client
client = record {
  name = b'c' ∷ [];
  nodes = first ∷ second ∷ third ∷ [];
  args = record { n = 3; r = 2; w = 2 };
  socket = 4;
}

-- The second server does not answer.
abbrev exchanges : ℕ → List Exchange
exchanges size =
    record { sent = some size; received = some (value_b, first) }
    ∷ record { sent = some size; received = none }
    ∷ record { sent = some size; received = some (value_b, third) }
    ∷ []

abbrev both : ℕ → List Exchange
both size =
    record { sent = some size; received = some (value_b, first) }
    ∷ record { sent = some size; received = some (value_b, second) }
    ∷ []

answers_heard :
    replies_of (λ s. s) 1 3 client.nodes (exchanges 1) ≡ some value_b ∷ none ∷ some value_b ∷ []
unfolding replies_of reply_of recvfrom_server sent_all same_sockaddr strncmp str_eq
answers_heard = refl

network_get-Gets_example : Gets (λ s. s) client key_a none (exchanges 1)
network_get-Gets_example =
    network_get-Gets (λ s. s) client key_a none (exchanges 1) (omega arith) (omega arith)
      (omega arith) (omega arith) (rw answers_heard (omega arith))

serve-serve_example :
    serve 16 small_table (some (b'a' ∷ 0 ∷ b'b' ∷ []) ∷ none ∷ some (b'a' ∷ []) ∷ []) []
    ≡ Final.serve small_table (some (b'a' ∷ 0 ∷ b'b' ∷ []) ∷ none ∷ some (b'a' ∷ []) ∷ []) []
serve-serve_example =
    serve-serve 16 small_table (some (b'a' ∷ 0 ∷ b'b' ∷ [])) (none ∷ some (b'a' ∷ []) ∷ []) []
      ((λ e. cc), (tt, ((λ e. cc), tt)))

encoded : 4 + length (encode items) ≤ max_udp_size
unfolding encode
encoded = omega arith

read_dump-dump_example :
    (msg : Bytes) × (server_step full_table (some (0 ∷ [])) [] ≡ ok (full_table, msg ∷ [], []))
    × (read_dump (max_udp_size + 1) (some msg ∷ []) [] ≡ ok (printed (map kv_of items), []))
    × ((q : Bytes)
        → (lookup q (map kv_of items) ≡ view full_table q) × (occurrences q (map kv_of items) ≤ 1))
read_dump-dump_example =
    read_dump-dump full_table items full_table-IsValid full_table-content
      (((omega arith, tt), (λ e. cc), (omega arith, tt)), tt) encoded (omega arith)

-- "-n -1 k": the number wraps around, and the file's one server is what is left.
abbrev arguments : List Bytes
arguments = (b'-' ∷ b'n' ∷ []) ∷ (b'-' ∷ b'1' ∷ []) ∷ (b'k' ∷ []) ∷ []

abbrev servers : Option (List ServerLine)
servers = some (record { ip = b'a' ∷ []; port = 5 } ∷ [])

abbrev one_server : Client
one_server = record {
  name = b'c' ∷ [];
  nodes = first ∷ [];
  args = record { n = 1; r = 1; w = 1 };
  socket = 4;
}

client_starts :
    client_init toy servers (some 4) false 1 3 (b'c' ∷ []) arguments []
    ≡ ok (started one_server ((b'k' ∷ []) ∷ []), [])
unfolding client_init client_nodes clamped too_few wrong_count parse_opt_args parse_loop
    go_fwd_and_parse_number scan_unsigned scan_int str_eq get_nodes add_lines node_list_new
    node_list_add node_init get_socket get_server_addr
client_starts = refl

client_init-IsBounded_example :
    IsBounded toy servers one_server × ((1 ≡ size_max) ⊎ (argv_size ((b'k' ∷ []) ∷ []) ≡ 1))
client_init-IsBounded_example =
    client_init-IsBounded toy servers (some 4) false 1 3 (b'c' ∷ []) arguments [] [] one_server
      ((b'k' ∷ []) ∷ []) client_starts

both_heard : replies_of (λ s. s) 1 2 client.nodes (both 1) ≡ some value_b ∷ some value_b ∷ []
unfolding replies_of reply_of recvfrom_server sent_all same_sockaddr strncmp str_eq
both_heard = refl

both_win : winner 2 [] (texts 2 (some value_b ∷ some value_b ∷ [])) ≡ some value_b
unfolding winner texts tally text_at str_eq
both_win = refl

-- Two servers answer: the loop of the final version ends with the value.
value_found :
    get_loop 2
      (replies_of (λ s. s) 1 2 client.nodes (both 1))
      (construct_htable htable_size []).0
      2
      []
    ≡ ok (err_none, some value_b, [])
value_found =
    get_loop-winner 2 (replies_of (λ s. s) 1 2 client.nodes (both 1))
      (construct_htable htable_size []).0 [] 2 (omega arith) (rw both_heard (omega arith))
      (Counts-new htable_size 2 (omega arith) (omega arith))
    ∙ rw both_heard (rw both_win refl)

get_loop-get_loop_example :
    (asked : ℕ) × (asked ≤ 2)
    × (Rounds.get_loop (λ s. s) 2 client.nodes (both 1) (construct_htable htable_size []).0 2 1 []
        ≡ ok (err_none, some value_b, take asked client.nodes, []))
get_loop-get_loop_example =
    get_loop-get_loop (λ s. s) 2 2 1 client.nodes (both 1) (construct_htable htable_size []).0 []
      value_b (omega arith) (omega arith) (rw both_heard (omega arith))
      (Counts-new htable_size 2 (omega arith) (omega arith)) value_found
