-- ===== src/Tests/Commands.antt =====
-- pps-client-put and pps-client-get with "-n 1" and one server, from their command lines.
use distributed_hash_table.Base.{◌≡◌, ◌≤◌, refl, [], ◌∷◌, List, some, ok, arith, length}
use distributed_hash_table.CString.{Bytes, str_eq}
use distributed_hash_table.Args.{Args, parse_opt_args}
use distributed_hash_table.Scan.{scan_int}
use distributed_hash_table.NodeList.{node_list_new}
use distributed_hash_table.Ring.{ring_init}
use distributed_hash_table.Ring.Servers.{Server, member, same_server}
use distributed_hash_table.Ring.Walk.{distinct}
use distributed_hash_table.Ring.Select.{Answers}
use distributed_hash_table.Network.Get.{IsReady}
use distributed_hash_table.Cluster.Deliver.{IsPair}
use distributed_hash_table.Cluster.PutGet.{ReadsBack}
use distributed_hash_table.Startup.{
  started, count_lines, client_init, client_nodes, too_few, client_args, wrong_count,
}
use distributed_hash_table.Programs.{ok_text, ok_value}
use distributed_hash_table.Programs.Main.{get_main, put_main}
use distributed_hash_table.Programs.PutGet.{client_of_both, call_with, put_main-get_main}
use distributed_hash_table.Tests.Ring.{toy}
use distributed_hash_table.Tests.Startup.{one_line, only_node}
use distributed_hash_table.Tests.Table.{small_table, small_table-IsValid}

abbrev key_k : Bytes
key_k = b'k' ∷ []

abbrev value_v : Bytes
value_v = b'v' ∷ []

abbrev put_line : List Bytes
put_line = (b'-' ∷ b'n' ∷ []) ∷ (b'1' ∷ []) ∷ key_k ∷ value_v ∷ []

abbrev get_line : List Bytes
get_line = (b'-' ∷ b'n' ∷ []) ∷ (b'1' ∷ []) ∷ key_k ∷ []

abbrev one_each : Args
one_each = record { n = 1; r = 1; w = 1 }

abbrev server_list : Bytes
server_list = b'x' ∷ 10 ∷ []

abbrev only_server : Server
only_server = record {
  address = record { sin_addr = b'a' ∷ []; sin_port = 0 ∷ 5 ∷ [] };
  sha = b'a' ∷ 32 ∷ b'5' ∷ 32 ∷ b'1' ∷ [];
}

put_starts :
    client_init toy (λ order l. l) (some server_list) (some one_line) 2 5 (b'c' ∷ []) put_line []
    ≡ ok (started (b'c' ∷ []) (only_node ∷ []) (some one_each) (key_k ∷ value_v ∷ []), [])
unfolding client_init client_nodes too_few client_args wrong_count count_lines parse_opt_args
    scan_int str_eq ring_init node_list_new
put_starts = refl

get_starts :
    client_init toy (λ order l. l) (some server_list) (some one_line) 1 3 (b'c' ∷ []) get_line []
    ≡ ok (started (b'c' ∷ []) (only_node ∷ []) (some one_each) (key_k ∷ []), [])
unfolding client_init client_nodes too_few client_args wrong_count count_lines parse_opt_args
    scan_int str_eq ring_init node_list_new
get_starts = refl

one_distinct : 1 ≤ length (distinct (only_server ∷ []))
unfolding distinct member same_server
one_distinct = omega arith

both-IsReady :
    IsReady toy (client_of_both (b'c' ∷ []) (only_node ∷ []) one_each one_each) (only_server ∷ [])
both-IsReady = record {
  home = _;
  known = refl;
  ring = refl;
  some_server = omega arith;
  asked = omega arith;
  room = omega arith;
  enough = one_distinct;
}

k-IsPair : IsPair key_k value_v
k-IsPair = record {
  key_text = (omega arith, tt);
  value_text = (omega arith, tt);
  filled = λ e. cc;
  short = omega arith;
}

put_main-get_main_example :
    (found : List Server) × Answers (only_server ∷ []) 1 key_k found
    × (b : ReadsBack toy
        (client_of_both (b'c' ∷ []) (only_node ∷ []) one_each one_each)
        found
        key_k
        value_v
        5
        1
        (small_table ∷ []))
    × (put_main toy
          (λ order l. l)
          1
          (some server_list)
          (some one_line)
          (b'c' ∷ [])
          put_line
          (call_with 5 b.acks)
          []
        ≡ ok (record { output = ok_text; status = 0 }))
    × (get_main toy
          (λ order l. l)
          1
          (some server_list)
          (some one_line)
          (b'c' ∷ [])
          get_line
          (call_with 5 b.answers)
          []
        ≡ ok (record { output = ok_value value_v; status = 0 }))
put_main-get_main_example =
    put_main-get_main toy (λ order l. l) (some server_list) (some one_line) (b'c' ∷ []) (b'c' ∷ [])
      (b'c' ∷ []) put_line get_line (only_node ∷ []) one_each one_each (only_server ∷ []) key_k
      value_v 5 1 (small_table ∷ []) put_starts get_starts refl both-IsReady (omega arith) k-IsPair
      (small_table-IsValid, tt) refl (omega arith)
