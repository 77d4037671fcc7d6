-- ===== src/Tests/Network.antt =====
-- Gets and puts over the ring of three servers.
use distributed_hash_table.Base.{
  ◌≡◌, ◌++◌, refl, [], ◌∷◌, List, Option, some, none, ok, map, arith, ltb, if◌then◌else◌,
}
use distributed_hash_table.Error.{ErrorCode, err_none, err_network}
use distributed_hash_table.CString.{Bytes, CharPointer}
use distributed_hash_table.Args.Bounds.{IsQuorum, parse_opt_args-IsQuorum}
use distributed_hash_table.Args.{parse_opt_args}
use distributed_hash_table.Scan.{scan_int}
use distributed_hash_table.CString.{str_eq}
use distributed_hash_table.Ring.Servers.{Server, node_of}
use distributed_hash_table.Ring.Select.{Answers}
use distributed_hash_table.Network.{Client, network_get, network_put}
use distributed_hash_table.Network.Quorum.{texts}
use distributed_hash_table.Network.Get.{IsReady, Decided, network_get-Decided}
use distributed_hash_table.Network.Put.{arrivals, network_put_lem}
use distributed_hash_table.Tests.Ring.{toy, three, key, two_distinct}

abbrev pub client : Client
client = record {
  name = b'c' ∷ [];
  nodes = map node_of three;
  args = record { n = 2; r = 2; w = 2 };
}

pub client-IsReady : IsReady toy client three
client-IsReady = record {
  home = _;
  known = refl;
  ring = refl;
  some_server = omega arith;
  asked = omega arith;
  room = omega arith;
  enough = two_distinct;
}

abbrev answers : List (Option Bytes)
answers = some (b'v' ∷ []) ∷ some (b'v' ∷ []) ∷ []

network_get_example :
    (found : List Server) × (code : ErrorCode) × (value : CharPointer) × (network_get toy 3 client
        (some key)
        none
        (some 5)
        answers
        []
      ≡ ok (code, value, map (λ node. (node, key)) (map node_of found), []))
    × Answers three 2 key found
    × Decided 2 (texts 2 answers) code value
network_get_example =
    network_get-Decided toy client three key none 5 3 answers client-IsReady (omega arith)
      (omega arith) (omega arith) (omega arith) (omega arith)

network_put_example :
    (found : List Server) × (network_put toy 3 client
        (some key)
        (some (b'v' ∷ []))
        (some 5)
        none
        answers
        []
      ≡ ok (
        if ltb (arrivals 2 answers) 2 then err_network else err_none,
        map (λ node. (node, key ++ 0 ∷ b'v' ∷ [])) (map node_of found),
        [],
      ))
    × Answers three 2 key found
network_put_example =
    network_put_lem toy client three key (b'v' ∷ []) 5 3 none answers client-IsReady (omega arith)
      (omega arith) (omega arith) (omega arith)

-- "-n 5 key": the quorums are the default ones.
abbrev five : List Bytes
five = (b'-' ∷ b'n' ∷ []) ∷ (b'5' ∷ []) ∷ (b'k' ∷ []) ∷ []

parse_five : (parse_opt_args 7 five []).0 ≡ some (record { n = 5; r = 2; w = 2 }, (b'k' ∷ []) ∷ [])
unfolding parse_opt_args str_eq scan_int
parse_five = refl

parse_opt_args_example : IsQuorum (record { n = 5; r = 2; w = 2 })
parse_opt_args_example =
    parse_opt_args-IsQuorum 7 five [] (record { n = 5; r = 2; w = 2 }, (b'k' ∷ []) ∷ []) parse_five
