-- ===== src/Tests/Fresh.antt =====
-- A put that one of two servers misses the get of.
use distributed_hash_table.Base.{
  ℕ, Bool, ◌≡◌, ◌⊎◌, refl, true, false, [], ◌∷◌, ◌++◌, List, ok, some, none, map, All, arith,
}
use distributed_hash_table.CString.{Bytes, str_eq, strdup, text_at, find_nul}
use distributed_hash_table.Hashtable.{
  Htable, bucket, empty_bucket, hash_function, construct_htable, add_htable_value, get_htable_value,
}
use distributed_hash_table.Server.{server_step, handle, answer_get, answer_put, value_part}
use distributed_hash_table.Cluster.Lossy.{deliver_some}
use distributed_hash_table.Tests.Table.{value_b, small_table, small_table-IsValid}
use distributed_hash_table.Tests.Ring.{toy, address, three, key}
use distributed_hash_table.Tests.Network.{client, client-IsReady}
use distributed_hash_table.Tests.Cluster.{client-IsQuorum, key-IsPair}
use distributed_hash_table.Error.{ErrorCode, err_none, err_network}
use distributed_hash_table.CString.{CharPointer}
use distributed_hash_table.Node.{Node}
use distributed_hash_table.Hashtable.Construct.{construct_htable_lem}
use distributed_hash_table.NodeList.{node_list_new, node_list_add}
use distributed_hash_table.Ring.Servers.{node_of}
use distributed_hash_table.Ring.{
  index_of_first_node, already_present_in_list, node_at, remainder, select_step, select,
  ring_get_nodes_for_key,
}
use distributed_hash_table.Network.{
  network_get, network_put, put_to_ring, put_loop, create_cat_packet,
}
use distributed_hash_table.Cluster.Overlap.{IsPeer}
use distributed_hash_table.Cluster.Fresh.{network_get-fresh}

-- The table with the pair.
abbrev table : Htable
table = record {
  buckets = some (
      empty_bucket
      ∷ empty_bucket
      ∷ empty_bucket
      ∷ bucket (some key) (some value_b) empty_bucket
      ∷ []);
  size = 4;
}

abbrev both : List Bool
both = true ∷ true ∷ []

abbrev empty_tables : List Htable
empty_tables = small_table ∷ small_table ∷ []

abbrev tables : List Htable
tables = table ∷ table ∷ []

abbrev acks : List Bytes
acks = [] ∷ [] ∷ []

-- The definitions that the runs unfold.
program : Unit {0}
unfolding deliver_some server_step handle answer_put answer_get value_part hash_function
    construct_htable add_htable_value get_htable_value strdup str_eq text_at find_nul network_put
    put_to_ring put_loop create_cat_packet index_of_first_node already_present_in_list node_at
    remainder select_step select ring_get_nodes_for_key node_list_new node_list_add
program = tt

heard : deliver_some both empty_tables (key ++ 0 ∷ value_b) ≡ ok (tables, acks)
unfolding program
heard = refl

asked : deliver_some (false ∷ true ∷ []) tables key ≡ ok (tables, value_b ∷ [])
unfolding program
asked = refl

abbrev to_node : ℕ → ℕ → Node × Bytes
to_node host sha = (node_of (record { address = address host; sha = sha ∷ [] }), key ++ 0 ∷ value_b)

put_done :
    network_put toy 3 client (some key) (some value_b) (some 5) none (map some acks) []
    ≡ ok (err_none, to_node 1 20 ∷ to_node 2 30 ∷ [], [])
unfolding program
put_done = refl

peers : All (IsPeer key) empty_tables
peers = (peer, (peer, tt))
  where
    peer : IsPeer key small_table
    peer = record {
      valid = small_table-IsValid;
      short = rw ((construct_htable_lem 4 [] (omega arith) refl).1 key) (omega arith);
    }

get_fresh_example :
    (code : ErrorCode) × (got : CharPointer) × (sent : List (Node × Bytes)) × (network_get toy 3
        client
        (some key)
        none
        (some 5)
        (some value_b ∷ [])
        []
      ≡ ok (code, got, sent, []))
    × (((code ≡ err_none) × (got ≡ some value_b)) ⊎ ((code ≡ err_network) × (got ≡ none)))
get_fresh_example =
    network_get-fresh toy client three key value_b 5 3 both (false ∷ true ∷ []) empty_tables tables
      tables acks acks (value_b ∷ []) (value_b ∷ []) (to_node 1 20 ∷ to_node 2 30 ∷ [])
      client-IsReady client-IsQuorum (omega arith) (omega arith) key-IsPair peers refl (omega arith)
      heard ([], [] ∷ [], refl, ([], [], refl, tt)) put_done asked ([], [], refl, tt)
