-- ===== src/Tests/Cluster.antt =====
-- A put and a get of a client with two servers.
use distributed_hash_table.Base.{refl, [], ◌∷◌, List, arith}
use distributed_hash_table.Args.Bounds.{IsQuorum}
use distributed_hash_table.Ring.Servers.{Server}
use distributed_hash_table.Ring.Select.{Answers}
use distributed_hash_table.Cluster.Deliver.{IsPair}
use distributed_hash_table.Cluster.PutGet.{ReadsBack, network_get-network_put}
use distributed_hash_table.Tests.Table.{value_b, small_table, small_table-IsValid}
use distributed_hash_table.Tests.Ring.{toy, three, key}
use distributed_hash_table.Tests.Network.{client, client-IsReady}

pub client-IsQuorum : IsQuorum client.args
client-IsQuorum = record {
  read_pos = omega arith;
  read_le = omega arith;
  write_pos = omega arith;
  write_le = omega arith;
}

pub key-IsPair : IsPair key value_b
key-IsPair = record {
  key_text = omega arith;
  filled = λ e. cc;
  value_text = omega arith;
  short = omega arith;
}

put_get_example :
    (found : List Server) × Answers three 2 (toy.sha1 key) found
    × ReadsBack toy client found key value_b 5 3 (small_table ∷ small_table ∷ [])
put_get_example =
    network_get-network_put toy client three key value_b 5 3 (small_table ∷ small_table ∷ [])
      client-IsReady client-IsQuorum (omega arith) key-IsPair
      (small_table-IsValid, (small_table-IsValid, tt)) refl (omega arith)
