-- ===== src/Tests/Latest.antt =====
-- A put and a get of week 10 over three servers, with an answer and a message lost.
use distributed_hash_table.Base.{
  ◌≡◌, ◌⊎◌, ◌++◌, refl, true, false, List, [], ◌∷◌, none, some, ok, arith,
}
use distributed_hash_table.Error.{ErrorCode, err_none, err_network}
use distributed_hash_table.CString.{Bytes}
use distributed_hash_table.Hashtable.{Htable}
use distributed_hash_table.System.{SocketAddress}
use distributed_hash_table.Projet02.Network.{Exchange, network_put}
use distributed_hash_table.Projet02.Cluster.{Way, deliver_all}
use distributed_hash_table.Projet02.Cluster.Put.{IsPair, IsServing}
use distributed_hash_table.Projet02.Cluster.Fresh.{GetsLatest, network_put-latest}
use distributed_hash_table.Tests.Table.{key_a, value_b, small_table, small_table-IsValid}
use distributed_hash_table.Tests.Server.{small_table-empty}
use distributed_hash_table.Tests.Ring.{toy}
use distributed_hash_table.Tests.Projet02.{client}

abbrev tables : List Htable
tables = small_table ∷ small_table ∷ small_table ∷ []

-- The answer of the second server to the put is lost, and the get does not reach the first.
abbrev put_ways : List Way
put_ways =
    record { reached = true; returned = true }
    ∷ record { reached = true; returned = false }
    ∷ record { reached = true; returned = true }
    ∷ []

abbrev get_ways : List Way
get_ways =
    record { reached = false; returned = false }
    ∷ record { reached = true; returned = true }
    ∷ record { reached = true; returned = true }
    ∷ []

small_table-IsServing : IsServing key_a small_table
small_table-IsServing = (small_table-IsValid, rw (small_table-empty key_a) tt)

pair : IsPair key_a value_b
pair = ((omega arith, tt), (omega arith, tt), (λ e. cc), omega arith)

put_latest_example :
    (ts' : List Htable) × (es : List Exchange) × (deliver_all tables client.nodes put_ways
        (key_a ++ 0 ∷ value_b)
      ≡ ok (ts', es))
    × (code : ErrorCode) × (sent : List (SocketAddress × Bytes)) × (network_put
          (λ s. s)
          toy
          client
          (some key_a)
          (some value_b)
          es
          []
        ≡ ok (code, sent, []))
    × ((code ≡ err_network)
        ⊎ ((code ≡ err_none) × GetsLatest (λ s. s) client key_a value_b none ts' get_ways))
put_latest_example =
    network_put-latest (λ s. s) toy client key_a value_b none tables put_ways get_ways pair
      (omega arith) refl (omega arith) (omega arith)
      (small_table-IsServing, (small_table-IsServing, (small_table-IsServing, tt))) (omega arith)
      (omega arith) (omega arith)
