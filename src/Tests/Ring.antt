-- ===== src/Tests/Ring.antt =====
-- A ring of three servers, of which two share an address.
use distributed_hash_table.Base.{
  ℕ, ◌≡◌, ◌≤◌, ◌<◌, refl, [], ◌∷◌, List, some, ok, fault, no_end, map, arith, length,
}
use distributed_hash_table.CString.{Bytes}
use distributed_hash_table.System.{Platform, SocketAddress}
use distributed_hash_table.Ring.{ring_get_nodes_for_key}
use distributed_hash_table.Ring.Servers.{Server, node_of, member, same_server}
use distributed_hash_table.Ring.Walk.{distinct}
use distributed_hash_table.Ring.Select.{Answers, ring_get_nodes_for_key-Answers}
use distributed_hash_table.Ring.Endless.{ring_get_nodes_for_key_endless}

-- A platform whose digest is the text itself, and whose addresses are their own texts.
abbrev pub toy : Platform
toy = record { sha1 = λ s. s; inet_pton = λ s. some s }

abbrev pub address : ℕ → SocketAddress
address n = record { sin_addr = n ∷ []; sin_port = 4 ∷ 210 ∷ [] }

abbrev pub three : List Server
three =
    record { address = address 1; sha = 10 ∷ [] }
    ∷ record { address = address 1; sha = 20 ∷ [] }
    ∷ record { address = address 2; sha = 30 ∷ [] }
    ∷ []

abbrev pub key : Bytes
key = 15 ∷ []

pub two_distinct : 2 ≤ length (distinct three)
unfolding distinct member same_server
two_distinct = omega arith

ring_get_nodes_for_key_example :
    (found : List Server) × (ring_get_nodes_for_key toy 3 (map node_of three) 2 key []
      ≡ ok (some (map node_of found), []))
    × Answers three 2 key found
ring_get_nodes_for_key_example =
    ring_get_nodes_for_key-Answers toy _ three 2 key 3 refl (omega arith) (omega arith) two_distinct
      (omega arith)

few_distinct : length (distinct three) < 3
unfolding distinct member same_server
few_distinct = omega arith

ring_endless_example : ring_get_nodes_for_key toy 1000 (map node_of three) 3 key [] ≡ fault no_end
ring_endless_example =
    ring_get_nodes_for_key_endless toy _ three 3 key 1000 refl (omega arith) (omega arith)
      few_distinct
