-- ===== src/Tests/Nodes.antt =====
-- The file of servers with one line, and the check of its server.
use distributed_hash_table.Base.{
  ◌≡◌, ◌≤◌, refl, [], ◌∷◌, List, Option, some, none, ok, map, arith, length, All,
}
use distributed_hash_table.System.{Platform}
use distributed_hash_table.NodeList.{ServerLine, get_nodes, node_list_new, max_nodes}
use distributed_hash_table.NodeList.Nodes.{
  listed_nodes, converted, server_nodes, IsReadable, get_nodes-listed_nodes,
}
use distributed_hash_table.Ring.Servers.{Server, node_of}
use distributed_hash_table.ListNodes.{listed, list_nodes}
use distributed_hash_table.ListNodes.Answering.{line_of, heard, list_nodes-member}
use distributed_hash_table.Tests.Ring.{toy}

abbrev line : ServerLine
line = record { ip = b'a' ∷ []; port = 5; ids = 1 }

-- A line that does not convert between two that do.
abbrev broken : List (Option ServerLine)
broken = some line ∷ none ∷ some line ∷ []

line-IsReadable : All (IsReadable toy) (converted broken)
unfolding converted
line-IsReadable = ((omega arith, (b'a' ∷ [], refl)), tt)

lines-short : length (listed_nodes toy (converted broken)) ≤ max_nodes
unfolding listed_nodes server_nodes converted
lines-short = omega arith

get_nodes_example :
    get_nodes toy (some broken) [] ≡ ok (some (listed_nodes toy (converted broken)), [])
get_nodes_example =
    get_nodes-listed_nodes toy (b'1' ∷ b'2' ∷ b'7' ∷ b'.' ∷ b'0' ∷ b'.' ∷ b'0' ∷ b'.' ∷ b'1' ∷ [])
      refl broken line-IsReadable lines-short

-- A platform that reads no address.
abbrev blind : Platform
blind = record { sha1 = λ s. s; inet_pton = λ s. none }

abbrev only_server : Server
only_server = record {
  address = record { sin_addr = b'a' ∷ []; sin_port = 0 ∷ 5 ∷ [] };
  sha = b'a' ∷ 32 ∷ b'5' ∷ 32 ∷ b'1' ∷ [];
}

only_server-read :
    get_nodes toy (some (some line ∷ [])) [] ≡ ok (some (map node_of (only_server ∷ [])), [])
unfolding get_nodes node_list_new
only_server-read = refl

list_nodes_example :
    list_nodes toy (λ order l. l) (some (some line ∷ [])) (only_server.address ∷ []) []
    ≡ ok (
      listed (
          map
            (line_of (
              map
                (heard toy
                  (λ order l. l)
                  (b'1' ∷ b'2' ∷ b'7' ∷ b'.' ∷ b'0' ∷ b'.' ∷ b'0' ∷ b'.' ∷ b'1' ∷ [])
                  refl)
                (only_server.address ∷ [])))
            (only_server ∷ [])),
      [],
    )
list_nodes_example =
    list_nodes-member toy (λ order l. l)
      (b'1' ∷ b'2' ∷ b'7' ∷ b'.' ∷ b'0' ∷ b'.' ∷ b'0' ∷ b'.' ∷ b'1' ∷ []) refl (some line ∷ [])
      (only_server.address ∷ []) (only_server ∷ []) (only_server ∷ []) only_server-read refl
      (λ l. (l, refl, λ s. refl)) (omega arith)
