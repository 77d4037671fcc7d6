-- ===== src/Projet02/DumpNode.antt =====
-- provided/grading/projet02/pps-dump-node.c. The results of `recv` and the clear bytes of the buffer are
-- given as in DumpNode, and the inner loop and the later datagrams are read as there.
pub mod Count
pub mod RoundTrip
use distributed_hash_table.Base.{
  ℕ, zero, suc, ◌+◌, ◌-◌, ◌*◌, ◌/◌, ◌%◌, ◌^◌, Bool, List, [], ◌∷◌, Option, none, some, Memory, Run,
  ok, fault, null_pointer, ◌>>=◌, take, drop,
}
use distributed_hash_table.CString.{Bytes}
use distributed_hash_table.Scan.{pos, negsuc, scan_int}
use distributed_hash_table.System.{Platform, SocketAddress}
use distributed_hash_table.Network.{unsigned_of_char}
use distributed_hash_table.DumpNode.{Ending, failed, out_of_memory, read_pairs, read_more}
use distributed_hash_table.Projet02.NodeList.{ServerLine, node_init}
use distributed_hash_table.Projet02.Client.{refused, started, client_init}
use distributed_hash_table.Projet02.Server.{htonl, max_udp_size}

-- The loop that reads the count, with the bytes left to read: a `char` is signed, and the sum is of 32
-- bits. Behind the datagram the buffer is clear.
unfoldable pub count_loop : ℕ → Bytes → ℕ → ℕ
count_loop zero ans nbr_pairs = nbr_pairs
count_loop (suc n) [] nbr_pairs = count_loop n [] (nbr_pairs * 2 ^ 8 % 2 ^ 32)
count_loop (suc n) (c ∷ ans) nbr_pairs =
    count_loop n ans ((nbr_pairs * 2 ^ 8 % 2 ^ 32 + unsigned_of_char c) % 2 ^ 32)

-- The number of pairs; `ntohl` does what `htonl` does.
unfoldable pub read_count : Bytes → ℕ
read_count ans = htonl (count_loop 4 ans 0)

-- The outer loop: the first datagram starts with the number of pairs.
unfoldable pub read_dump : ℕ → List (Option Bytes) → Memory → Run (Ending × Memory)
read_dump cleared [] m = ok (failed, m)
read_dump cleared (none ∷ replies) m = ok (failed, m)
read_dump cleared (some msg ∷ replies) m =
    read_pairs (suc cleared) (cleared - 4) (drop 4 (take max_udp_size msg)) [] m >>= λ (found, m').
    elim found [
      | none ↦ ok (out_of_memory, m')
      | some pairs ↦ read_more cleared (read_count (take max_udp_size msg)) replies pairs m'
    ]

-- How `main` ends: with nothing printed, because there is no client; with FAIL, because there is no
-- server; or after the request has been sent to a server.
pub data Exit : Type 0 where
  no_client no_server : Exit
  asked : SocketAddress → Ending → Exit

-- `sscanf` with "%hu", of 16 bits.
unfoldable pub scan_port : Bytes → Option ℕ
scan_port arg = elim (scan_int arg) [
  | some (pos k) ↦ some (k % 2 ^ 16)
  | some (negsuc k) ↦ some (2 ^ 16 - 1 - k % 2 ^ 16)
  | none ↦ none
]

module _ (platform : Platform) where
  -- The node of the arguments; `none` for the FAIL.
  unfoldable pub node_of_arguments : Bytes → Bytes → Option SocketAddress
  node_of_arguments ip port = elim (scan_port port) [
    | none ↦ none
    | some number ↦ (node_init platform ip number 0).0
  ]

  -- `main`.
  unfoldable pub dump_node :
      Option (List ServerLine)
      → Option ℕ
      → Bool
      → Bytes
      → List Bytes
      → ℕ
      → List (Option Bytes)
      → Memory
      → Run (Exit × Memory)
  dump_node file socket refusal name argv cleared replies m =
      client_init platform file socket refusal 2 0 name argv m >>= λ (client, m'). elim client [
        | refused code ↦ ok (no_client, m')
        | started _ (ip ∷ port ∷ rest) ↦ elim (node_of_arguments ip port) [
          | none ↦ ok (no_server, m')
          | some node ↦
              read_dump cleared replies m' >>= λ (ending, m''). ok (asked node ending, m'')
        ]
        | started _ _ ↦ fault null_pointer
      ]
