-- ===== src/Node/Laws.antt =====
-- `node_init` with enough memory, at an address that `inet_pton` reads and at one that it refuses.
use distributed_hash_table.Base.{
  zero, suc, ◌+◌, ◌/◌, ◌%◌, ◌≤◌, ◌∷◌, ◌++◌, length-append, arith, ℕ, ◌<◌, ◌≡◌, [], some, none, ok,
  live, freed, length, lt→ltb,
}
use distributed_hash_table.Error.{err_none, err_network}
use distributed_hash_table.CString.{Bytes}
use distributed_hash_table.System.{Platform, htons, get_server_addr}
use distributed_hash_table.Node.{decimal_digits, Node, node_label, node_init, place_node}

length-decimal_digits : (fuel n : ℕ) → length (decimal_digits fuel n) ≤ fuel
unfolding decimal_digits
length-decimal_digits zero n = omega arith
length-decimal_digits (suc fuel) n = ground (
  arith,
  length-decimal_digits fuel (n / 10),
  length-append (decimal_digits fuel (n / 10)) ((48 + n % 10) ∷ []),
)

-- The text of a node fits the buffer of 100 bytes.
pub node_label-short :
    (ip : Bytes) (port id : ℕ) → length ip ≤ 15 → length (node_label ip port id) < 100
unfolding node_label
node_label-short ip port id h =
    let rest = decimal_digits 20 port ++ 32 ∷ decimal_digits 20 id in
    omega (
      arith,
      h,
      length-append ip (32 ∷ rest),
      length-append (decimal_digits 20 port) (32 ∷ decimal_digits 20 id),
      length-decimal_digits 20 port,
      length-decimal_digits 20 id,
    )

module _ (platform : Platform) (ip : Bytes) (port id : ℕ) where
  -- The node that the arguments describe.
  abbrev pub described : Bytes → Node
  described a = record {
    address = live (record { sin_addr = a; sin_port = htons port });
    sha = live (platform.sha1 (node_label ip port id));
  }

  place_node_lem :
      (a sha : Bytes)
      → platform.inet_pton ip ≡ some a
      → place_node platform ip port sha []
        ≡ ok (
          record {
            address = live (record { sin_addr = a; sin_port = htons port });
            sha = live sha;
          },
          err_none,
          [],
        )
  unfolding place_node
  place_node_lem a sha known = rw (place_node, get_server_addr, known)

  place_node_refused :
      (sha : Bytes)
      → platform.inet_pton ip ≡ none
      → place_node platform ip port sha []
        ≡ ok (record { address = freed; sha = freed }, err_network, [])
  unfolding place_node
  place_node_refused sha known =
      rw (place_node, get_server_addr, known) (rw (get_server_addr, known))

  pub node_init_lem :
      (node : Node) (a : Bytes)
      → platform.inet_pton ip ≡ some a
      → length (node_label ip port id) < 100
      → node_init platform node ip port id [] ≡ ok (described a, err_none, [])
  unfolding node_init
  node_init_lem node a known short =
      rw (node_init, lt→ltb (length (node_label ip port id)) 100 short) (place_node_lem a _ known)

  pub node_init_refused :
      (node : Node)
      → platform.inet_pton ip ≡ none
      → length (node_label ip port id) < 100
      → node_init platform node ip port id []
        ≡ ok (record { address = freed; sha = freed }, err_network, [])
  unfolding node_init
  node_init_refused node known short =
      rw (node_init, lt→ltb (length (node_label ip port id)) 100 short) (place_node_refused _ known)
