-- ===== src/Node.antt =====
-- done/node.h and done/node.c: a node is a server's address and its place on the ring, a SHA-1 digest.
-- The functions are called on the addresses of variables only, so that their tests for NULL never
-- fire and are left out; an error code is the answer of the others.
pub mod Laws
use Prim.Native.Nat.{Ordering}
use distributed_hash_table.Base.{
  ℕ, zero, suc, ◌+◌, ◌/◌, ◌%◌, ◌≡◌, Bool, true, false, List, [], ◌∷◌, ◌++◌, Option, none, some,
  Memory, malloc, Run, ok, fault, out_of_bounds, Pointer, nil, wild, freed, live, deref, free,
  ◌>>=◌, length, ltb, if◌then◌else◌, ◌==◌,
}
use distributed_hash_table.Error.{ErrorCode, err_none, err_nomem}
use distributed_hash_table.CString.{Bytes, CharPointer, strncmp, memcmp}
use distributed_hash_table.System.{Platform, SocketAddress, get_server_addr}

-- `node_t`.
pub record Node : Type 0 where
  pub address : Pointer SocketAddress
  pub sha : Pointer Bytes

-- `SHA_DIGEST_LENGTH`.
abbrev pub sha_digest_length : ℕ
sha_digest_length = 20

-- `%hu` and `%zu`: the decimal digits, at most 20 of them.
pub decimal_digits : ℕ → ℕ → Bytes
decimal_digits zero n = []
decimal_digits (suc fuel) n =
    let front = decimal_digits fuel (n / 10) in
    if ltb n 10 then (48 + n) ∷ [] else front ++ (48 + n % 10) ∷ []

-- The text "ip port id" that is hashed.
unfoldable pub node_label : Bytes → ℕ → ℕ → Bytes
unfolding decimal_digits
node_label ip port id = ip ++ 32 ∷ (decimal_digits 20 port ++ 32 ∷ decimal_digits 20 id)

-- `node_end`: both objects are freed.
unfoldable pub node_end : Node → Run Node
node_end node = free node.sha >>= λ sha.
    free node.address >>= λ address. ok (record { address = address; sha = sha })

module _ (platform : Platform) where
  -- From `node->sha = sha` on, where the digest is stored. What malloc leaves in the address is
  -- freed before it is read, and stands as an empty address.
  place_node : Bytes → ℕ → Bytes → Memory → Run (Node × ErrorCode × Memory)
  unfolding node_end get_server_addr
  place_node ip port sha m =
      let (got, m') = malloc m in
      let (place, e) = get_server_addr platform (some ip) port in
      elim got [
        | false ↦
            node_end (record { address = nil; sha = live sha }) >>= λ node. ok (node, err_nomem, m')
        | true ↦ elim place [
          | some a ↦ ok (record { address = live a; sha = live sha }, err_none, m')
          | none ↦
              node_end (record {
                address = live (record { sin_addr = []; sin_port = [] });
                sha = live sha;
              })
              >>= λ node. ok (node, e, m')
        ]
      ]

  -- `node_init`: the node before and after. The text is written to a buffer of 100 bytes.
  unfoldable pub node_init : Node → Bytes → ℕ → ℕ → Memory → Run (Node × ErrorCode × Memory)
  unfolding node_label place_node
  node_init node ip port id m =
      let (got, m') = malloc m in
      let label = node_label ip port id in
      if ltb (length label) 100
      then (if got then place_node ip port (platform.sha1 label) m' else ok (node, err_nomem, m'))
      else fault out_of_bounds

-- `node_cmp_sha`.
unfoldable pub node_cmp_sha : Node → Node → Run Ordering
unfolding strncmp
node_cmp_sha first second =
    deref first.sha >>= λ a. deref second.sha >>= λ b. ok (strncmp sha_digest_length a b)

-- The address decides, and then the port.
then_compare : Ordering → Ordering → Ordering
then_compare Ordering.eq o = o
then_compare o _ = o

-- `node_cmp_server_addr`.
unfoldable pub node_cmp_server_addr : Node → Node → Run Ordering
unfolding then_compare memcmp
node_cmp_server_addr first second = deref first.address >>= λ a. deref second.address >>= λ b.
    ok (then_compare (memcmp a.sin_addr b.sin_addr) (memcmp a.sin_port b.sin_port))
