-- ===== src/Ring/Endless.antt =====
-- The `while` loop of `ring_get_nodes_for_key` never ends if the ring has too few distinct servers.
use distributed_hash_table.Base.{
  ℕ, zero, suc, ◌+◌, ◌%◌, ◌≤◌, ◌<◌, ◌≡◌, refl, true, List, [], ◌∷◌, ◌++◌, some, fault, no_end,
  length, if◌then◌else◌, arith, get_elem?, map, length-map, lt→ltb, get_elem?-lt,
}
use mathlib.Core.Option.{some-injective}
use native.Mathlib.Nat.{mod-lt}
use distributed_hash_table.CString.{Bytes}
use distributed_hash_table.System.{Platform}
use distributed_hash_table.NodeList.{default_ip, max_nodes, node_list_new}
use distributed_hash_table.Ring.{select, ring_get_nodes_for_key}
use distributed_hash_table.Ring.Servers.{Server, node_of, member, same_server_iff}
use distributed_hash_table.Ring.Walk.{distinct, all_distinct, all_distinct-snoc, member-snoc}
use distributed_hash_table.Ring.Count.{member-distinct, member_congr, length-le_of_members}
use distributed_hash_table.Ring.Index.{index_of_first_node-First}
use distributed_hash_table.Ring.Select.{select_step_lem, First-lt}

member_at : (ss : List Server) (i : ℕ) (s : Server) → get_elem? ss i ≡ some s → member ss s ≡ true
unfolding member
member_at [] i s h = cc
member_at (x ∷ ss) zero s h =
    let same : x ≡ s = some-injective _ _ h in ground (arith, same_server_iff x s)
member_at (x ∷ ss) (suc i) s h = ground (arith, member_at ss i s h)

-- The servers collected so far: distinct, and all from the ring.
record IsCollected (ss acc : List Server) : Type 0 where
  apart : all_distinct acc ≡ true
  from : (s : Server) → member acc s ≡ true → member ss s ≡ true

IsCollected-length : (ss acc : List Server) → IsCollected ss acc → length acc ≤ length (distinct ss)
IsCollected-length ss acc c =
    length-le_of_members acc (distinct ss) c.apart (λ s m. rw (member-distinct ss s) (c.from s m))

IsCollected-step :
    (ss acc : List Server) (s : Server)
    → member ss s ≡ true
    → IsCollected ss acc
    → IsCollected ss (if member acc s then acc else acc ++ s ∷ [])
IsCollected-step ss acc s there c = record {
  apart = ground (arith, c.apart, all_distinct-snoc acc s);
  from = λ x. ground (arith, c.from x, member-snoc acc s x, member_congr ss s x);
}

module _ (platform : Platform) (home : Bytes) (known : platform.inet_pton default_ip ≡ some home)
    (ss : List Server) (wanted : ℕ) (room : wanted ≤ max_nodes)
    (few : length (distinct ss) < wanted) (pos : 0 < length ss) where
  select_endless :
      (fuel i : ℕ) (acc : List Server)
      → i < length ss
      → IsCollected ss acc
      → select platform fuel (map node_of ss) wanted (map node_of acc) i [] ≡ fault no_end
  unfolding select
  select_endless zero i acc lt c =
      let short = IsCollected-length ss acc c in
      rw (length-map, lt→ltb (length acc) wanted (omega arith))
  select_endless (suc fuel) i acc lt c =
      let short = IsCollected-length ss acc c in
      let (s, at) = get_elem?-lt ss i lt in
      rw
        (
          length-map,
          lt→ltb (length acc) wanted (omega arith),
          select_step_lem platform home known ss wanted room acc i s at (omega arith),
        )
        (select_endless fuel ((i + 1) % length ss) (if member acc s then acc else acc ++ s ∷ [])
          (mod-lt (i + 1) pos) (IsCollected-step ss acc s (member_at ss i s at) c))

-- On a ring with some node, but fewer than `wanted` distinct server addresses, `ring_get_nodes_for_key` is
-- still running after any number of passes, with enough memory and a default address that `inet_pton`
-- reads.
pub ring_get_nodes_for_key_endless :
    (platform : Platform) (home : Bytes) (ss : List Server) (wanted : ℕ) (key : Bytes) (fuel : ℕ)
    → platform.inet_pton default_ip ≡ some home
    → wanted ≤ max_nodes
    → 0 < length ss
    → length (distinct ss) < wanted
    → ring_get_nodes_for_key platform fuel (map node_of ss) wanted key [] ≡ fault no_end
unfolding ring_get_nodes_for_key node_list_new all_distinct member
ring_get_nodes_for_key_endless platform home ss wanted key fuel known room pos few =
    let (i, run, first) = index_of_first_node-First (platform.sha1 key) ss in
    rw (
      run,
      select_endless platform home known ss wanted room few pos fuel i []
          (First-lt (platform.sha1 key) ss i pos first) (record { apart = refl; from = λ s m. cc }),
    )
