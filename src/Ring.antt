-- ===== src/Ring.antt =====
-- done/ring.h and done/ring.c: the ring of nodes, sorted by digest, and the nodes that store a key.
-- `qsort` is the library's, given as a function of the comparator and the nodes.
pub mod Servers
pub mod Walk
pub mod Count
pub mod Select
pub mod Endless
pub mod Index
use Prim.Native.Nat.{Ordering}
use distributed_hash_table.Base.{
  ℕ, zero, suc, ◌+◌, ◌%◌, ◌≡◌, Bool, true, false, List, [], ◌∷◌, ◌++◌, Option, none, some, Memory,
  malloc, Run, ok, fault, out_of_bounds, division_by_zero, no_end, Pointer, live, deref, ◌>>=◌,
  length, ltb, if◌then◌else◌, ◌==◌, get_elem?, not,
}
use distributed_hash_table.Error.{ErrorCode, err_none, err_nomem}
use distributed_hash_table.CString.{Bytes, strncmp, is_eq}
use distributed_hash_table.System.{Platform}
use distributed_hash_table.Node.{Node, sha_digest_length, node_cmp_sha, node_cmp_server_addr}
use distributed_hash_table.NodeList.{
  ServerLine, Qsort, node_list_sort, node_list_new, node_list_free, node_list_add, get_nodes,
}

abbrev is_less : Ordering → Bool
is_less Ordering.lt = true
is_less _ = false

-- The `for` loop of `index_of_first_node`, from index i; 0 at the end.
unfoldable pub index_from : ℕ → List Node → Bytes → Run ℕ
unfolding strncmp
index_from i [] sha = ok 0
index_from i (node ∷ rest) sha = deref node.sha >>= λ a.
    let later = index_from (suc i) rest sha in
    if is_less (strncmp sha_digest_length a sha) then later else ok i

unfoldable pub index_of_first_node : List Node → Bytes → Run ℕ
unfolding index_from
index_of_first_node ring sha = index_from 0 ring sha

-- Whether a node with the same server address stands in the list.
unfoldable pub already_present_in_list : List Node → Node → Run Bool
unfolding node_cmp_server_addr
already_present_in_list [] node = ok false
already_present_in_list (x ∷ l) node = node_cmp_server_addr x node >>= λ o.
    let rest = already_present_in_list l node in if is_eq o then ok true else rest

-- `ring->nodes[index]`.
unfoldable pub node_at : List Node → ℕ → Run Node
node_at ring i = elim (get_elem? ring i) [ some node ↦ ok node | none ↦ fault out_of_bounds ]

-- `n % size`.
unfoldable pub remainder : ℕ → ℕ → Run ℕ
remainder n zero = fault division_by_zero
remainder n (suc d) = ok (n % suc d)

-- `ring_alloc`: an empty ring, or NULL.
abbrev pub ring_alloc : Memory → Option (List Node) × Memory
ring_alloc m = node_list_new m

-- `ring_free`: what becomes of the nodes.
abbrev pub ring_free : List Node → Run (List Node)
ring_free ring = node_list_free ring

module _ (platform : Platform) where
  -- The body of the `while` loop: the list and the index after it. The code of `node_list_add` is not
  -- looked at.
  unfoldable pub select_step : List Node → List Node → ℕ → Memory → Run (List Node × ℕ × Memory)
  select_step ring l index m = node_at ring index >>= λ node.
      already_present_in_list l node >>= λ present.
      let added : Run (List Node × Memory) =
        node_list_add platform l node m >>= λ (l', _, m'). ok (l', m') in
      (if present then ok (l, m) else added) >>= λ (l', m').
      remainder (index + 1) (length ring) >>= λ index'. ok (l', index', m')

  -- The `while` loop, with fuel.
  unfoldable pub select : ℕ → List Node → ℕ → List Node → ℕ → Memory → Run (List Node × Memory)
  select zero ring wanted l index m = if ltb (length l) wanted then fault no_end else ok (l, m)
  select (suc fuel) ring wanted l index m =
      let more =
        select_step ring l index m >>= λ (l', index', m'). select fuel ring wanted l' index' m' in
      if ltb (length l) wanted then more else ok (l, m)

  -- `ring_get_nodes_for_key`; `none` stands for NULL.
  unfoldable pub ring_get_nodes_for_key :
      ℕ → List Node → ℕ → Bytes → Memory → Run (Option (List Node) × Memory)
  ring_get_nodes_for_key fuel ring wanted key m =
      index_of_first_node ring (platform.sha1 key) >>= λ index.
      let (list, m') = node_list_new m in
      elim list [
        | none ↦ ok (none, m')
        | some l ↦ select fuel ring wanted l index m' >>= λ (l', m''). ok (some l', m'')
      ]

  -- `ring_init` on a ring that was allocated: the ring after it, and the code.
  unfoldable pub ring_init :
      Qsort
      → List Node
      → Option (List (Option ServerLine))
      → Memory
      → Run (List Node × ErrorCode × Memory)
  unfolding get_nodes
  ring_init qsort ring file m = get_nodes platform file m >>= λ (list, m'). elim list [
    | none ↦ ok (ring, err_nomem, m')
    | some l ↦ ok (node_list_sort qsort node_cmp_sha l, err_none, m')
  ]
