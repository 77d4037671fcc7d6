-- ===== src/NodeList.antt =====
-- done/node_list.h and done/node_list.c: lists of nodes and the file of servers. A `node_list_t` is
-- the list of its `size` nodes. `fscanf` is given by its successive conversions: the file of servers
-- is a list of triples, with `none` where fewer than three items convert.
pub mod Laws
pub mod Nodes
use Prim.Native.Nat.{Ordering}
use distributed_hash_table.Base.{
  ℕ, zero, suc, ◌+◌, ◌/◌, ◌^◌, ◌-◌, ◌≡◌, Bool, true, false, List, [], ◌∷◌, ◌++◌, Option, none, some,
  Memory, malloc, Run, ok, fault, out_of_bounds, Pointer, nil, wild, freed, live, deref, free,
  ◌>>=◌, length, ltb, if◌then◌else◌, ◌==◌, ◌||◌,
}
use distributed_hash_table.Error.{ErrorCode, err_none, err_nomem}
use distributed_hash_table.CString.{Bytes, CharPointer}
use distributed_hash_table.System.{Platform, SocketAddress}
use distributed_hash_table.Node.{Node, node_init, node_end}

-- `PPS_DEFAULT_IP` and `PPS_DEFAULT_PORT` of done/config.h.
abbrev pub default_ip : Bytes
default_ip = b'1' ∷ b'2' ∷ b'7' ∷ b'.' ∷ b'0' ∷ b'.' ∷ b'0' ∷ b'.' ∷ b'1' ∷ []

abbrev pub default_port : ℕ
default_port = 1234

-- `SIZE_MAX / sizeof(node_t)`.
abbrev pub max_nodes : ℕ
max_nodes = (2 ^ 64 - 1) / 16

-- One conversion of "%15s %hu %lu".
pub record ServerLine : Type 0 where
  pub ip : Bytes
  pub port : ℕ
  pub ids : ℕ

-- `node_list_new`: `none` stands for NULL.
unfoldable pub node_list_new : Memory → Option (List Node) × Memory
node_list_new m = let (got, m') = malloc m in (if got then some [] else none, m')

-- `node_list_free` ends every node.
unfoldable pub node_list_free : List Node → Run (List Node)
unfolding node_end
node_list_free [] = ok []
node_list_free (node ∷ l) = node_end node >>= λ node'. node_list_free l >>= λ l'. ok (node' ∷ l')

-- `qsort` of the C library on an array of nodes, by what the comparator says of two.
abbrev pub Qsort : Type 0
Qsort = (Node → Node → Run Ordering) → List Node → List Node

-- `node_list_sort`.
abbrev pub node_list_sort : Qsort → (Node → Node → Run Ordering) → List Node → List Node
node_list_sort qsort comparator l = qsort comparator l

-- An element of the array as realloc leaves it.
abbrev wild_node : Node
wild_node = record { address = wild; sha = wild }

-- A copy of the digest; without memory the node is ended, whose digest has been freed already.
copy_sha : Bytes → Node → Memory → Run (Node × ErrorCode × Memory)
unfolding node_end
copy_sha sha slot m =
    let (got, m') = malloc m in
    elim got [
      | true ↦ ok (record slot { sha = live sha }, err_none, m')
      | false ↦ node_end slot >>= λ slot'. ok (slot', err_nomem, m')
    ]

module _ (platform : Platform) where
  -- The new element: a default node, whose code is not looked at, overwritten by copies.
  copy_node : Node → Memory → Run (Node × ErrorCode × Memory)
  unfolding node_init copy_sha
  copy_node node m = node_init platform wild_node default_ip default_port 0 m >>= λ (slot, _, m₁).
      deref slot.address >>= λ _. deref node.address >>= λ a. free slot.sha >>= λ gone.
      deref node.sha >>= λ sha. copy_sha sha (record { address = live a; sha = gone }) m₁

  -- The list after the call, and the code.
  unfoldable pub node_list_add : List Node → Node → Memory → Run (List Node × ErrorCode × Memory)
  unfolding copy_node
  node_list_add l node m =
      let (got, m₁) = malloc m in
      let grown : Run (List Node × ErrorCode × Memory) = copy_node node m₁ >>= λ (slot, e, m₂).
      elim e [ err_none ↦ ok (l ++ slot ∷ [], err_none, m₂) | code ↦ ok (l, code, m₂) ] in
      if ltb max_nodes (length l + 1)
      then ok (l, err_nomem, m)
      else if got
      then grown
      else ok (l, err_nomem, m₁)

  -- The way out of `get_nodes` on an error.
  abandon : List Node → Node → Memory → Run (Option (List Node) × Node × Memory)
  abandon l node m = node_list_free l >>= λ _. node_end node >>= λ node'. ok (none, node', m)

  -- One pass of the `for` loop, and what of it stays for the next.
  add_id : Bytes → ℕ → ℕ → List Node → Node → Memory → Run (Option (List Node) × Node × Memory)
  unfolding node_init node_list_add abandon
  add_id ip port id l node m = node_init platform node ip port id m >>= λ (node₁, e, m₁). elim e [
    | err_none ↦ node_list_add l node₁ m₁ >>= λ (l', e', m₂). elim e' [
      | err_none ↦ node_end node₁ >>= λ node₂. ok (some l', node₂, m₂)
      | _ ↦ abandon l' node₁ m₂
    ]
    | _ ↦ abandon l node₁ m₁
  ]

  -- The `for` loop: the passes left, and the next id.
  add_ids : ℕ → Bytes → ℕ → ℕ → List Node → Node → Memory → Run (Option (List Node) × Node × Memory)
  unfolding add_id
  add_ids zero ip port id l node m = ok (some l, node, m)
  add_ids (suc n) ip port id l node m = add_id ip port id l node m >>= λ (found, node', m').
      elim found [ none ↦ ok (none, node', m') | some l' ↦ add_ids n ip port (suc id) l' node' m' ]

  -- The `while` loop over the lines, which ends at the first that does not convert; `memset` clears the
  -- node at each.
  add_lines : List (Option ServerLine) → List Node → Memory → Run (Option (List Node) × Memory)
  unfolding add_ids
  add_lines [] l m = ok (some l, m)
  add_lines (none ∷ lines) l m = ok (some l, m)
  add_lines (some line ∷ lines) l m =
      add_ids line.ids line.ip line.port 1 l (record { address = nil; sha = nil }) m
      >>= λ (found, _, m'). elim found [ none ↦ ok (none, m') | some l' ↦ add_lines lines l' m' ]

  -- `get_nodes`: no file gives an empty list.
  unfoldable pub get_nodes :
      Option (List (Option ServerLine)) → Memory → Run (Option (List Node) × Memory)
  unfolding node_list_new add_lines
  get_nodes file m =
      let (list, m') = node_list_new m in
      elim list [
        | none ↦ ok (none, m')
        | some l ↦ elim file [ none ↦ ok (some l, m') | some lines ↦ add_lines lines l m' ]
      ]
