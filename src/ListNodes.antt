-- ===== src/ListNodes.antt =====
-- done/pps-list-nodes.c: which servers answer a check. `recvfrom` enters as the list of the addresses
-- from which a datagram comes, before the first timeout. What is printed for a node is whether it answers.
pub mod Answering
use distributed_hash_table.Base.{
  ℕ, Bool, true, false, List, [], ◌∷◌, ◌++◌, Option, none, some, if◌then◌else◌, Memory, malloc, Run,
  ok, fault, null_pointer, bad_pointer, live, wild, ◌>>=◌,
}
use distributed_hash_table.Error.{ErrorCode, err_none}
use distributed_hash_table.CString.{Bytes, is_eq}
use distributed_hash_table.System.{Platform, SocketAddress}
use distributed_hash_table.Node.{Node, node_init, node_end, node_cmp_server_addr}
use distributed_hash_table.NodeList.{
  ServerLine, Qsort, node_list_sort, default_ip, default_port, node_list_new, node_list_add,
  node_list_free, get_nodes,
}

unfoldable pub is_node_present_in_list : List Node → Node → Run Bool
unfolding node_cmp_server_addr
is_node_present_in_list [] node = ok false
is_node_present_in_list (x ∷ l) node = node_cmp_server_addr x node >>= λ o.
    let rest = is_node_present_in_list l node in if is_eq o then ok true else rest

-- What the program prints for the nodes, or `gave_up` where it returns 1.
pub data Listing : Type 0 where
  listed : List (Node × Bool) → Listing
  gave_up : Listing

-- The last `for` loop.
unfoldable pub report : List Node → List Node → Run (List (Node × Bool))
report [] list = ok []
report (node ∷ base) list = is_node_present_in_list list node >>= λ present.
    report base list >>= λ rest. ok ((node, present) ∷ rest)

module _ (platform : Platform) (qsort : Qsort) where
  -- The `while` loop: the source's address is written to the node, and a copy of that is added.
  unfoldable pub receive_all :
      List SocketAddress → List Node → Node → Memory → Run (Option (List Node) × Node × Memory)
  receive_all [] list node m = ok (some list, node, m)
  receive_all (source ∷ later) list node m =
      let heard = record node { address = live source } in
      node_list_add platform list heard m >>= λ (list', e, m'). elim e [
        | err_none ↦ receive_all later list' heard m'
        | _ ↦ node_list_free list' >>= λ _. ok (none, heard, m')
      ]

  -- From the creation of `list` on. Where `node_init` fails the lists are freed and then used; where
  -- there is no list, either it is refused or its NULL is followed.
  unfoldable pub list_answers : List SocketAddress → List Node → Memory → Run (Listing × Memory)
  list_answers sources base m =
      let (list, m₁) = node_list_new m in
      node_init platform (record { address = wild; sha = wild }) default_ip default_port 0 m₁
      >>= λ (node, e, m₂).
          let received : Run (Listing × Memory) = elim list [
            | none ↦ elim sources [ [] ↦ fault null_pointer | _ ↦ ok (gave_up, m₂) ]
            | some l ↦ receive_all sources l node m₂ >>= λ (found, node', m₃). elim found [
              | none ↦ node_list_free base >>= λ _. ok (gave_up, m₃)
              | some answered ↦ node_end node' >>= λ _.
                  report base (node_list_sort qsort node_cmp_server_addr answered) >>= λ lines.
                  node_list_free (node_list_sort qsort node_cmp_server_addr answered) >>= λ _.
                  node_list_free base >>= λ _. ok (listed lines, m₃)
            ]
          ] in
          elim e [ err_none ↦ received | _ ↦ fault bad_pointer ]

  -- `main`, with a socket.
  unfoldable pub list_nodes :
      Option (List (Option ServerLine)) → List SocketAddress → Memory → Run (Listing × Memory)
  list_nodes file sources m = get_nodes platform file m >>= λ (base, m'). elim base [
    | none ↦ fault null_pointer
    | some nodes ↦ list_answers sources (node_list_sort qsort node_cmp_server_addr nodes) m'
  ]
