-- ===== src/NodeList/Laws.antt =====
-- Copying a node into a list, with enough memory.
use distributed_hash_table.Base.{
  ◌+◌, ◌<◌, ◌≡◌, ◌++◌, [], ◌∷◌, List, some, ok, live, arith, length, le→ltb,
}
use distributed_hash_table.Error.{err_none}
use distributed_hash_table.CString.{Bytes}
use distributed_hash_table.System.{Platform, SocketAddress}
use distributed_hash_table.Node.{Node, node_label}
use distributed_hash_table.Node.Laws.{node_init_lem}
use distributed_hash_table.NodeList.{default_ip, default_port, max_nodes, copy_node, node_list_add}

module _ (platform : Platform) (home : Bytes) (known : platform.inet_pton default_ip ≡ some home)
    (a : SocketAddress) (sha : Bytes) where
  copy_node_lem :
      copy_node platform (record { address = live a; sha = live sha }) []
      ≡ ok (record { address = live a; sha = live sha }, err_none, [])
  unfolding copy_node
  copy_node_lem = rw (
    copy_node,
    node_init_lem platform default_ip default_port 0 _ home known
        (unfold node_label in omega arith),
  )

  -- `node_list_add` appends a copy of a node whose objects are alive.
  pub node_list_add_lem :
      (l : List Node)
      → length l < max_nodes
      → node_list_add platform l (record { address = live a; sha = live sha }) []
        ≡ ok (l ++ record { address = live a; sha = live sha } ∷ [], err_none, [])
  unfolding node_list_add
  node_list_add_lem l room = simp (le→ltb max_nodes (length l + 1) (omega arith)) (rw copy_node_lem)
