-- ===== src/Projet02/NodeList.antt =====
-- provided/grading/projet02/node.c and node_list.c. A `node_t` is a `struct sockaddr_in`, and
-- `node_end` does nothing. The file of servers is the list of the pairs that `fscanf` converts before
-- the first line that it cannot.
use distributed_hash_table.Base.{
  ℕ, ◌+◌, List, [], ◌∷◌, ◌++◌, Option, none, some, length, ltb, if◌then◌else◌, Memory, malloc,
}
use distributed_hash_table.Error.{ErrorCode, err_none, err_nomem}
use distributed_hash_table.CString.{Bytes}
use distributed_hash_table.System.{Platform, SocketAddress, get_server_addr}
use distributed_hash_table.NodeList.{max_nodes}

-- One conversion of "%15s %hu".
pub record ServerLine : Type 0 where
  pub ip : Bytes
  pub port : ℕ

-- `node_list_new`; `none` stands for NULL.
unfoldable pub node_list_new : Memory → Option (List SocketAddress) × Memory
node_list_new m = let (got, m') = malloc m in (if got then some [] else none, m')

-- `node_list_add` with a list: the list after the call, and the code.
unfoldable pub node_list_add :
    List SocketAddress → SocketAddress → Memory → List SocketAddress × ErrorCode × Memory
node_list_add l node m =
    let (got, m') = malloc m in
    if ltb max_nodes (length l + 1)
    then (l, err_nomem, m)
    else if got
    then (l ++ node ∷ [], err_none, m')
    else (l, err_nomem, m')

module _ (platform : Platform) where
  -- `node_init`: the id is not used.
  unfoldable pub node_init : Bytes → ℕ → ℕ → Option SocketAddress × ErrorCode
  node_init ip port node_id = get_server_addr platform (some ip) port

  -- The `while` loop; `none` where the list is freed and NULL returned.
  unfoldable pub add_lines :
      List ServerLine → List SocketAddress → Memory → Option (List SocketAddress) × Memory
  add_lines [] l m = (some l, m)
  add_lines (line ∷ lines) l m =
      let (place, e) = node_init line.ip line.port 0 in
      elim place [
        | none ↦ (none, m)
        | some node ↦
            let (l', e', m') = node_list_add l node m in
            elim e' [ err_none ↦ add_lines lines l' m' | _ ↦ (none, m') ]
      ]

  -- `get_nodes`: no file gives an empty list.
  unfoldable pub get_nodes :
      Option (List ServerLine) → Memory → Option (List SocketAddress) × Memory
  get_nodes file m =
      let (list, m') = node_list_new m in
      elim list [
        | none ↦ (none, m')
        | some l ↦ elim file [ none ↦ (some l, m') | some lines ↦ add_lines lines l m' ]
      ]
