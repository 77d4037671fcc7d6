-- ===== src/Ring/Servers.antt =====
-- Nodes whose two objects are alive, as values, and what the list operations do with them.
use distributed_hash_table.Base.{
  ◌<◌, ◌≡◌, refl, ◌∙◌, Bool, true, false, List, [], ◌∷◌, ◌++◌, some, ok, live, length,
  if◌then◌else◌, map, arith, ◌↔◌, length-map,
}
use mathlib.Core.List.{map-append}
use distributed_hash_table.Error.{err_none}
use distributed_hash_table.CString.{Bytes, str_eq}
use distributed_hash_table.CString.Laws.{str_eq_iff}
use distributed_hash_table.System.{Platform, SocketAddress}
use distributed_hash_table.Node.{Node}
use distributed_hash_table.NodeList.{default_ip, max_nodes, node_list_add}
use distributed_hash_table.NodeList.Laws.{node_list_add_lem}
use distributed_hash_table.Ring.{already_present_in_list}

pub record Server : Type 0 where
  pub address : SocketAddress
  pub sha : Bytes

abbrev pub node_of : Server → Node
node_of s = record { address = live s.address; sha = live s.sha }

-- Whether two servers have one address and port.
unfoldable pub same_server : Server → Server → Bool
unfolding str_eq
same_server s t =
    if str_eq s.address.sin_addr t.address.sin_addr
    then str_eq s.address.sin_port t.address.sin_port
    else false

unfoldable pub member : List Server → Server → Bool
member [] s = false
member (x ∷ l) s = if same_server x s then true else member l s

pub same_server_iff : (s t : Server) → (same_server s t ≡ true) ↔ (s.address ≡ t.address)
unfolding same_server
same_server_iff s t = ground (
  arith,
  str_eq_iff s.address.sin_addr t.address.sin_addr,
  str_eq_iff s.address.sin_port t.address.sin_port,
)

pub already_present-member :
    (l : List Server) (s : Server)
    → already_present_in_list (map node_of l) (node_of s) ≡ ok (member l s)
unfolding already_present_in_list member same_server
already_present-member [] s = refl
already_present-member (x ∷ l) s = ground (arith, already_present-member l s)

-- Adding a server to a list with room for it, with enough memory, appends a copy of it.
pub node_list_add-append :
    (platform : Platform) (home : Bytes) (l : List Server) (s : Server)
    → platform.inet_pton default_ip ≡ some home
    → length l < max_nodes
    → node_list_add platform (map node_of l) (node_of s) []
      ≡ ok (map node_of (l ++ s ∷ []), err_none, [])
node_list_add-append platform home l s known room =
    node_list_add_lem platform home known s.address s.sha (map node_of l) (rw length-map room)
    ∙ rw map-append
