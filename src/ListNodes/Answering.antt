-- ===== src/ListNodes/Answering.antt =====
-- Which servers are listed as answering.
use distributed_hash_table.Base.{
  ◌+◌, ◌≤◌, ◌≡◌, refl, ap, ◌∙◌, Bool, List, [], ◌∷◌, ◌++◌, some, ok, freed, arith, length,
  length-append, map, Option,
}
use mathlib.Core.List.{append_assoc, append-nil}
use distributed_hash_table.CString.{Bytes}
use distributed_hash_table.System.{Platform, SocketAddress, htons}
use distributed_hash_table.Node.{Node, node_cmp_server_addr, node_label, node_end}
use distributed_hash_table.Node.Laws.{node_init_lem, node_label-short}
use distributed_hash_table.NodeList.{
  ServerLine, Qsort, default_ip, default_port, max_nodes, node_list_new, node_list_free, get_nodes,
}
use distributed_hash_table.Ring.Servers.{Server, node_of, member, same_server, node_list_add-append}
use distributed_hash_table.ListNodes.{
  listed, is_node_present_in_list, report, receive_all, list_answers, list_nodes,
}

is_node_present-member :
    (l : List Server) (s : Server)
    → is_node_present_in_list (map node_of l) (node_of s) ≡ ok (member l s)
unfolding is_node_present_in_list member same_server
is_node_present-member [] s = refl
is_node_present-member (x ∷ l) s = ground (arith, is_node_present-member l s)

-- A server's node, and whether its address is one of the list.
abbrev pub line_of : List Server → Server → Node × Bool
line_of l s = (node_of s, member l s)

report-member :
    (base l : List Server) → report (map node_of base) (map node_of l) ≡ ok (map (line_of l) base)
unfolding report
report-member [] l = refl
report-member (s ∷ base) l = rw (is_node_present-member l s, report-member base l) refl

lines-same :
    (l l' base : List Server)
    → ((s : Server) → member l s ≡ member l' s)
    → map (line_of l) base ≡ map (line_of l') base
lines-same l l' [] same = refl
lines-same l l' (s ∷ base) same = rw (same s, lines-same l l' base same) refl

node_list_free_lem :
    (l : List Server) → (rest : List Node) × (node_list_free (map node_of l) ≡ ok rest)
unfolding node_list_free node_end
node_list_free_lem [] = ([], refl)
node_list_free_lem (s ∷ l) =
    let (rest, run) = node_list_free_lem l in
    (record { address = freed; sha = freed } ∷ rest, rw run refl)

module _ (platform : Platform) (qsort : Qsort) (home : Bytes)
    (known : platform.inet_pton default_ip ≡ some home) where
  -- What the program stores of the source of a datagram.
  abbrev pub heard : SocketAddress → Server
  heard a = record { address = a; sha = platform.sha1 (node_label default_ip default_port 0) }

  receive_all_lem :
      (sources : List SocketAddress) (l : List Server) (a : SocketAddress)
      → length l + length sources ≤ max_nodes
      → (b : SocketAddress) × (receive_all platform qsort sources
            (map node_of l)
            (node_of (heard a))
            []
          ≡ ok (some (map node_of (l ++ map heard sources)), node_of (heard b), []))
  unfolding receive_all
  receive_all_lem [] l a room = (a, rw (append-nil l) refl)
  receive_all_lem (source ∷ later) l a room =
      let (b, run) =
        receive_all_lem later (l ++ heard source ∷ []) source
          (omega (arith, room, length-append l (heard source ∷ []))) in
      (
        b,
        rw (node_list_add-append platform home l (heard source) known (omega (arith, room)), run)
            (simp append_assoc),
      )

  list_answers-member :
      (sources : List SocketAddress) (sorted : List Server)
      → ((l : List Server)
          → (l' : List Server) × (qsort node_cmp_server_addr (map node_of l) ≡ map node_of l')
            × ((s : Server) → member l' s ≡ member l s))
      → length sources ≤ max_nodes
      → list_answers platform qsort sources (map node_of sorted) []
        ≡ ok (listed (map (line_of (map heard sources)) sorted), [])
  unfolding list_answers node_list_new node_end
  list_answers-member sources sorted keeps room =
      let first : SocketAddress = record { sin_addr = home; sin_port = htons default_port } in
      let (last, run) = receive_all_lem sources [] first (omega (arith, room)) in
      let (answered, e, same) = keeps (map heard sources) in
      let (_, freed_answers) = node_list_free_lem answered in
      let (_, freed_nodes) = node_list_free_lem sorted in
      rw
        (
          node_init_lem platform default_ip default_port 0 _ home known
              (node_label-short default_ip default_port 0 (omega arith)),
          run,
          e,
          report-member sorted answered,
          freed_answers,
          freed_nodes,
        )
        (ap (λ lines. ok (listed lines, [])) (lines-same answered (map heard sources) sorted same))

  -- With enough memory, a default address that `inet_pton` reads, a file of servers that `get_nodes` reads, and a `qsort` that keeps the servers
  -- of a list, pps-list-nodes prints every node that the sorted list of the file holds, as answering
  -- exactly if a datagram came from its address.
  pub list_nodes-member :
      (file : List (Option ServerLine)) (sources : List SocketAddress) (ss sorted : List Server)
      → get_nodes platform (some file) [] ≡ ok (some (map node_of ss), [])
      → qsort node_cmp_server_addr (map node_of ss) ≡ map node_of sorted
      → ((l : List Server)
          → (l' : List Server) × (qsort node_cmp_server_addr (map node_of l) ≡ map node_of l')
            × ((s : Server) → member l' s ≡ member l s))
      → length sources ≤ max_nodes
      → list_nodes platform qsort (some file) sources []
        ≡ ok (listed (map (line_of (map heard sources)) sorted), [])
  unfolding list_nodes
  list_nodes-member file sources ss sorted base order keeps room = rw base (
      ap (λ nodes. list_answers platform qsort sources nodes []) order
      ∙ list_answers-member sources sorted keeps room)
