-- ===== src/Projet01/NodeList/Reads.antt =====
-- The file of servers of provided/grading/projet01, where every line is read.
use distributed_hash_table.Base.{
  ℕ, ◌+◌, ◌≤◌, ◌<◌, ◌≡◌, refl, ◌∙◌, ap, List, [], ◌∷◌, ◌++◌, none, some, ok, Pointer, nil, live,
  length, length-append, map, All, le→ltb, arith,
}
use mathlib.Core.List.{append_assoc, append-nil}
use distributed_hash_table.Error.{err_none}
use distributed_hash_table.CString.{Bytes}
use distributed_hash_table.System.{Platform, SocketAddress, htons, get_server_addr}
use distributed_hash_table.NodeList.{max_nodes}
use distributed_hash_table.Projet02.NodeList.{node_list_new, node_list_add}
use distributed_hash_table.Projet01.NodeList.{
  FileLine, element, delete_ips, delete_parsed_data, elements, parse_lines, parse_server_file,
  add_node, add_server, add_servers, get_nodes,
}
use distributed_hash_table.Projet01.NodeList.BadPort.{IsGood, parse_lines-good}

abbrev strings_of : List FileLine → List (Pointer Bytes)
strings_of lines = map (λ line. live line.ip) lines

abbrev ports_of : List FileLine → List ℕ
ports_of lines = map (λ line. line.port) lines

parse_lines_live :
    (lines : List FileLine) (n k : ℕ) (strings : List (Pointer Bytes)) (numbers : List ℕ)
    → All IsGood lines
    → n + length lines ≡ k
    → parse_lines lines n (live strings) (live numbers) []
      ≡ ok (k, live (strings ++ strings_of lines), live (numbers ++ ports_of lines), [])
unfolding parse_lines elements
parse_lines_live [] n k strings numbers h e =
    let same : n ≡ k = omega (arith, e) in rw (append-nil strings, append-nil numbers, same) refl
parse_lines_live (line ∷ lines) n k strings numbers h e =
    parse_lines-good line lines n (live strings) (live numbers) strings numbers refl refl h.0
    ∙ parse_lines_live lines (n + 1) k (strings ++ live line.ip ∷ []) (numbers ++ line.port ∷ [])
        h.1 (omega (arith, e))
    ∙ simp append_assoc

-- The strings and the ports at the place of a line.
element-strings_of :
    (done lines : List FileLine) (line : FileLine)
    → element (strings_of (done ++ line ∷ lines)) (length done) ≡ ok (live line.ip)
unfolding element
element-strings_of [] lines line = refl
element-strings_of (x ∷ done) lines line = element-strings_of done lines line

element-ports_of :
    (done lines : List FileLine) (line : FileLine)
    → element (ports_of (done ++ line ∷ lines)) (length done) ≡ ok line.port
unfolding element
element-ports_of [] lines line = refl
element-ports_of (x ∷ done) lines line = element-ports_of done lines line

-- The address of a line.
abbrev place : FileLine → Bytes → SocketAddress
place line a = record { sin_addr = a; sin_port = htons line.port }

module _ (platform : Platform) where
  -- The addresses of the lines, in order, of those that `inet_pton` reads.
  unfoldable pub addresses_of : List FileLine → List SocketAddress
  addresses_of [] = []
  addresses_of (line ∷ lines) = elim (platform.inet_pton line.ip) [
    | some a ↦ place line a ∷ addresses_of lines
    | none ↦ addresses_of lines
  ]

  abbrev pub IsReadable : FileLine → Type 0
  IsReadable line = (a : Bytes) × (platform.inet_pton line.ip ≡ some a)

  node_list_add_room :
      (l : List SocketAddress) (node : SocketAddress)
      → length l < max_nodes
      → node_list_add l node [] ≡ (l ++ node ∷ [], err_none, [])
  unfolding node_list_add
  node_list_add_room l node room = rw (le→ltb max_nodes (length l + 1) (omega (arith, room))) refl

  add_node_lem :
      (line : FileLine) (a : Bytes) (l : List SocketAddress)
      → platform.inet_pton line.ip ≡ some a
      → length l < max_nodes
      → add_node platform line.ip line.port l [] ≡ ok (some (l ++ place line a ∷ []), [])
  unfolding add_node get_server_addr
  add_node_lem line a l read room =
      let added = node_list_add_room l (place line a) room in
      rw (add_node, get_server_addr, read) (rw added (rw added refl))

  add_server_lem :
      (strings : List (Pointer Bytes)) (numbers : List ℕ) (i : ℕ) (line : FileLine) (a : Bytes)
      (l : List SocketAddress)
      → element strings i ≡ ok (live line.ip)
      → element numbers i ≡ ok line.port
      → platform.inet_pton line.ip ≡ some a
      → length l < max_nodes
      → add_server platform (live strings) (live numbers) i l []
        ≡ ok (some (l ++ place line a ∷ []), [])
  unfolding add_server
  add_server_lem strings numbers i line a l e f read room =
      rw (add_server, e, f) (add_node_lem line a l read room)

  -- The loop from the line behind `done` on.
  add_servers_lem :
      (first : FileLine) (others done lines : List FileLine) (i : ℕ) (l : List SocketAddress)
      → first ∷ others ≡ done ++ lines
      → i ≡ length done
      → All IsReadable lines
      → length l + length lines ≤ max_nodes
      → add_servers platform
          (length lines)
          i
          (live (strings_of (first ∷ others)))
          (live (ports_of (first ∷ others)))
          l
          []
        ≡ ok (some (l ++ addresses_of lines), [])
  unfolding add_servers addresses_of delete_parsed_data delete_ips element
  add_servers_lem first others done [] i l e at h room = rw (append-nil l) refl
  add_servers_lem first others done (line ∷ lines) i l e at h room =
      let (a, read) = h.0 in
      let own : element (strings_of (first ∷ others)) i ≡ ok (live line.ip) =
        ap (λ x. element (strings_of x) i) e
        ∙ ap (element (strings_of (done ++ line ∷ lines))) at
        ∙ element-strings_of done lines line in
      let port : element (ports_of (first ∷ others)) i ≡ ok line.port =
        ap (λ x. element (ports_of x) i) e
        ∙ ap (element (ports_of (done ++ line ∷ lines))) at
        ∙ element-ports_of done lines line in
      rw
        (
          add_servers,
          add_server_lem (strings_of (first ∷ others)) (ports_of (first ∷ others)) i line a l own
              port read (omega (arith, room)),
          addresses_of,
          read,
        )
        (add_servers_lem first others (done ++ line ∷ []) lines (i + 1) (l ++ place line a ∷ [])
            (e ∙ simp append_assoc) (omega (arith, at, length-append done (line ∷ []))) h.1
            (omega (arith, room, length-append l (place line a ∷ [])))
          ∙ simp append_assoc)

  -- `get_nodes` of week 7 on a file of which every line has an address of less than 15 bytes that
  -- `inet_pton` reads, a port from 1 to 2 ^ 15 - 1 and a newline behind it, with enough memory and room
  -- for the nodes: the two arrays are read and deleted without a fault, and the list has the address and the
  -- port of each line, in the order of the file.
  pub get_nodes-addresses_of :
      (lines : List FileLine)
      → All IsGood lines
      → All IsReadable lines
      → length lines ≤ max_nodes
      → get_nodes platform (some lines) [] ≡ ok (some (addresses_of lines), [])
  unfolding get_nodes node_list_new parse_server_file parse_lines add_servers delete_parsed_data
      elements addresses_of
  get_nodes-addresses_of [] h read room = refl
  get_nodes-addresses_of (line ∷ lines) h read room =
      rw
        (
          parse_lines-good line lines 0 nil nil [] [] refl refl h.0,
          parse_lines_live lines 1 (length (line ∷ lines)) (live line.ip ∷ []) (line.port ∷ []) h.1
              (omega arith),
        )
        (add_servers_lem line lines [] (line ∷ lines) 0 [] refl refl read (omega (arith, room)))
