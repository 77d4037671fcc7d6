-- ===== src/NodeList/Nodes.antt =====
-- The nodes of the file of servers, with enough memory.
use distributed_hash_table.Base.{
  ℕ, zero, suc, ◌+◌, ◌≤◌, ◌<◌, ◌≡◌, refl, ◌∙◌, ap, List, [], ◌∷◌, ◌++◌, Option, none, some, ok,
  arith, length, length-append, All, freed, nil,
}
use mathlib.Core.List.{append_assoc, append-nil}
use distributed_hash_table.CString.{Bytes}
use distributed_hash_table.System.{Platform}
use distributed_hash_table.Node.{Node, node_end}
use distributed_hash_table.Node.Laws.{described, node_label-short, node_init_lem}
use distributed_hash_table.NodeList.{
  ServerLine, default_ip, max_nodes, node_list_new, add_id, add_ids, add_lines, get_nodes,
}
use distributed_hash_table.NodeList.Laws.{node_list_add_lem}

-- The lines before the first that does not convert.
unfoldable pub converted : List (Option ServerLine) → List ServerLine
converted [] = []
converted (none ∷ file) = []
converted (some line ∷ file) = line ∷ converted file

module _ (platform : Platform) where
  -- The nodes of one server, for n ids from `id`.
  unfoldable pub server_nodes : ℕ → Bytes → ℕ → Bytes → ℕ → List Node
  server_nodes zero ip port a id = []
  server_nodes (suc n) ip port a id =
      described platform ip port id a ∷ server_nodes n ip port a (suc id)

  length-server_nodes :
      (n : ℕ) (ip : Bytes) (port : ℕ) (a : Bytes) (id : ℕ)
      → length (server_nodes n ip port a id) ≡ n
  unfolding server_nodes
  length-server_nodes zero ip port a id = refl
  length-server_nodes (suc n) ip port a id = ap suc (length-server_nodes n ip port a (suc id))

  -- The nodes of the file: for each line, its ids from 1.
  unfoldable pub listed_nodes : List ServerLine → List Node
  listed_nodes [] = []
  listed_nodes (line ∷ lines) = elim (platform.inet_pton line.ip) [
    | some a ↦ server_nodes line.ids line.ip line.port a 1 ++ listed_nodes lines
    | none ↦ listed_nodes lines
  ]

  -- The address is one that `inet_pton` reads; fscanf reads at most 15 bytes of it.
  abbrev pub IsReadable : ServerLine → Type 0
  IsReadable line = (length line.ip ≤ 15) × ((a : Bytes) × (platform.inet_pton line.ip ≡ some a))

  module _ (home : Bytes) (known : platform.inet_pton default_ip ≡ some home) where
    add_id_lem :
        (ip : Bytes) (port id : ℕ) (a : Bytes) (l : List Node) (node : Node)
        → length ip ≤ 15
        → platform.inet_pton ip ≡ some a
        → length l < max_nodes
        → add_id platform ip port id l node []
          ≡ ok (
            some (l ++ described platform ip port id a ∷ []),
            record { address = freed; sha = freed },
            [],
          )
    unfolding add_id
    add_id_lem ip port id a l node short read room =
        rw
          (
            add_id,
            node_init_lem platform ip port id node a read (node_label-short ip port id short),
            node_list_add_lem platform home known _ _ l room,
            node_end,
          )
          refl

    add_ids_lem :
        (n : ℕ) (ip : Bytes) (port id : ℕ) (a : Bytes) (l : List Node) (node : Node)
        → length ip ≤ 15
        → platform.inet_pton ip ≡ some a
        → length l + n ≤ max_nodes
        → (node' : Node) × (add_ids platform n ip port id l node []
            ≡ ok (some (l ++ server_nodes n ip port a id), node', []))
    unfolding add_ids server_nodes
    add_ids_lem zero ip port id a l node short read room = (node, rw (append-nil l) refl)
    add_ids_lem (suc n) ip port id a l node short read room =
        let next = described platform ip port id a in
        let (node', run) =
          add_ids_lem n ip port (suc id) a (l ++ next ∷ [])
            (record { address = freed; sha = freed }) short read
            (omega (arith, room, length-append l (next ∷ []))) in
        (
          node',
          rw (add_id_lem ip port id a l node short read (omega (arith, room)), run)
              (simp append_assoc),
        )

    add_lines_lem :
        (file : List (Option ServerLine)) (l : List Node)
        → All IsReadable (converted file)
        → length l + length (listed_nodes (converted file)) ≤ max_nodes
        → add_lines platform file l [] ≡ ok (some (l ++ listed_nodes (converted file)), [])
    unfolding add_lines listed_nodes converted
    add_lines_lem [] l h room = rw (append-nil l) refl
    add_lines_lem (none ∷ file) l h room = rw (append-nil l) refl
    add_lines_lem (some line ∷ file) l h room =
        let lines = converted file in
        let (a, read) = h.0.1 in
        let own = server_nodes line.ids line.ip line.port a 1 in
        let all : listed_nodes (line ∷ lines) ≡ own ++ listed_nodes lines =
          rw (listed_nodes, read) refl in
        let sizes : length l + (length own + length (listed_nodes lines)) ≤ max_nodes =
          rw (← length-append own (listed_nodes lines), ← all) room in
        let (node', run) =
          add_ids_lem line.ids line.ip line.port 1 a l (record { address = nil; sha = nil }) h.0.0
            read (omega (arith, sizes, length-server_nodes line.ids line.ip line.port a 1)) in
        rw (run, all)
          (add_lines_lem file (l ++ own) h.1 (omega (arith, sizes, length-append l own))
            ∙ simp append_assoc)

    -- `get_nodes`, with enough memory and room for the nodes, where the default address can be read, and so can
    -- the addresses, of at most 15 bytes, of the lines before the first of which fewer than three items
    -- convert: it gives for each of those lines its nodes with the ids from 1 to the number it names, in the order of the file, and
    -- no error where such a line and others follow.
    pub get_nodes-listed_nodes :
        (file : List (Option ServerLine))
        → All IsReadable (converted file)
        → length (listed_nodes (converted file)) ≤ max_nodes
        → get_nodes platform (some file) [] ≡ ok (some (listed_nodes (converted file)), [])
    unfolding get_nodes node_list_new
    get_nodes-listed_nodes file h room = add_lines_lem file [] h (omega (arith, room))
