-- ===== src/Projet02/Client/Admits.antt =====
-- What a client of provided/grading/projet02/client.c that starts has.
use distributed_hash_table.Base.{
  ℕ, ◌≤◌, ◌≡◌, refl, ◌∙◌, sym, ap, List, [], ◌∷◌, ◌++◌, Option, none, some, Bool, false, ok, map,
  arith, Memory, inl, inr, ◌⊎◌, Option-cases, Bool-cases, length, ltb, if◌then◌else◌, ◌==◌, malloc,
  ◌+◌,
}
use mathlib.Core.List.{append_assoc, append-nil, map-append}
use mathlib.Core.Path.{subst}
use mathlib.Core.Option.{some-injective}
use distributed_hash_table.CString.{Bytes, argv_size}
use distributed_hash_table.Error.{err_none, err_nomem}
use distributed_hash_table.Args.{Args, base_args}
use distributed_hash_table.Hashtable.{size_max}
use distributed_hash_table.NodeList.{max_nodes}
use distributed_hash_table.System.{Platform, SocketAddress, get_server_addr, get_socket}
use distributed_hash_table.Startup.{wrong_count}
use distributed_hash_table.Startup.Admits.{wrong_count_no}
use distributed_hash_table.Projet02.Args.{parse_opt_args, parse_loop}
use distributed_hash_table.Projet02.NodeList.{
  ServerLine, node_list_new, node_list_add, node_init, add_lines, get_nodes,
}
use distributed_hash_table.Projet02.Client.{
  Started, Client, started, clamped, client_nodes, client_init,
}

-- The address of each line, where it has one.
unfoldable pub addresses_of : Platform → List ServerLine → List (Option SocketAddress)
addresses_of platform lines =
    map (λ line. (get_server_addr platform (some line.ip) line.port).0) lines

-- The lines before the first that cannot be read; no file is an empty one.
abbrev pub lines_of : Option (List ServerLine) → List ServerLine
lines_of none = []
lines_of (some lines) = lines

node_list_add-cases :
    (l : List SocketAddress) (node : SocketAddress) (m : Memory)
    → (node_list_add l node m ≡ (l ++ node ∷ [], err_none, (malloc m).1))
      ⊎ ((node_list_add l node m).1 ≡ err_nomem)
unfolding node_list_add
node_list_add-cases l node m = elim (Bool-cases (ltb max_nodes (length l + 1))) [
  | inl full ↦ inr (rw full refl)
  | inr fits ↦ elim (Bool-cases (malloc m).0) [
    | inl got ↦ inl (rw (fits, got) refl)
    | inr failed ↦ inr (rw (fits, failed) refl)
  ]
]

node_list_new-cases :
    (m : Memory) → (node_list_new m ≡ (some [], (malloc m).1)) ⊎ ((node_list_new m).0 ≡ none)
unfolding node_list_new
node_list_new-cases m = elim (Bool-cases (malloc m).0) [
  | inl got ↦ inl (rw got refl)
  | inr failed ↦ inr (rw failed refl)
]

-- A line that is read adds its node.
add_lines-step :
    (platform : Platform) (line : ServerLine) (lines : List ServerLine) (l l' : List SocketAddress)
    (m : Memory)
    → (add_lines platform (line ∷ lines) l m).0 ≡ some l'
    → (node : SocketAddress) × ((get_server_addr platform (some line.ip) line.port).0 ≡ some node)
      × ((add_lines platform lines (l ++ node ∷ []) (malloc m).1).0 ≡ some l')
unfolding add_lines node_init
add_lines-step platform line lines l l' m h =
    elim (Option-cases (get_server_addr platform (some line.ip) line.port).0) [
      | inl unknown ↦ absurd (cc (rw (add_lines, unknown) at h))
      | inr (node, known) ↦ elim (node_list_add-cases l node m) [
        | inl added ↦ (node, known, rw added at (rw (add_lines, known, added) at h))
        | inr failed ↦ absurd (cc (rw (add_lines, known, failed) at h))
      ]
    ]

add_lines-addresses :
    (platform : Platform) (lines : List ServerLine) (l l' : List SocketAddress) (m : Memory)
    → (add_lines platform lines l m).0 ≡ some l'
    → map (λ a. some a) l' ≡ map (λ a. some a) l ++ addresses_of platform lines
unfolding add_lines addresses_of
add_lines-addresses platform [] l l' m h =
    ap (map (λ a. some a)) (sym (some-injective _ _ h)) ∙ sym (append-nil _)
add_lines-addresses platform (line ∷ lines) l l' m h =
    let (node, known, later) = add_lines-step platform line lines l l' m h in
    add_lines-addresses platform lines (l ++ node ∷ []) l' (malloc m).1 later
    ∙ (rw (map-append (λ a. some a) l (node ∷ [])) (
        rw known
          (append_assoc (map (λ a. some a) l) (some node ∷ []) (addresses_of platform lines))))

clamped_le :
    (a : Args) (size : ℕ)
    → ((clamped a size).n ≤ size)
      × ((clamped a size).r ≤ (clamped a size).n)
      × ((clamped a size).w ≤ (clamped a size).n)
unfolding clamped
clamped_le a size = (omega arith, omega arith, omega arith)

-- The client's quorums are at most N, it has N nodes or more, and its nodes are those of the file.
pub record IsBounded (platform : Platform) (file : Option (List ServerLine)) (client : Client)
    : Type 0 where
  pub has_nodes : client.args.n ≤ length client.nodes
  pub reads : client.args.r ≤ client.args.n
  pub writes : client.args.w ≤ client.args.n
  pub listed : map (λ a. some a) client.nodes ≡ addresses_of platform (lines_of file)

get_nodes-addresses :
    (platform : Platform) (file : Option (List ServerLine)) (nodes : List SocketAddress)
    (m : Memory)
    → (get_nodes platform file m).0 ≡ some nodes
    → map (λ a. some a) nodes ≡ addresses_of platform (lines_of file)
unfolding get_nodes addresses_of
get_nodes-addresses platform none nodes m h = elim (node_list_new-cases m) [
  | inl new ↦ ap (map (λ a. some a)) (sym (some-injective _ _ (rw (get_nodes, new) at h)))
  | inr failed ↦ absurd (cc (rw (get_nodes, failed) at h))
]
get_nodes-addresses platform (some lines) nodes m h = elim (node_list_new-cases m) [
  | inl new ↦
      add_lines-addresses platform lines [] nodes (malloc m).1
        (rw new at (rw (get_nodes, new) at h))
  | inr failed ↦ absurd (cc (rw (get_nodes, failed) at h))
]

started-injective :
    (client client' : Client) (left left' : List Bytes) (m m' : Memory)
    → ◌≡◌ {A = Started × Memory} (started client left, m) (started client' left', m')
    → (client ≡ client') × (left ≡ left')
started-injective client client' left left' m m' h = (cc, cc)

-- The client that is made of these nodes.
abbrev client_of : Bytes → List SocketAddress → Args → ℕ → Client
client_of name nodes a fd = record {
  name = name;
  nodes = nodes;
  args = clamped a (length nodes);
  socket = fd;
}

client_nodes-IsBounded :
    (platform : Platform) (name : Bytes) (file : Option (List ServerLine)) (socket : Option ℕ)
    (refusal : Bool) (a : Args) (rest : List Bytes) (m m' : Memory) (client : Client)
    (left : List Bytes)
    → client_nodes platform name file socket refusal a rest m ≡ (started client left, m')
    → IsBounded platform file client × (left ≡ rest)
unfolding client_nodes
client_nodes-IsBounded platform name file socket refusal a rest m m' client left h =
    elim (Option-cases (get_nodes platform file m).0) [
      | inl gone ↦ absurd (cc (rw (client_nodes, gone) at h))
      | inr (nodes, found) ↦ elim (Option-cases (get_socket socket 1 refusal)) [
        | inl closed ↦ absurd (cc (rw (client_nodes, found, closed) at h))
        | inr (fd, opened) ↦
            let (is, same) =
              started-injective (client_of name nodes a fd) client rest left
                (get_nodes platform file m).1 m' (rw (client_nodes, found, opened) at h) in
            let (has, reads, writes) = clamped_le a (length nodes) in
            (
              subst (IsBounded platform file) is (record {
                has_nodes = has;
                reads = reads;
                writes = writes;
                listed = get_nodes-addresses platform file nodes m found;
              }),
              sym same,
            )
      ]
    ]

-- A client of week 10 starts only with quorums of at most N and at least N nodes, which are those
-- that the lines of the file name, in their order; and where a number of arguments is required, so
-- many are left.
pub client_init-IsBounded :
    (platform : Platform) (file : Option (List ServerLine)) (socket : Option ℕ) (refusal : Bool)
    (args_req args_kind : ℕ) (name : Bytes) (argv : List Bytes) (m m' : Memory) (client : Client)
    (left : List Bytes)
    → client_init platform file socket refusal args_req args_kind name argv m
      ≡ ok (started client left, m')
    → IsBounded platform file client × ((args_req ≡ size_max) ⊎ (argv_size left ≡ args_req))
unfolding client_init parse_opt_args
client_init-IsBounded platform file socket refusal args_req args_kind name argv m m' client left h =
    let (got, m₁) = malloc m in
    elim (Option-cases
      (if args_kind == 0 then some (base_args, argv) else parse_loop args_kind argv base_args)) [
        | inl failed ↦ absurd (ground (arith, h, failed))
        | inr (p, parsed) ↦
            let checked : wrong_count args_req (argv_size p.1) ≡ false =
              ground (arith, h, parsed) in
            let run : client_nodes platform name file socket refusal p.0 p.1 m₁
                ≡ (started client left, m') =
              ground (arith, h, parsed, checked) in
            let (bounded, same) =
              client_nodes-IsBounded platform name file socket refusal p.0 p.1 m₁ m' client left
                run in
            (bounded, rw same (wrong_count_no args_req (argv_size p.1) checked))
      ]
