-- ===== src/Projet01/NodeList.antt =====
-- provided/grading/projet01/custom_util.c, node.c and node_list.c: the file of servers. A `FileLine` is one
-- conversion of "%15s%hd", with whether a newline follows it. The two arrays are pointers, and the strings
-- in the first are pointers as well; a string that only `free` would change is not followed further.
pub mod BadPort
pub mod Reads
use distributed_hash_table.Base.{
  ℕ, zero, suc, ◌+◌, ◌-◌, ◌%◌, ◌^◌, Bool, true, false, List, [], ◌∷◌, ◌++◌, Option, none, some,
  length, ltb, get_elem?, if◌then◌else◌, Memory, malloc, Run, ok, fault, null_pointer,
  out_of_bounds, no_end, Pointer, nil, wild, freed, live, deref, free, ◌>>=◌,
}
use distributed_hash_table.Error.{err_none}
use distributed_hash_table.CString.{Bytes}
use distributed_hash_table.Scan.{ℤ, pos, negsuc}
use distributed_hash_table.System.{Platform, SocketAddress, get_server_addr}
use distributed_hash_table.Projet02.NodeList.{node_list_new, node_list_add}

-- `port` is what `%hd` stores: the two bytes of an int16_t, as a number below 2 ^ 16.
pub record FileLine : Type 0 where
  pub ip : Bytes
  pub port : ℕ
  pub ended : Bool

-- The number that an int16_t holds.
unfoldable pub int16 : ℕ → ℤ
int16 n = if ltb n (2 ^ 15) then pos n else negsuc (2 ^ 16 - 1 - n)

-- The port behind the test `port <= 0 || 65535 < port`.
unfoldable pub legal_port : ℤ → Option ℕ
legal_port (pos zero) = none
legal_port (pos (suc k)) = if ltb 65535 (suc k) then none else some (suc k)
legal_port (negsuc k) = none

-- `*ips` and `*ports`.
abbrev pub Ips : Type 0
Ips = Pointer (List (Pointer Bytes))

abbrev pub Ports : Type 0
Ports = Pointer (List ℕ)

-- The element behind an index.
unfoldable pub element {ℓ} : {A : Type ℓ} → List A → ℕ → Run A
element l i = elim (get_elem? l i) [ none ↦ fault out_of_bounds | some x ↦ ok x ]

-- `if (**ips != NULL) free(**ips); free(*ips);`, for a pointer that is not NULL.
unfoldable pub delete_ips : Ips → Run Ips
delete_ips ips =
    deref ips >>= λ strings. element strings 0 >>= λ first. free first >>= λ _. free ips

-- `delete_parsed_data`.
unfoldable pub delete_parsed_data : Ips → Ports → Run (Ips × Ports)
delete_parsed_data nil ports = free ports >>= λ ports'. ok (nil, ports')
delete_parsed_data ips ports = delete_ips ips >>= λ ips'. free ports >>= λ ports'. ok (ips', ports')

-- The result -1 as a `size_t`.
abbrev pub minus_one : ℕ
minus_one = 2 ^ 64 - 1

-- The way out of `parse_server_file` on a bad port.
unfoldable pub bad_port : Ips → Ports → Memory → Run (ℕ × Ips × Ports × Memory)
bad_port ips ports m = free ips >>= λ ips₁. free ports >>= λ ports₁.
    delete_parsed_data ips₁ ports₁ >>= λ (ips₂, ports₂). ok (minus_one, ips₂, ports₂, m)

-- The elements that `realloc` copies.
unfoldable pub elements {ℓ} : {A : Type ℓ} → Pointer (List A) → Run (List A)
elements nil = ok []
elements p = deref p

-- The two arrays grow by one element; no allocation is tested.
unfoldable pub grow : Ips → Ports → Bytes → ℕ → Memory → Run (Ips × Ports × Memory)
grow ips ports ip port m = elements ips >>= λ strings. elements ports >>= λ numbers.
    let (got, m₁) = malloc m in
    let (copy, m₂) = malloc m₁ in
    let (room, m₃) = malloc m₂ in
    if got
    then (if copy
        then (if room
            then ok (live (strings ++ live ip ∷ []), live (numbers ++ port ∷ []), m₃)
            else fault null_pointer)
        else fault null_pointer)
    else fault null_pointer

-- The `while` loop, with `nbr_elements`. The array `ip` has 15 bytes, of which the NUL takes one; the inner
-- loop looks for a newline and does not stop at the end of the file.
unfoldable pub parse_lines :
    List FileLine → ℕ → Ips → Ports → Memory → Run (ℕ × Ips × Ports × Memory)
parse_lines [] n ips ports m = ok (n, ips, ports, m)
parse_lines (line ∷ lines) n ips ports m =
    let next : Run (ℕ × Ips × Ports × Memory) = elim (legal_port (int16 line.port)) [
      | none ↦ bad_port ips ports m
      | some port ↦ grow ips ports line.ip port m >>= λ (ips', ports', m').
          let rest = parse_lines lines (n + 1) ips' ports' m' in
          if line.ended then rest else fault no_end
    ] in
    if ltb (length line.ip) 15 then next else fault out_of_bounds

-- `parse_server_file`, called with two NULL pointers.
unfoldable pub parse_server_file : Option (List FileLine) → Memory → Run (ℕ × Ips × Ports × Memory)
parse_server_file none m = ok (minus_one, nil, nil, m)
parse_server_file (some lines) m = parse_lines lines 0 nil nil m

module _ (platform : Platform) where
  -- `node_init` and `node_list_add`: `none` where one of them fails.
  unfoldable pub add_node :
      Bytes → ℕ → List SocketAddress → Memory → Run (Option (List SocketAddress) × Memory)
  add_node ip port l m =
      let (place, e) = get_server_addr platform (some ip) port in
      elim place [
        | none ↦ ok (none, m)
        | some node ↦
            let (l', e', m') = node_list_add l node m in
            elim e' [ err_none ↦ ok (some l', m') | _ ↦ ok (none, m') ]
      ]

  -- One pass of the `for` loop, up to its way out.
  unfoldable pub add_server :
      Ips → Ports → ℕ → List SocketAddress → Memory → Run (Option (List SocketAddress) × Memory)
  add_server ips ports i l m = deref ips >>= λ strings. element strings i >>= λ string.
      deref string >>= λ ip.
      deref ports >>= λ numbers. element numbers i >>= λ port. add_node ip port l m

  -- The `for` loop, with the passes left, and what is behind it: the arrays are deleted; `none` where the
  -- list is freed and NULL returned.
  unfoldable pub add_servers :
      ℕ → ℕ → Ips → Ports → List SocketAddress → Memory → Run (Option (List SocketAddress) × Memory)
  add_servers zero i ips ports l m = delete_parsed_data ips ports >>= λ _. ok (some l, m)
  add_servers (suc n) i ips ports l m = add_server ips ports i l m >>= λ (found, m'). elim found [
    | none ↦ delete_parsed_data ips ports >>= λ _. ok (none, m')
    | some l' ↦ add_servers n (i + 1) ips ports l' m'
  ]

  -- `get_nodes`: the result is taken for a number of servers.
  unfoldable pub get_nodes :
      Option (List FileLine) → Memory → Run (Option (List SocketAddress) × Memory)
  get_nodes file m =
      let (list, m₁) = node_list_new m in
      elim list [
        | none ↦ ok (none, m₁)
        | some l ↦ parse_server_file file m₁ >>= λ (nbr_servers, ips, ports, m₂).
            add_servers nbr_servers 0 ips ports l m₂
      ]
