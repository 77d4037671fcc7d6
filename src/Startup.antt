-- ===== src/Startup.antt =====
-- done/client.c: how every client program starts and ends.
--
-- The file of servers is opened twice, by `client_init` to count its lines and by `get_nodes` to read
-- it. `servers` is what the first finds, the bytes of the file or `none`, and `file` what the second
-- finds, as in NodeList. A program is started with its name, and `argv` holds the arguments behind it.
pub mod Admits
use distributed_hash_table.Base.{
  ℕ, zero, suc, ◌+◌, ◌-◌, ◌^◌, Bool, true, false, List, [], ◌∷◌, Option, none, some, ltb, ◌==◌,
  if◌then◌else◌, Memory, malloc, Run, ok, fault, null_pointer, ◌>>=◌, not, length,
}
use distributed_hash_table.Error.{ErrorCode, err_none, err_io, err_bad_parameter, err_network}
use distributed_hash_table.CString.{Bytes, argv_size}
use distributed_hash_table.Args.{Args, parse_opt_args}
use distributed_hash_table.Hashtable.{size_max}
use distributed_hash_table.System.{Platform}
use distributed_hash_table.Node.{Node}
use distributed_hash_table.NodeList.{ServerLine, Qsort, node_list_new, node_list_free}
use distributed_hash_table.Ring.{ring_alloc, ring_free, ring_init}
use distributed_hash_table.Network.{Client}

-- The lines counted: `c` is a `char`, so that the byte 255 equals EOF and ends the loop.
unfoldable pub count_lines : Bytes → ℕ
count_lines [] = 0
count_lines (c ∷ s) =
    let rest = count_lines s in if c == 255 then 0 else if c == 10 then suc rest else rest

-- What `client_init` leaves: the code of a failure, or `client_t` and the arguments left. The
-- arguments of the client are NULL where no option is supported.
pub data Started : Type 0 where
  refused : ErrorCode → Started
  started : Bytes → List Node → Option Args → List Bytes → Started

-- Whether the number of arguments is checked, and is wrong.
unfoldable pub wrong_count : ℕ → ℕ → Bool
wrong_count args_req given =
    if args_req == size_max then false else if given == args_req then false else true

-- Whether the program was given too few arguments.
unfoldable pub too_few : ℕ → ℕ → Bool
too_few args_req given = if args_req == size_max then false else ltb given args_req

-- The arguments parsed, where options are supported; `none` for the failure.
unfoldable pub client_args :
    ℕ → ℕ → List Bytes → Memory → Option (Option Args × List Bytes) × Memory
client_args nb_servers args_kind argv m =
    if args_kind == 0
    then (some (none, argv), m)
    else let (parsed, m') = parse_opt_args args_kind argv m in
      elim parsed [
        | none ↦ (none, m')
        | some (a, rest) ↦ (if ltb nb_servers a.n then none else some (some a, rest), m')
      ]

-- `client_end`, with the arguments freed: what becomes of the nodes.
unfoldable pub client_end : List Node → Run (List Node)
client_end nodes = ring_free nodes

module _ (platform : Platform) (qsort : Qsort) where
  -- From `ring_alloc` on.
  unfoldable pub client_nodes :
      Bytes
      → Option (List (Option ServerLine))
      → Option Args
      → List Bytes
      → Memory
      → Run (Started × Memory)
  client_nodes name file args rest m =
      let (ring, m₁) = ring_alloc m in
      elim ring [
        | none ↦ ok (refused err_network, m₁)
        | some nodes ↦ ring_init platform qsort nodes file m₁ >>= λ (nodes', e, m₂). elim e [
          | err_none ↦ ok (started name nodes' args rest, m₂)
          | _ ↦ client_end nodes' >>= λ _. ok (refused err_network, m₂)
        ]
      ]

  -- `client_init`: `args_req` and `args_kind` of its argument, with `argc - 1` the length of `argv`.
  unfoldable pub client_init :
      Option Bytes
      → Option (List (Option ServerLine))
      → ℕ
      → ℕ
      → Bytes
      → List Bytes
      → Memory
      → Run (Started × Memory)
  client_init servers file args_req args_kind name argv m =
      if too_few args_req (length argv) then ok (refused err_bad_parameter, m) else elim servers [
        | none ↦ ok (refused err_io, m)
        | some content ↦
            let (parsed, m₁) = client_args (count_lines content) args_kind argv m in
            elim parsed [
              | none ↦ ok (refused err_bad_parameter, m₁)
              | some (args, rest) ↦
                  if wrong_count args_req (argv_size rest)
                  then ok (refused err_bad_parameter, m₁)
                  else client_nodes name file args rest m₁
            ]
      ]
