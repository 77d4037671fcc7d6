-- ===== src/Programs/Main.antt =====
-- `main` of the five client programs: `client_init`, and what Programs has behind it. Where too few
-- arguments are left `argv[i]` is NULL, which `network_get` and `network_put` refuse.
use distributed_hash_table.Base.{
  ℕ, ◌+◌, List, [], ◌∷◌, Option, none, some, Memory, Run, ok, fault, null_pointer, ◌>>=◌,
}
use distributed_hash_table.CString.{Bytes}
use distributed_hash_table.System.{Platform}
use distributed_hash_table.Args.{Args, total_servers, get_needed, put_needed}
use distributed_hash_table.Node.{Node}
use distributed_hash_table.Hashtable.{size_max}
use distributed_hash_table.NodeList.{ServerLine, Qsort}
use distributed_hash_table.Startup.{started, refused, client_init}
use distributed_hash_table.Network.{Client}
use distributed_hash_table.Programs.{
  Call, next_call, Exit, fail_text, fetch, client_get, client_put, client_cat, client_find,
  client_substr,
}

-- The client that `client_init` leaves.
abbrev pub client_of : Bytes → List Node → Args → Client
client_of name nodes args = record { name = name; nodes = nodes; args = args }

abbrev pub failed : ℕ → Exit
failed status = record { output = fail_text; status = status }

module _ (platform : Platform) (qsort : Qsort) (fuel : ℕ) (servers : Option Bytes)
    (file : Option (List (Option ServerLine))) (name : Bytes) where
  -- The call of `client_init`, and what is behind it.
  unfoldable pub run_client :
      ℕ → ℕ → List Bytes → (Client → List Bytes → Memory → Run Exit) → Memory → Run Exit
  run_client args_req args_kind argv behind m =
      client_init platform qsort servers file args_req args_kind name argv m >>= λ (s, m'). elim s [
        | refused code ↦ ok (failed 1)
        | started name' nodes args rest ↦ elim args [
          | none ↦ fault null_pointer
          | some a ↦ behind (client_of name' nodes a) rest m'
        ]
      ]

  -- The arguments that are left, for pps-client-get.c.
  unfoldable pub get_behind : Call → Client → List Bytes → Memory → Run Exit
  get_behind call client [] m = ok (failed 0)
  get_behind call client (key ∷ rest) m = client_get platform fuel client key call m

  unfoldable pub get_main : List Bytes → Call → Memory → Run Exit
  get_main argv call m = run_client 1 (total_servers + get_needed) argv (get_behind call) m

  -- pps-client-put.c.
  unfoldable pub put_behind : Call → Client → List Bytes → Memory → Run Exit
  put_behind call client [] m = ok (failed 0)
  put_behind call client (key ∷ []) m = ok (failed 0)
  put_behind call client (key ∷ value ∷ rest) m = client_put platform fuel client key value call m

  unfoldable pub put_main : List Bytes → Call → Memory → Run Exit
  put_main argv call m = run_client 2 (total_servers + put_needed) argv (put_behind call) m

  -- pps-client-cat.c, for any number of arguments.
  unfoldable pub cat_main : List Bytes → List Call → Memory → Run Exit
  cat_main argv calls m =
      run_client size_max (total_servers + get_needed + put_needed) argv
        (λ client rest m'. client_cat platform fuel client rest calls m') m

  -- pps-client-find.c.
  unfoldable pub find_behind : List Call → Client → List Bytes → Memory → Run Exit
  find_behind calls client [] m = ok (failed 0)
  find_behind calls client (key ∷ []) m =
      fetch platform fuel client key (next_call calls).0 m >>= λ _. ok (failed 0)
  find_behind calls client (key ∷ sub_key ∷ rest) m =
      client_find platform fuel client key sub_key calls m

  unfoldable pub find_main : List Bytes → List Call → Memory → Run Exit
  find_main argv calls m =
      run_client 2 (total_servers + get_needed + put_needed) argv (find_behind calls) m

  -- pps-client-substr.c, with what the array `new_value` holds at first. `client_init` lets no fewer
  -- arguments through; with fewer the run is left a fault.
  unfoldable pub substr_behind : Bytes → List Call → Client → List Bytes → Memory → Run Exit
  substr_behind array calls client (key ∷ position ∷ len ∷ target ∷ rest) m =
      client_substr platform fuel client array key position len target calls m
  substr_behind array calls client argv m = fault null_pointer

  unfoldable pub substr_main : Bytes → List Bytes → List Call → Memory → Run Exit
  substr_main array argv calls m =
      run_client 4 (total_servers + get_needed + put_needed) argv (substr_behind array calls) m
