-- ===== src/Projet02/Args.antt =====
-- provided/grading/projet02/args.c: the options, without any test of their values.
use distributed_hash_table.Base.{
  ℕ, ◌-◌, ◌%◌, ◌^◌, List, [], ◌∷◌, Option, none, some, ◌==◌, if◌then◌else◌, Memory, malloc, Run, ok,
  fault, null_pointer,
}
use distributed_hash_table.CString.{Bytes}
use distributed_hash_table.Scan.{pos, negsuc, scan_int}
use distributed_hash_table.Args.{Args, base_args, field_of, assign, break_at}

-- `sscanf` with "%lu", of 64 bits: a sign is read, and a negative number wraps around.
unfoldable pub scan_unsigned : Bytes → Option ℕ
scan_unsigned arg = elim (scan_int arg) [
  | some (pos k) ↦ some (k % 2 ^ 64)
  | some (negsuc k) ↦ some (2 ^ 64 - 1 - k % 2 ^ 64)
  | none ↦ none
]

-- `go_fwd_and_parse_number`, from the option on: the number and the arguments behind it, or `none` for
-- ERR_BAD_PARAMETER.
unfoldable pub go_fwd_and_parse_number : List Bytes → Option (ℕ × List Bytes)
go_fwd_and_parse_number [] = none
go_fwd_and_parse_number (number ∷ rest) = elim (scan_unsigned number) [
  | none ↦ none
  | some k ↦ some (k, rest)
]

-- The `while` loop; `none` where the function returns NULL.
unfoldable pub parse_loop : ℕ → List Bytes → Args → Option (Args × List Bytes)
unfolding field_of assign break_at
parse_loop supported [] a = some (a, [])
parse_loop supported (arg ∷ []) a = elim (field_of supported arg) [
  | none ↦ some (a, break_at arg [])
  | some f ↦ elim (go_fwd_and_parse_number []) [
    | none ↦ none
    | some (k, rest) ↦ some (assign f k a, rest)
  ]
]
parse_loop supported (arg ∷ number ∷ rest) a = elim (field_of supported arg) [
  | none ↦ some (a, break_at arg (number ∷ rest))
  | some f ↦ elim (go_fwd_and_parse_number (number ∷ rest)) [
    | none ↦ none
    | some (k, _) ↦ parse_loop supported rest (assign f k a)
  ]
]

-- `parse_opt_args`: the result of malloc is not tested.
unfoldable pub parse_opt_args : ℕ → List Bytes → Memory → Run (Option (Args × List Bytes) × Memory)
parse_opt_args supported argv m =
    let (got, m') = malloc m in
    let parsed =
      if supported == 0 then some (base_args, argv) else parse_loop supported argv base_args in
    if got then ok (parsed, m') else fault null_pointer
