-- ===== src/Args.antt =====
-- done/args.h and done/args.c: the options -n, -r and -w. The vector of arguments is the list of its
-- strings before the NULL, and advancing the pointer drops the first.
pub mod Bounds
use distributed_hash_table.Base.{
  ℕ, zero, suc, ◌+◌, ◌/◌, ◌%◌, ◌^◌, Bool, true, false, List, [], ◌∷◌, Option, none, some, ltb, ◌==◌,
  if◌then◌else◌, ◌&&◌, Memory, malloc, not,
}
use Prim.Native.Nat.{min, max}
use distributed_hash_table.CString.{Bytes, str_eq}
use distributed_hash_table.Scan.{ℤ, pos, negsuc, scan_int}

-- `args_t`.
pub record Args : Type 0 where
  pub n : ℕ
  pub r : ℕ
  pub w : ℕ

-- `args_kind`.
abbrev pub total_servers : ℕ
total_servers = 1

abbrev pub get_needed : ℕ
get_needed = 2

abbrev pub put_needed : ℕ
put_needed = 4

-- `BASE_N`, `BASE_R` and `BASE_W`.
abbrev pub base_args : Args
base_args = record { n = 3; r = 2; w = 2 }

-- Which values the user has set: `N_mod`, `R_mod` and `W_mod`.
pub record Modified : Type 0 where
  pub n_mod : Bool
  pub r_mod : Bool
  pub w_mod : Bool

abbrev pub none_modified : Modified
none_modified = record { n_mod = false; r_mod = false; w_mod = false }

-- `supported_args & flag`, for a flag of one bit.
abbrev pub supports : ℕ → ℕ → Bool
supports supported flag = (supported / flag) % 2 == 1

-- The value that `num` points to.
pub data Field : Type 0 where
  field_n field_r field_w : Field

-- The tests of the `while` loop on the first argument; `none` for the branch that breaks.
unfoldable pub field_of : ℕ → Bytes → Option Field
field_of supported arg =
    if str_eq arg (b'-' ∷ b'n' ∷ []) && supports supported total_servers
    then some field_n
    else if str_eq arg (b'-' ∷ b'r' ∷ []) && supports supported get_needed
    then some field_r
    else if str_eq arg (b'-' ∷ b'w' ∷ []) && supports supported put_needed
    then some field_w
    else none

-- `go_fwd_and_parse_number`, from the argument behind the option: the number, or `none` for
-- ERR_BAD_PARAMETER.
pub parse_positive : Bytes → Option ℕ
parse_positive arg = elim (scan_int arg) [
  | some (pos (suc k)) ↦ some (suc k)
  | some (pos zero) ↦ none
  | some (negsuc k) ↦ none
  | none ↦ none
]

-- `*num = …`.
unfoldable pub assign : Field → ℕ → Args → Args
assign field_n k a = record a { n = k }
assign field_r k a = record a { r = k }
assign field_w k a = record a { w = k }

-- `*mod`.
modified : Field → Modified → Bool
modified field_n m = m.n_mod
modified field_r m = m.r_mod
modified field_w m = m.w_mod

-- `++(*mod)`.
mark : Field → Modified → Modified
mark field_n m = record m { n_mod = true }
mark field_r m = record m { r_mod = true }
mark field_w m = record m { w_mod = true }

-- The break: "--" is skipped.
unfoldable pub break_at : Bytes → List Bytes → List Bytes
break_at arg rest = if str_eq arg (b'-' ∷ b'-' ∷ []) then rest else arg ∷ rest

-- The `while` loop; `none` where the function returns NULL.
parse_loop : ℕ → List Bytes → Args → Modified → Option (Args × Modified × List Bytes)
unfolding field_of parse_positive assign modified mark break_at
parse_loop supported [] a m = some (a, m, [])
parse_loop supported (arg ∷ []) a m = elim (field_of supported arg) [
  | none ↦ some (a, m, break_at arg [])
  | some f ↦ none
]
parse_loop supported (arg ∷ number ∷ rest) a m = elim (field_of supported arg) [
  | none ↦ some (a, m, break_at arg (number ∷ rest))
  | some f ↦ elim (parse_positive number) [
    | none ↦ none
    | some k ↦ elim (modified f m) [
      | true ↦ none
      | false ↦ parse_loop supported rest (assign f k a) (mark f m)
    ]
  ]
]

-- The part under "Handle incoherences".
pub reconcile : Args → Modified → Option Args
reconcile a m =
    if m.n_mod
    then (if m.w_mod && ltb a.n a.w
        then none
        else if m.r_mod && ltb a.n a.r
        then none
        else some (record { n = a.n; r = min a.n a.r; w = min a.n a.w }))
    else if m.w_mod && m.r_mod
    then some (record a { n = max a.n (max a.r a.w) })
    else if m.w_mod
    then some (record a { n = max a.n a.w })
    else if m.r_mod
    then some (record a { n = max a.n a.r })
    else some a

-- What the loop leaves, or the default values where no option is supported.
parse_all : ℕ → List Bytes → Option (Args × Modified × List Bytes)
unfolding parse_loop
parse_all supported argv =
    if supported == 0
    then some (base_args, none_modified, argv)
    else parse_loop supported argv base_args none_modified

-- What the function gives after the loop, with the arguments left.
reconciled : Option (Args × Modified × List Bytes) → Option (Args × List Bytes)
unfolding reconcile
reconciled none = none
reconciled (some (a, m, rest)) = elim (reconcile a m) [ none ↦ none | some b ↦ some (b, rest) ]

-- `parse_opt_args`; `none` stands for NULL.
unfoldable pub parse_opt_args : ℕ → List Bytes → Memory → Option (Args × List Bytes) × Memory
unfolding parse_all reconciled
parse_opt_args supported argv m =
    let (got, m') = malloc m in (if got then reconciled (parse_all supported argv) else none, m')
