-- ===== src/Programs.antt =====
-- done/pps-client-get.c, pps-client-put.c, pps-client-cat.c, pps-client-find.c and pps-client-substr.c,
-- behind `client_init`: the client is the one it leaves, and `argv` holds the arguments left. A program
-- gives what it prints and what it returns; `client_end` and the frees at the end are left out.
pub mod Cat
pub mod Find
pub mod Substr
pub mod Main
pub mod PutGet
use distributed_hash_table.Base.{
  ℕ, zero, suc, ◌+◌, ◌-◌, ◌*◌, ◌/◌, ◌%◌, ◌^◌, Bool, true, false, List, [], ◌∷◌, ◌++◌, Option, none,
  some, ltb, ◌==◌, if◌then◌else◌, Memory, Run, ok, fault, null_pointer, out_of_bounds, ◌>>=◌, take,
  drop, length,
}
use distributed_hash_table.Error.{ErrorCode, err_none}
use distributed_hash_table.CString.{Bytes, CharPointer, text_at, find_nul}
use distributed_hash_table.Scan.{ℤ, pos, negsuc, scan_int, option_map}
use distributed_hash_table.Hashtable.{word}
use distributed_hash_table.System.{Platform}
use distributed_hash_table.Node.{Node, decimal_digits}
use distributed_hash_table.Network.{Client, max_msg_size, network_get, network_put}

-- What the network does during one call of `network_get` or `network_put`: the results of
-- `get_socket`, the second for the call that is evaluated again, and of `recv`.
pub record Call : Type 0 where
  pub first : Option ℕ
  pub second : Option ℕ
  pub replies : List (Option Bytes)

-- Behind the calls that are given, no socket is created.
abbrev pub no_call : Call
no_call = record { first = none; second = none; replies = [] }

-- The first of the calls, and the later ones.
abbrev pub next_call : List Call → Call × List Call
next_call [] = (no_call, [])
next_call (x ∷ xs) = (x, xs)

-- What is printed, and what `main` returns.
pub record Exit : Type 0 where
  pub output : Bytes
  pub status : ℕ

abbrev pub fail_text : Bytes
fail_text = b'F' ∷ b'A' ∷ b'I' ∷ b'L' ∷ 10 ∷ []

abbrev pub ok_text : Bytes
ok_text = b'O' ∷ b'K' ∷ 10 ∷ []

-- "OK %s\n".
abbrev pub ok_value : Bytes → Bytes
ok_value v = b'O' ∷ b'K' ∷ 32 ∷ (v ++ 10 ∷ [])

-- `network_get(…) != ERR_NONE || val == NULL` fails; otherwise the value.
abbrev pub value_of : ErrorCode → CharPointer → CharPointer
value_of err_none value = value
value_of _ value = none

-- "OK" or "FAIL" by the code of `network_put`.
abbrev pub put_text : ErrorCode → Bytes
put_text err_none = ok_text
put_text _ = fail_text

-- `strstr`: the offset of the first occurrence.
abbrev pub starts_with : Bytes → Bytes → Bool
starts_with [] s = true
starts_with (c ∷ p) [] = false
starts_with (c ∷ p) (d ∷ s) = if c == d then starts_with p s else false

unfoldable pub strstr : Bytes → Bytes → Option ℕ
strstr [] sub = if starts_with sub [] then some 0 else none
strstr (c ∷ s) sub =
    let later = option_map suc (strstr s sub) in if starts_with sub (c ∷ s) then some 0 else later

-- "%zd" of the index, -1 where there is none.
abbrev pub index_text : Option ℕ → Bytes
index_text none = b'-' ∷ b'1' ∷ []
index_text (some i) = decimal_digits 20 i

-- `position` and `length` of the substring, as `size_t`.
unfoldable pub start_of : ℕ → ℤ → ℕ
start_of val_len (pos p) = p
start_of val_len (negsuc p) = word (val_len + (2 ^ 64 - suc p))

-- The text at the start of the array `new_value` after `strncpy` of `length` bytes that hold no NUL:
-- behind them stands what the array held before.
unfoldable pub copied_text : Bytes → Bytes → Run Bytes
copied_text copied array =
    let content = copied ++ drop (length copied) array in
    elim (find_nul content) [ some _ ↦ ok (text_at content) | none ↦ fault out_of_bounds ]

-- `strncpy(new_value, &val[position], length)`. A position behind the NUL of `val` is out of bounds.
unfoldable pub cut_out : Bytes → Bytes → ℕ → ℕ → Run Bytes
cut_out array val position len =
    if ltb (length val) position
    then fault out_of_bounds
    else copied_text (take len (drop position val)) array

module _ (platform : Platform) (fuel : ℕ) (client : Client) where
  -- A get with an empty pointer: the value, or none where the program takes it for a failure.
  unfoldable pub fetch : Bytes → Call → Memory → Run (CharPointer × Memory)
  fetch key call m =
      network_get platform fuel client (some key) none call.first call.replies m
      >>= λ (e, value, _, m'). ok (value_of e value, m')

  -- A put: the code.
  unfoldable pub store : Bytes → Bytes → Call → Memory → Run (ErrorCode × Memory)
  store key value call m =
      network_put platform fuel client (some key) (some value) call.first call.second call.replies m
      >>= λ (e, _, m'). ok (e, m')

  -- pps-client-get.c, with its one argument.
  unfoldable pub client_get : Bytes → Call → Memory → Run Exit
  client_get key call m = fetch key call m >>= λ (value, _). elim value [
    | none ↦ ok (record { output = fail_text; status = 0 })
    | some v ↦ ok (record { output = ok_value v; status = 0 })
  ]

  -- pps-client-put.c, with its two arguments.
  unfoldable pub client_put : Bytes → Bytes → Call → Memory → Run Exit
  client_put key value call m =
      store key value call m >>= λ (e, _). ok (record { output = put_text e; status = 0 })

  -- The `while` loop of pps-client-cat.c: the text gathered, the arguments and the calls left.
  unfoldable pub cat_loop :
      List Bytes → Bytes → List Call → Memory → Run (Bytes × List Bytes × List Call × Memory)
  cat_loop [] text calls m = ok (text, [], calls, m)
  cat_loop (key ∷ []) text calls m = ok (text, key ∷ [], calls, m)
  cat_loop (key ∷ second ∷ argv) text calls m =
      let (call, calls') = next_call calls in
      fetch key call m >>= λ (value, m'). elim value [
        | none ↦ ok ([], key ∷ second ∷ argv, calls', m')
        | some v ↦ cat_loop (second ∷ argv) (text ++ take (max_msg_size - length text) v) calls' m'
      ]

  -- The put of what was gathered under the first argument left.
  unfoldable pub cat_put : Bytes → List Bytes → List Call → Memory → Run Exit
  cat_put [] argv calls m = ok (record { output = fail_text; status = 0 })
  cat_put (c ∷ text) [] calls m = fault null_pointer
  cat_put (c ∷ text) ([] ∷ argv) calls m = ok (record { output = fail_text; status = 0 })
  cat_put (c ∷ text) ((d ∷ key) ∷ argv) calls m =
      store (d ∷ key) (c ∷ text) (next_call calls).0 m >>= λ (e, _).
      ok (record { output = put_text e; status = 0 })

  -- pps-client-cat.c.
  unfoldable pub client_cat : List Bytes → List Call → Memory → Run Exit
  client_cat argv calls m =
      cat_loop argv [] calls m >>= λ (text, left, calls', m'). cat_put text left calls' m'

  -- pps-client-find.c, with its two arguments.
  unfoldable pub client_find : Bytes → Bytes → List Call → Memory → Run Exit
  client_find key sub_key calls m =
      let (call, calls') = next_call calls in
      fetch key call m >>= λ (val, m₁). elim val [
        | none ↦ ok (record { output = fail_text; status = 0 })
        | some v ↦ fetch sub_key (next_call calls').0 m₁ >>= λ (sub_val, m₂). elim sub_val [
          | none ↦ ok (record { output = fail_text; status = 0 })
          | some w ↦ ok (record { output = ok_value (index_text (strstr v w)); status = 0 })
        ]
      ]

  -- pps-client-substr.c behind its tests, with the value found.
  unfoldable pub put_part : Bytes → Bytes → Bytes → ℕ → ℕ → Call → Memory → Run Exit
  put_part array target val position len call m =
      let put = cut_out array val position len >>= λ text.
      store target text call m >>= λ (e, _). ok (record { output = put_text e; status = 0 }) in
      if ltb (length val) (word (position + len))
      then ok (record { output = fail_text; status = 0 })
      else put

  -- pps-client-substr.c, with its four arguments and what the array `new_value` holds at first.
  unfoldable pub client_substr :
      Bytes → Bytes → Bytes → Bytes → Bytes → List Call → Memory → Run Exit
  client_substr array key position len target calls m =
      let (call, calls') = next_call calls in
      elim (scan_int position) [
        | none ↦ ok (record { output = fail_text; status = 1 })
        | some p ↦ elim (scan_int len) [
          | none ↦ ok (record { output = fail_text; status = 1 })
          | some (negsuc n) ↦ ok (record { output = fail_text; status = 1 })
          | some (pos n) ↦ fetch key call m >>= λ (value, m'). elim value [
            | none ↦ ok (record { output = fail_text; status = 1 })
            | some val ↦
                put_part array target val (start_of (length val) p) n (next_call calls').0 m'
          ]
        ]
      ]
