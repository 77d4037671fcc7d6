-- ===== src/Error.antt =====
-- done/error.h and done/error.c: the error codes and their messages.
use distributed_hash_table.Base.{ℕ, List, [], ◌∷◌}
use Prim.Native.String.{String}

-- The codes of `error_code`; `err_last` only counts them.
pub data ErrorCode : Type 0 where
  err_none err_nomem err_io err_bad_parameter err_network err_not_found err_last : ErrorCode

-- The value that C gives the enumerator.
pub code_of : ErrorCode → ℕ
code_of err_none = 0
code_of err_nomem = 1
code_of err_io = 2
code_of err_bad_parameter = 3
code_of err_network = 4
code_of err_not_found = 5
code_of err_last = 6

abbrev pub err_messages : List String
err_messages =
    "" ∷ "Not enough memory" ∷ "IO error" ∷ "Bad parameter" ∷ "Network issue" ∷ "Not found"
    ∷ "no error (shall not be displayed)" ∷ []
