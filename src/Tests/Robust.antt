-- ===== src/Tests/Robust.antt =====
-- Datagrams that no client sends, and a dump of a pair that is too large.
use distributed_hash_table.Base.{
  ℕ, ◌≡◌, [], ◌∷◌, Returns, true, false, some, fault, out_of_bounds, arith, replicate, zero, suc,
  ◌++◌, inl, length-replicate,
}
use distributed_hash_table.CString.{Bytes, IsText}
use distributed_hash_table.Hashtable.{construct_htable, htable_size}
use distributed_hash_table.Server.{server_step, serve}
use distributed_hash_table.Server.Answers.{Answered, server_step-Answered}
use distributed_hash_table.Server.DumpOverflow.{serve_overflow}
use distributed_hash_table.Server.Trace.{put, IsLegal}
use distributed_hash_table.Tests.Table.{key_a, small_table, small_table-IsValid}

-- A key, a value, and more bytes; the second allocation fails.
server_step-Answered_example :
    Returns
      (server_step small_table (some (b'a' ∷ 0 ∷ b'b' ∷ 0 ∷ b'c' ∷ [])) (true ∷ false ∷ []))
      Answered
server_step-Answered_example =
    server_step-Answered small_table (b'a' ∷ 0 ∷ b'b' ∷ 0 ∷ b'c' ∷ []) (true ∷ false ∷ [])
      small_table-IsValid (λ e. cc)

-- A key of one byte and a value of 65505.
abbrev large_value : Bytes
large_value = replicate 65505 b'b'

large-IsText : (n : ℕ) → IsText (replicate n b'b')
large-IsText zero = tt
large-IsText (suc n) = (omega arith, large-IsText n)

large-IsLegal : IsLegal (put key_a large_value)
large-IsLegal = (
  (omega arith, tt),
  large-IsText 65505,
  inl (λ e. cc),
  omega (arith, length-replicate {A = ℕ} 65505 b'b'),
)

overflow_dump_example :
    serve
      (construct_htable htable_size []).0
      (some (key_a ++ 0 ∷ large_value) ∷ some (0 ∷ []) ∷ [])
      []
    ≡ fault out_of_bounds
overflow_dump_example =
    serve_overflow key_a large_value large-IsLegal
      (omega (arith, length-replicate {A = ℕ} 65505 b'b'))
