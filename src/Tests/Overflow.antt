-- ===== src/Tests/Overflow.antt =====
-- The 128th reply with one text.
use distributed_hash_table.Base.{◌+◌, ◌-◌, ◌^◌, ◌≡◌, refl, [], ◌∷◌, some, ok, arith}
use mathlib.Core.Path.{subst}
use distributed_hash_table.Error.{err_none}
use distributed_hash_table.CString.{strdup, str_eq}
use distributed_hash_table.Hashtable.{
  Htable, bucket, empty_bucket, hash_function, construct_htable, add_htable_value,
}
use distributed_hash_table.Hashtable.Table.{IsValid, view}
use distributed_hash_table.Hashtable.Update.{add_htable_value-done}
use distributed_hash_table.Network.{increment_and_get}
use distributed_hash_table.Network.Overflow.{increment_and_get-overflow}
use distributed_hash_table.Tests.Table.{key_a, small_table, small_table-IsValid}

abbrev counted : Htable
counted = record {
  buckets = some (
      empty_bucket
      ∷ empty_bucket
      ∷ bucket (some key_a) (some (127 ∷ [])) empty_bucket
      ∷ empty_bucket
      ∷ []);
  size = 4;
}

counted-added :
    add_htable_value small_table (some key_a) (some (127 ∷ [])) [] ≡ ok (counted, err_none, [])
unfolding hash_function construct_htable add_htable_value strdup str_eq
counted-added = refl

counted-IsValid : IsValid counted
counted-IsValid =
    let (t, run, valid, reads) =
      add_htable_value-done small_table key_a (127 ∷ []) small_table-IsValid in
    let same : t ≡ counted = cc counted-added in subst IsValid same valid

counted-view : view counted key_a ≡ some (127 ∷ [])
counted-view =
    let (t, run, valid, reads) =
      add_htable_value-done small_table key_a (127 ∷ []) small_table-IsValid in
    let same : t ≡ counted = cc counted-added in
    subst (λ u. view u key_a ≡ some (127 ∷ [])) same (unfold str_eq in reads key_a)

overflow_example :
    (t : Htable) × (increment_and_get counted key_a [] ≡ ok (2 ^ 32 - 256 + 127 + 1, t, []))
    × IsValid t
    × (view t key_a ≡ some ((127 + 1) ∷ []))
overflow_example =
    increment_and_get-overflow counted key_a 127 counted-IsValid counted-view (omega arith)
      (omega arith)
