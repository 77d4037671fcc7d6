-- ===== src/Tests/Table.antt =====
-- The hash table at small inputs.
use distributed_hash_table.Base.{
  ◌≡◌, ◌≤◌, refl, [], ◌∷◌, List, some, ok, Returns, All, arith, ◌>>=◌, true, false,
}
use distributed_hash_table.Error.{err_nomem, err_bad_parameter}
use distributed_hash_table.CString.{Bytes, strdup, str_eq}
use distributed_hash_table.Hashtable.Construct.{construct_htable_lem}
use distributed_hash_table.Hashtable.{
  KvPair, Htable, hash_function, construct_htable, delete_htable, add_htable_value,
  get_htable_value, get_htable_content,
}
use distributed_hash_table.Hashtable.Table.{IsValid, view, Writes, add_htable_value-Writes}
use distributed_hash_table.Hashtable.Content.{IsFilled, lookup, occurrences, get_htable_content_lem}

abbrev pub key_a : Bytes
key_a = b'a' ∷ []

abbrev pub value_b : Bytes
value_b = b'b' ∷ []

abbrev pub small_table : Htable
small_table = (construct_htable 4 []).0

pub small_table-IsValid : IsValid small_table
small_table-IsValid = (construct_htable_lem 4 [] (omega arith) refl).0

add_htable_value_example :
    Returns
      (add_htable_value small_table (some key_a) (some value_b) [])
      (Writes small_table key_a value_b [])
add_htable_value_example = add_htable_value-Writes small_table key_a value_b [] small_table-IsValid

get_htable_content_example :
    (pairs : List KvPair) × (get_htable_content small_table [] ≡ ok (some pairs, []))
    × All IsFilled pairs
    × ((q : Bytes) → (lookup q pairs ≡ view small_table q) × (occurrences q pairs ≤ 1))
get_htable_content_example = get_htable_content_lem small_table small_table-IsValid

hash_runs : hash_function (some key_a) 256 ≡ 66
unfolding hash_function
hash_runs = refl

-- The definitions that the runs below unfold.
program : Unit {0}
unfolding hash_function construct_htable delete_htable add_htable_value get_htable_value strdup
    str_eq
program = tt

-- The tests of done/week04.c: what was added is read back; a table without buckets refuses.
add_get :
    add_htable_value small_table (some key_a) (some value_b) []
      >>= (λ r. get_htable_value r.0 (some key_a) [])
    ≡ ok (some value_b, [])
unfolding program
add_get = refl

-- The second allocation fails: the key is still absent.
add_no_memory :
    add_htable_value small_table (some key_a) (some value_b) (true ∷ false ∷ [])
    ≡ ok (small_table, err_nomem, [])
unfolding program
add_no_memory = refl

add-deleted :
    add_htable_value (delete_htable small_table) (some key_a) (some value_b) []
    ≡ ok (delete_htable small_table, err_bad_parameter, [])
unfolding program
add-deleted = refl
