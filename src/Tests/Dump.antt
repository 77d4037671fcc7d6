-- ===== src/Tests/Dump.antt =====
-- A dump of a table with one pair.
use distributed_hash_table.Base.{◌+◌, ◌≤◌, ◌≡◌, refl, [], ◌∷◌, List, some, ok, map, All, arith}
use mathlib.Core.Path.{subst}
use distributed_hash_table.Error.{err_none}
use distributed_hash_table.CString.{Bytes, strdup, str_eq}
use distributed_hash_table.Hashtable.{
  Htable, bucket, empty_bucket, hash_function, construct_htable, add_htable_value,
  get_htable_content,
}
use distributed_hash_table.Hashtable.Table.{IsValid, view}
use distributed_hash_table.Hashtable.Update.{add_htable_value-done}
use distributed_hash_table.Hashtable.Content.{lookup, occurrences}
use distributed_hash_table.Network.{max_msg_size}
use distributed_hash_table.Server.{server_step}
use distributed_hash_table.DumpNode.{printed, read_dump}
use distributed_hash_table.DumpNode.Items.{Item, kv_of, encode}
use distributed_hash_table.DumpNode.Later.{IsSmall}
use distributed_hash_table.DumpNode.RoundTrip.{read_dump-server_step}
use distributed_hash_table.Tests.Table.{key_a, value_b, small_table, small_table-IsValid}

abbrev pub full_table : Htable
full_table = record {
  buckets = some (
      empty_bucket
      ∷ empty_bucket
      ∷ bucket (some key_a) (some value_b) empty_bucket
      ∷ empty_bucket
      ∷ []);
  size = 4;
}

full_table-added :
    add_htable_value small_table (some key_a) (some value_b) [] ≡ ok (full_table, err_none, [])
unfolding hash_function construct_htable add_htable_value strdup str_eq
full_table-added = refl

pub full_table-IsValid : IsValid full_table
full_table-IsValid =
    let (t, run, valid, reads) =
      add_htable_value-done small_table key_a value_b small_table-IsValid in
    let same : t ≡ full_table = cc full_table-added in subst IsValid same valid

abbrev pub items : List Item
items = record { key = key_a; value = value_b } ∷ []

pub full_table-content : get_htable_content full_table [] ≡ ok (some (map kv_of items), [])
unfolding get_htable_content strdup
full_table-content = refl

items-IsSmall : All (IsSmall max_msg_size) items
unfolding encode
items-IsSmall = (((omega arith, (λ e. cc), omega arith), omega arith), tt)

read_dump_example :
    (msgs : List Bytes) × (server_step full_table (some (0 ∷ [])) [] ≡ ok (full_table, msgs, []))
    × (read_dump (max_msg_size + 1) (map some msgs) [] ≡ ok (printed (map kv_of items), []))
    × ((q : Bytes)
        → (lookup q (map kv_of items) ≡ view full_table q) × (occurrences q (map kv_of items) ≤ 1))
read_dump_example =
    read_dump-server_step full_table items full_table-IsValid full_table-content items-IsSmall
      (omega arith)
