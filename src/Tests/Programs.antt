-- ===== src/Tests/Programs.antt =====
-- Runs of the client programs over the ring of three servers.
use distributed_hash_table.Base.{
  ◌≡◌, ◌≢◌, refl, [], ◌∷◌, List, Option, some, none, ok, fault, out_of_bounds, arith, ◌>>=◌, drop,
  take, ℕ, length, ◌≤◌,
}
use distributed_hash_table.CString.{str_eq, strdup, text_at, find_nul}
use distributed_hash_table.Scan.{pos, negsuc, scan_int}
use distributed_hash_table.Hashtable.{
  hash_function, construct_htable, add_htable_value, get_htable_value,
}
use distributed_hash_table.NodeList.{node_list_new, node_list_add}
use distributed_hash_table.Ring.{
  index_of_first_node, already_present_in_list, node_at, remainder, select_step, select,
  ring_get_nodes_for_key,
}
use distributed_hash_table.Network.{
  bumped, increment_and_get, buffer_text, answer, get_loop, max_msg_size, get_from_ring,
  network_get,
}
use distributed_hash_table.Programs.{
  Call, put_text, ok_value, index_text, fetch, store, client_find, client_cat, client_substr,
}
use distributed_hash_table.Programs.Find.{IsFirst, client_find-IsFirst}
use distributed_hash_table.Programs.Cat.{Source, joined, keys_of, calls_of, client_cat-joined}
use distributed_hash_table.Programs.Substr.{client_substr-store, client_substr-out_of_bounds}
use distributed_hash_table.Tests.Ring.{toy, key}
use distributed_hash_table.Tests.Network.{client}

abbrev call_abc : Call
call_abc = record {
  first = some 5;
  second = none;
  replies = some (b'a' ∷ b'b' ∷ b'c' ∷ []) ∷ some (b'a' ∷ b'b' ∷ b'c' ∷ []) ∷ [];
}

abc : fetch toy 3 client key call_abc [] ≡ ok (some (b'a' ∷ b'b' ∷ b'c' ∷ []), [])
unfolding fetch network_get get_from_ring get_loop answer buffer_text increment_and_get bumped
    construct_htable add_htable_value get_htable_value hash_function str_eq strdup text_at find_nul
    index_of_first_node already_present_in_list node_at remainder select_step select
    ring_get_nodes_for_key node_list_new node_list_add
abc = refl

client_find_example :
    (found : Option ℕ) × (client_find toy 3 client key key (call_abc ∷ call_abc ∷ []) []
      ≡ ok (record { output = ok_value (index_text found); status = 0 }))
    × IsFirst (b'a' ∷ b'b' ∷ b'c' ∷ []) (b'a' ∷ b'b' ∷ b'c' ∷ []) found
client_find_example =
    client_find-IsFirst toy 3 client key key call_abc call_abc (b'a' ∷ b'b' ∷ b'c' ∷ [])
      (b'a' ∷ b'b' ∷ b'c' ∷ []) [] [] [] abc abc

abbrev source_abc : Source
source_abc = record { key = key; call = call_abc; value = b'a' ∷ b'b' ∷ b'c' ∷ [] }

abbrev sources : List Source
sources = source_abc ∷ source_abc ∷ []

sources-filled : joined sources ≢ []
unfolding joined
sources-filled e = cc

key-filled : key ≢ []
key-filled e = cc

sources-short : length (joined sources) ≤ max_msg_size
unfolding joined
sources-short = omega arith

client_cat_example :
    client_cat toy 3 client (keys_of sources key) (calls_of sources call_abc) [] ≡ (
      store toy 3 client key (joined sources) call_abc [] >>= λ (e, _).
      ok (record { output = put_text e; status = 0 }))
client_cat_example =
    client_cat-joined toy 3 client sources key call_abc (abc, (abc, tt)) sources-filled key-filled
      sources-short

-- "-2" and "1": the second byte.
scan_minus_two : scan_int (b'-' ∷ b'2' ∷ []) ≡ some (negsuc 1)
unfolding scan_int
scan_minus_two = refl

scan_one : scan_int (b'1' ∷ []) ≡ some (pos 1)
unfolding scan_int
scan_one = refl

client_substr_example :
    client_substr toy 3 client
      (7 ∷ 0 ∷ [])
      key
      (b'-' ∷ b'2' ∷ [])
      (b'1' ∷ [])
      key
      (call_abc ∷ call_abc ∷ [])
      []
    ≡ (store toy 3 client key (take 1 (drop 1 (b'a' ∷ b'b' ∷ b'c' ∷ []))) call_abc [] >>= λ (e, _).
        ok (record { output = put_text e; status = 0 }))
client_substr_example =
    client_substr-store toy 3 client (7 ∷ 0 ∷ []) key (b'-' ∷ b'2' ∷ []) (b'1' ∷ []) key
      (b'a' ∷ b'b' ∷ b'c' ∷ []) call_abc call_abc [] [] (negsuc 1) 1 1 scan_minus_two scan_one abc
      (omega arith) (omega arith) refl (omega arith) refl

-- "-5" and "4": the place is before the start.
scan_minus_five : scan_int (b'-' ∷ b'5' ∷ []) ≡ some (negsuc 4)
unfolding scan_int
scan_minus_five = refl

scan_four : scan_int (b'4' ∷ []) ≡ some (pos 4)
unfolding scan_int
scan_four = refl

client_substr_fault_example :
    client_substr toy 3 client [] key
      (b'-' ∷ b'5' ∷ [])
      (b'4' ∷ [])
      key
      (call_abc ∷ call_abc ∷ [])
      []
    ≡ fault out_of_bounds
client_substr_fault_example =
    client_substr-out_of_bounds toy 3 client [] key (b'-' ∷ b'5' ∷ []) (b'4' ∷ []) key
      (b'a' ∷ b'b' ∷ b'c' ∷ []) call_abc call_abc [] [] 4 4 scan_minus_five scan_four abc
      (omega arith) (omega arith) (omega arith) (omega arith)
