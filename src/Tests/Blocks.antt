-- ===== src/Tests/Blocks.antt =====
-- The table and the server with their blocks, at small inputs.
use distributed_hash_table.Base.{
  ℕ, ◌+◌, ◌≡◌, refl, true, false, List, [], ◌∷◌, Option, none, some, ok, fault, double_free, ◌⊎◌,
  Returns, arith, map,
}
use distributed_hash_table.CString.{Bytes, str_eq, strdup, text_at, find_nul}
use distributed_hash_table.Heap.{Heap, alloc, release, duplicate, free_const_ptr, realloc, Holds}
use distributed_hash_table.Hashtable as Values
use distributed_hash_table.Hashtable.{hash_function}
use distributed_hash_table.Hashtable.Blocks as Blocks
use distributed_hash_table.Hashtable.Blocks.{
  Table, Chain, last, link, construct_htable, delete_htable_and_content,
}
use distributed_hash_table.Hashtable.Blocks.Owned.{of_table, forget_table, IsTidyTable}
use distributed_hash_table.Hashtable.Blocks.Free.{Left, delete_htable_and_content-Left}
use distributed_hash_table.Hashtable.Blocks.Content.{get_htable_content}
use distributed_hash_table.Hashtable.Blocks.PairLists.{Listed}
use distributed_hash_table.Hashtable.Blocks.Listed.{get_htable_content-Listed}
use distributed_hash_table.Server as Values_server
use distributed_hash_table.Server.Trace.{message, all_replies, store_after_all}
use distributed_hash_table.Hashtable.Table.{view}
use distributed_hash_table.Server.Blocks.{serve, construct_and_serve}
use distributed_hash_table.Server.Blocks.Served.{
  Served, serve-Served, construct_and_serve-all_replies,
}
use distributed_hash_table.Tests.Server.{requests, requests-IsLegal}
use distributed_hash_table.Hashtable.Blocks.Content as Content
use distributed_hash_table.Projet02.Server as Week10_server
use distributed_hash_table.Projet02.Hashtable as Week10
use distributed_hash_table.Projet02.Hashtable.DoubleFree.{get_htable_content-double_free}
use distributed_hash_table.Projet01.Hashtable as Old
use distributed_hash_table.Projet01.Hashtable.{of_heads, delete_htable_and_content-leak}

abbrev pub nothing_else : ℕ → ℕ
nothing_else a = 0

abbrev pub new_heap : Heap
new_heap = record { live = []; next = 1; memory = [] }

-- Two pairs in one chain: the array in block 1, and the second bucket and the end in blocks 4 and 7.
abbrev pub two_pairs : Table
two_pairs = record {
  buckets = some (
    1,
    link (record { key = some (2, b'a' ∷ []); value = some (3, b'x' ∷ []) }) 4
          (link (record { key = some (5, b'b' ∷ []); value = some (6, b'y' ∷ []) }) 7
            (last (record { key = none; value = none })))
        ∷ [],
  );
  size = 1;
}

abbrev pub two_pairs_heap : Heap
two_pairs_heap = record {
  live = 7 ∷ 6 ∷ 5 ∷ 4 ∷ 3 ∷ 2 ∷ 1 ∷ [];
  next = 8;
  memory = true ∷ true ∷ true ∷ true ∷ false ∷ [];
}

pub two_pairs-IsTidyTable : IsTidyTable two_pairs
two_pairs-IsTidyTable = (
  omega arith,
  record {
    width = refl;
    tidy = (((λ e. cc), (λ e. cc), ((λ e. cc), (λ e. cc), (refl, refl))), tt);
  },
)

two_pairs-Holds : Holds two_pairs_heap (λ a. of_table a two_pairs + nothing_else a)
two_pairs-Holds a = omega arith

-- The second realloc of the list fails.
get_htable_content-Listed_example : Returns (get_htable_content two_pairs two_pairs_heap) (
    Listed
      (Values.get_htable_content (forget_table two_pairs) two_pairs_heap.memory)
      (λ a. of_table a two_pairs + nothing_else a))
get_htable_content-Listed_example =
    get_htable_content-Listed two_pairs two_pairs_heap (λ a. of_table a two_pairs + nothing_else a)
      two_pairs-IsTidyTable two_pairs-Holds

delete-Left_example : Returns (delete_htable_and_content two_pairs two_pairs_heap) (λ (t', h').
    (t' ≡ record { buckets = none; size = 0 }) × Left nothing_else two_pairs_heap.memory h')
delete-Left_example =
    delete_htable_and_content-Left two_pairs two_pairs_heap nothing_else two_pairs-IsTidyTable
      two_pairs-Holds

-- The copy of the new value cannot be allocated; the get and the dump find what was there.
abbrev pub datagrams : List (Option Bytes)
datagrams = some (b'a' ∷ 0 ∷ b'z' ∷ []) ∷ some (b'b' ∷ []) ∷ some (0 ∷ []) ∷ none ∷ []

abbrev pub answers : List (List Bytes)
answers =
    ([] ∷ [])
    ∷ ((b'y' ∷ []) ∷ [])
    ∷ ((0 ∷ 0 ∷ 0 ∷ 2 ∷ b'a' ∷ 0 ∷ b'x' ∷ 0 ∷ b'b' ∷ 0 ∷ b'y' ∷ []) ∷ [])
    ∷ []
    ∷ []

abbrev pub scarce_heap : Heap
scarce_heap = record two_pairs_heap { memory = false ∷ [] }

served_run :
    Values_server.serve (forget_table two_pairs) datagrams (false ∷ [])
    ≡ ok (forget_table two_pairs, answers, [])
unfolding Values_server.serve Values_server.server_step Values_server.handle
    Values_server.answer_get Values_server.answer_put Values_server.dump Values_server.dump_loop
    Values_server.value_part Values_server.write_pair Values_server.trimmed Values.add_htable_value
    Values.get_htable_value Values.get_htable_content hash_function str_eq text_at find_nul strdup
    Values_server.dump_pair
served_run = refl

serve-Served_example :
    Returns
      (serve two_pairs datagrams scarce_heap)
      (Served (Values_server.serve (forget_table two_pairs) datagrams (false ∷ [])) nothing_else)
serve-Served_example =
    serve-Served datagrams two_pairs scarce_heap nothing_else (forget_table two_pairs, answers, [])
      two_pairs-IsTidyTable (λ a. omega arith) served_run

construct_and_serve_example :
    Returns (construct_and_serve (map message requests) new_heap) (λ (t', sent, h').
      (sent ≡ all_replies (λ q. none) requests)
      × ((q : Bytes) → view (forget_table t') q ≡ store_after_all (λ q. none) requests q)
      × IsTidyTable t'
      × Holds h' (λ a. of_table a t' + nothing_else a))
construct_and_serve_example =
    construct_and_serve-all_replies requests new_heap nothing_else refl requests-IsLegal (λ a. refl)

delete_htable_and_content-leak_example :
    Returns (Old.delete_htable_and_content two_pairs two_pairs_heap) (λ (t', h').
      (t'.buckets ≡ none)
      × Holds h' (λ a.
        of_heads a (
          link
            (record { key = some (2, b'a' ∷ []); value = some (3, b'x' ∷ []) })
            4
            (link
              (record { key = some (5, b'b' ∷ []); value = some (6, b'y' ∷ []) })
              7
              (last (record { key = none; value = none })))
          ∷ [])
        + nothing_else a))
delete_htable_and_content-leak_example =
    delete_htable_and_content-leak two_pairs 1
      (link (record { key = some (2, b'a' ∷ []); value = some (3, b'x' ∷ []) }) 4
          (link (record { key = some (5, b'b' ∷ []); value = some (6, b'y' ∷ []) }) 7
            (last (record { key = none; value = none })))
        ∷ [])
      two_pairs_heap nothing_else refl two_pairs-IsTidyTable two_pairs-Holds

-- The strings of the first pair are left.
leak_run :
    Old.delete_htable_and_content two_pairs two_pairs_heap
    ≡ ok (record { buckets = none; size = 0 }, record two_pairs_heap { live = 3 ∷ 2 ∷ [] })
unfolding Old.delete_htable_and_content Old.free_tails Old.free_from_tail Blocks.free_tail
    Blocks.kv_pair_free free_const_ptr release
leak_run = refl

delete_run :
    delete_htable_and_content two_pairs two_pairs_heap
    ≡ ok (record { buckets = none; size = 0 }, record two_pairs_heap { live = [] })
unfolding delete_htable_and_content Blocks.free_buckets Blocks.free_bucket Blocks.free_tail
    Blocks.kv_pair_free free_const_ptr release
delete_run = refl

double_free_heap_example :
    ((Week10.get_htable_content two_pairs two_pairs_heap ≡ fault double_free)
      × (Week10_server.get_htable_content (forget_table two_pairs) two_pairs_heap.memory
          ≡ fault double_free))
    ⊎ Returns (Week10.get_htable_content two_pairs two_pairs_heap) (
        Listed
          (Week10_server.get_htable_content (forget_table two_pairs) two_pairs_heap.memory)
          (λ a. of_table a two_pairs + nothing_else a))
double_free_heap_example =
    get_htable_content-double_free two_pairs two_pairs_heap
      (λ a. of_table a two_pairs + nothing_else a) two_pairs-IsTidyTable two_pairs-Holds refl

-- The second realloc fails: the final version frees the list once, week 10 twice.
double_free_run : Week10.get_htable_content two_pairs two_pairs_heap ≡ fault double_free
unfolding Week10.get_htable_content Week10.content_loop Week10.content_of_chain Week10.append_pair
    Week10.stored Content.copy_pair Content.kv_list_free Content.free_pairs Blocks.bucket_at
    Blocks.kv_pair_free alloc realloc release duplicate free_const_ptr
double_free_run = refl

freed_once_run :
    Content.get_htable_content two_pairs two_pairs_heap
    ≡ ok (none, record two_pairs_heap { next = 12; memory = [] })
unfolding Content.get_htable_content Content.content_loop Content.content_of_chain
    Content.append_pair Content.stored Content.copy_pair Content.kv_list_free Content.free_pairs
    Blocks.bucket_at Blocks.kv_pair_free alloc realloc release duplicate free_const_ptr
freed_once_run = refl
