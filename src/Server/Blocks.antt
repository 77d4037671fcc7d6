-- ===== src/Server/Blocks.antt =====
-- done/pps-launch-server.c with its blocks: a round of the loop, and what it allocates and frees for the
-- answer. What is sent is as in Server.antt.
pub mod Dumped
pub mod Handled
pub mod Served
use distributed_hash_table.Base.{
  ℕ, zero, suc, Bool, List, [], ◌∷◌, ◌++◌, Option, none, some, Run, ok, fault, null_pointer, ◌>>=◌,
  ◌==◌, if◌then◌else◌, take, length, map,
}
use distributed_hash_table.CString.{Bytes, text_at}
use distributed_hash_table.Heap.{Heap, alloc, release, text, free_const_ptr}
use distributed_hash_table.Hashtable.{htable_size}
use distributed_hash_table.Hashtable.Blocks.{
  Table, add_htable_value, get_htable_value, construct_htable, delete_htable_and_content,
}
use distributed_hash_table.Hashtable.Blocks.Content.{PairList, kv_list_free, get_htable_content}
use distributed_hash_table.Hashtable.Blocks.PairLists.{forget_pair}
use distributed_hash_table.Server.{ValuePart, value_part, dump_loop, htonl}
use distributed_hash_table.Network.{max_msg_size}

-- The answer to a dump-node request, from the call of calloc on: the message and the list are freed.
unfoldable pub send_content : Option PairList → Heap → Run (List Bytes × Heap)
send_content list h =
    let (msg, h₁) = alloc h in
    elim msg [
      | none ↦ kv_list_free list h₁ >>= λ h₂. ok ([], h₂)
      | some at ↦ elim list [
        | none ↦ fault null_pointer
        | some l ↦
            dump_loop max_msg_size (map forget_pair l.pairs) (htonl (length l.pairs)) >>= λ sent.
            release at h₁ >>= λ h₂. kv_list_free (some l) h₂ >>= λ h₃. ok (sent, h₃)
      ]
    ]

unfoldable pub dump : Table → Heap → Run (List Bytes × Heap)
dump t h = get_htable_content t h >>= λ (list, h₁). send_content list h₁

-- The answer to a get request: the copy of the value is freed.
unfoldable pub answer_get : Table → Bytes → Heap → Run (Table × List Bytes × Heap)
answer_get t key h = get_htable_value t (some key) h >>= λ (value, h₁).
    free_const_ptr value h₁ >>= λ h₂. elim (text value) [
      | none ↦ ok (t, (0 ∷ []) ∷ [], h₂)
      | some v ↦ ok (t, v ∷ [], h₂)
    ]

-- The answer to a put request.
unfoldable pub answer_put : Table → Bytes → Bytes → Heap → Run (Table × List Bytes × Heap)
answer_put t key value h =
    add_htable_value t (some key) (some value) h >>= λ (t', _, h'). ok (t', [] ∷ [], h')

unfoldable pub answer_key :
    Table → Bytes → Option ValuePart → Heap → Run (Table × List Bytes × Heap)
answer_key t key none h = answer_get t key h
answer_key t key (some v) h = if v.len == 0 then answer_get t key h else answer_put t key v.text h

unfoldable pub handle : Table → Bytes → Heap → Run (Table × List Bytes × Heap)
handle t [] h = ok (t, [] ∷ [], h)
handle t (c ∷ []) h =
    let dumped = dump t h >>= λ (sent, h'). ok (t, sent, h') in
    if c == 0 then dumped else answer_key t (text_at (c ∷ [])) (value_part (c ∷ [])) h
handle t (c ∷ d ∷ msg) h = answer_key t (text_at (c ∷ d ∷ msg)) (value_part (c ∷ d ∷ msg)) h

unfoldable pub server_step : Table → Option Bytes → Heap → Run (Table × List Bytes × Heap)
server_step t none h = ok (t, [], h)
server_step t (some datagram) h = handle t (take max_msg_size datagram) h

unfoldable pub serve : Table → List (Option Bytes) → Heap → Run (Table × List (List Bytes) × Heap)
serve t [] h = ok (t, [], h)
serve t (datagram ∷ later) h = server_step t datagram h >>= λ (t', sent, h').
    serve t' later h' >>= λ (t'', rest, h''). ok (t'', sent ∷ rest, h'')

-- `main` from the construction of the table on, up to the datagrams that have arrived; the loop has no exit,
-- and the deletion behind it is never reached.
unfoldable pub construct_and_serve :
    List (Option Bytes) → Heap → Run (Table × List (List Bytes) × Heap)
construct_and_serve datagrams h =
    let (t, h₁) = construct_htable htable_size h in serve t datagrams h₁
