-- ===== src/DumpNode/RoundTrip.antt =====
-- What the server sends for a dump, and what done/pps-dump-node.c reads of it.
use distributed_hash_table.Base.{
  ◌+◌, ◌^◌, ◌≤◌, ◌<◌, ◌≡◌, refl, sym, List, [], ◌∷◌, some, ok, length, length-map, All, map, arith,
}
use distributed_hash_table.CString.{Bytes}
use distributed_hash_table.Hashtable.{KvPair}
use distributed_hash_table.Network.{max_msg_size}
use distributed_hash_table.Server.{htonl, dump_loop, dump, handle, server_step}
use distributed_hash_table.Hashtable.{Htable, get_htable_content}
use distributed_hash_table.Hashtable.Table.{IsValid, view}
use distributed_hash_table.Hashtable.Content.{lookup, occurrences, get_htable_content_lem}
use distributed_hash_table.DumpNode.{printed, read_dump}
use distributed_hash_table.DumpNode.Items.{Item, kv_of, encode}
use distributed_hash_table.DumpNode.Later.{IsSmall}
use distributed_hash_table.DumpNode.Datagrams.{first-read}

-- The answer to the request of one NUL.
server_step-dump :
    (t : Htable) (pairs : List KvPair) (msgs : List Bytes)
    → get_htable_content t [] ≡ ok (some pairs, [])
    → dump_loop max_msg_size pairs (htonl (length pairs)) ≡ ok msgs
    → server_step t (some (0 ∷ [])) [] ≡ ok (t, msgs, [])
unfolding server_step handle dump
server_step-dump t pairs msgs content run = rw (content, run) refl

-- A valid table holds fewer than 2 ^ 32 pairs; their keys are not empty, and each fits a datagram
-- behind the count. The last byte of the client's buffer is 0, and both sides have enough memory. Then
-- the datagrams with which the server answers a dump request, received in their order, make the client
-- print these pairs, in the order of the table and each once, and they are what the table holds.
pub read_dump-server_step :
    (t : Htable) (items : List Item)
    → IsValid t
    → get_htable_content t [] ≡ ok (some (map kv_of items), [])
    → All (IsSmall max_msg_size) items
    → length items < 2 ^ 32
    → (msgs : List Bytes) × (server_step t (some (0 ∷ [])) [] ≡ ok (t, msgs, []))
      × (read_dump (max_msg_size + 1) (map some msgs) [] ≡ ok (printed (map kv_of items), []))
      × ((q : Bytes)
          → (lookup q (map kv_of items) ≡ view t q) × (occurrences q (map kv_of items) ≤ 1))
unfolding encode
read_dump-server_step t items valid content small bound =
    let (msgs, run, reads) =
      first-read max_msg_size (max_msg_size + 1) (length items) items [] (omega arith) (omega arith)
        bound (omega arith) small tt (omega arith) in
    let (pairs, found, filled, holds) = get_htable_content_lem t valid in
    let same : pairs ≡ map kv_of items = cc in
    (
      msgs,
      server_step-dump t (map kv_of items) msgs content (rw (length-map kv_of items) run),
      reads,
      λ q. rw (sym same) (holds q),
    )
