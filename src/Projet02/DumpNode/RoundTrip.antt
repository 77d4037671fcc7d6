-- ===== src/Projet02/DumpNode/RoundTrip.antt =====
-- What the server of week 10 sends for a dump, and what pps-dump-node of week 10 reads of it.
use distributed_hash_table.Base.{
  ℕ, zero, suc, ◌+◌, ◌-◌, ◌^◌, ◌≤◌, ◌<◌, ◌≡◌, refl, sym, ◌∙◌, ap, List, [], ◌∷◌, ◌++◌, some, ok,
  length, length-append, length-map, All, map, take, take_all, drop, arith, le→ltb,
}
use mathlib.Core.List.{append_assoc, append-nil}
use distributed_hash_table.CString.{Bytes}
use distributed_hash_table.CString.Laws.{text_at-append}
use distributed_hash_table.Hashtable as Final
use distributed_hash_table.Hashtable.{KvPair, Htable}
use distributed_hash_table.Hashtable.Table.{IsValid, view}
use distributed_hash_table.Hashtable.Content.{lookup, occurrences, get_htable_content_lem}
use distributed_hash_table.DumpNode.{printed, read_pairs}
use distributed_hash_table.DumpNode.Items.{Item, kv_of, IsItem, encode, encode-append, drop-append}
use distributed_hash_table.DumpNode.Sends.{length-encode_one, bind_ok, write_pair_lem}
use distributed_hash_table.DumpNode.Reads.{read_pairs_end, read_pairs_step}
use distributed_hash_table.DumpNode.Later.{read_more_enough}
use distributed_hash_table.Projet02.Server.{
  max_udp_size, get_htable_content, count_bytes, dump_pair, dump_loop, dump, handle, server_step,
}
use distributed_hash_table.Projet02.DumpNode.{read_dump, read_count}
use distributed_hash_table.Projet02.DumpNode.Count.{read_count-count_bytes}

-- A pair that fits behind the bytes written so far is added to them.
dump_loop-fits :
    (i : Item) (rest : List KvPair) (msg : Bytes)
    → length msg + length (encode (i ∷ [])) ≤ max_udp_size
    → dump_loop (kv_of i ∷ rest) msg ≡ dump_loop rest (msg ++ encode (i ∷ []))
unfolding dump_loop dump_pair
dump_loop-fits i rest msg h =
    rw
      (
        dump_loop,
        dump_pair,
        le→ltb max_udp_size (length msg + (length i.key + 1) + (length i.value + 1))
            (omega (arith, length-encode_one i)),
        write_pair_lem max_udp_size msg i h,
      )
      (bind_ok (dump_loop rest (msg ++ encode (i ∷ []))))

dump_loop_end : (msg : Bytes) → dump_loop [] msg ≡ ok (msg ∷ [])
unfolding dump_loop
dump_loop_end msg = refl

-- Pairs that fit behind what is in the buffer are sent in one datagram.
dump_loop-encode :
    (is : List Item) (msg : Bytes)
    → length msg + length (encode is) ≤ max_udp_size
    → dump_loop (map kv_of is) msg ≡ ok ((msg ++ encode is) ∷ [])
unfolding encode
dump_loop-encode [] msg h = dump_loop_end msg ∙ ap (λ s. ok (s ∷ [])) (sym (append-nil msg))
dump_loop-encode (i ∷ is) msg h =
    let parts : encode (i ∷ is) ≡ encode (i ∷ []) ++ encode is = encode-append (i ∷ []) is in
    let joined = append_assoc msg (encode (i ∷ [])) (encode is) in
    let sizes = length-append (encode (i ∷ [])) (encode is) in
    let sizes' = length-append msg (encode (i ∷ [])) in
    let total : length (encode (i ∷ is)) ≡ length (encode (i ∷ [])) + length (encode is) =
      ap length parts ∙ sizes in
    dump_loop-fits i (map kv_of is) msg (omega (arith, total, h))
    ∙ dump_loop-encode is (msg ++ encode (i ∷ [])) (omega (arith, total, h, sizes'))
    ∙ ap (λ s. ok (s ∷ [])) (joined ∙ ap (λ s. msg ++ s) (sym parts))

-- Each pair with its NULs is read.
read_pairs-encode :
    (is : List Item) (fuel room : ℕ) (pairs : List KvPair)
    → All IsItem is
    → length (encode is) < fuel
    → length (encode is) < room
    → read_pairs fuel room (encode is) pairs [] ≡ ok (some (pairs ++ map kv_of is), [])
unfolding encode
read_pairs-encode is zero room pairs h f r = absurd (omega (arith, f))
read_pairs-encode [] (suc fuel) room pairs h f r =
    rw (read_pairs_end fuel room pairs (omega arith)) (simp append-nil)
read_pairs-encode (i ∷ is) (suc fuel) room pairs h f r =
    let sizes = length-append i.key (0 ∷ (i.value ++ 0 ∷ encode is)) in
    let sizes' = length-append i.value (0 ∷ encode is) in
    read_pairs_step fuel room i.key i.value (i.value ++ 0 ∷ encode is) pairs h.0.0 h.0.1
      (text_at-append i.value (encode is) h.0.2) (omega arith)
    ∙ rw (drop-append i.value (encode is) 0) (
        read_pairs-encode is fuel (room - (length i.key + 1) - (length i.value + 1))
          (pairs ++ kv_of i ∷ []) h.1 (omega arith) (omega arith)
        ∙ simp append_assoc)

get_htable_content-same :
    (t : Htable) (pairs : List KvPair)
    → Final.get_htable_content t [] ≡ ok (some pairs, [])
    → get_htable_content t [] ≡ ok (some pairs, [])
unfolding get_htable_content
get_htable_content-same t pairs content = rw content refl

length-count_bytes : (n : ℕ) → length (count_bytes n) ≡ 4
unfolding count_bytes
length-count_bytes n = refl

drop-count_bytes : (n : ℕ) (s : Bytes) → drop 4 (count_bytes n ++ s) ≡ s
unfolding count_bytes
drop-count_bytes n s = refl

server_step-dump :
    (t : Htable) (items : List Item)
    → Final.get_htable_content t [] ≡ ok (some (map kv_of items), [])
    → 4 + length (encode items) ≤ max_udp_size
    → server_step t (some (0 ∷ [])) []
      ≡ ok (t, (count_bytes (length items) ++ encode items) ∷ [], [])
unfolding server_step handle dump
server_step-dump t items content fit =
    let sent : dump_loop (map kv_of items) (count_bytes (length (map kv_of items)))
        ≡ ok ((count_bytes (length items) ++ encode items) ∷ []) =
      rw (length-map kv_of items) (
        dump_loop-encode items (count_bytes (length items))
          (rw (length-count_bytes (length items)) fit)) in
    rw (get_htable_content-same t (map kv_of items) content, sent) refl

read_dump-encode :
    (items : List Item)
    → All IsItem items
    → 4 + length (encode items) ≤ max_udp_size
    → length items < 2 ^ 15
    → read_dump (max_udp_size + 1) (some (count_bytes (length items) ++ encode items) ∷ []) []
      ≡ ok (printed (map kv_of items), [])
unfolding read_dump
read_dump-encode items h fit few =
    let msg = count_bytes (length items) ++ encode items in
    let whole : take max_udp_size msg ≡ msg = take_all max_udp_size msg (
      omega (
        arith,
        length-append (count_bytes (length items)) (encode items),
        length-count_bytes (length items),
      )) in
    let number : read_count (take max_udp_size msg) ≡ length items =
      ap read_count whole ∙ read_count-count_bytes (length items) (encode items) few in
    rw
      (
        whole,
        drop-count_bytes (length items) (encode items),
        read_pairs-encode items (suc (max_udp_size + 1)) (max_udp_size + 1 - 4) [] h (omega arith)
            (omega arith),
        number,
      )
      (read_more_enough (max_udp_size + 1) (length items) [] (map kv_of items)
        (rw (length-map kv_of items) (omega arith)))

-- A valid table holds fewer than 2 ^ 15 pairs, which all fit one datagram behind their number and whose keys
-- are not empty. The last byte of the client's buffer is 0, and both sides have enough memory. Then the
-- server of week 10 answers a dump request with one datagram, which makes pps-dump-node of week 10
-- print these pairs, in the order of the table and each once, and they are what the table holds.
pub read_dump-dump :
    (t : Htable) (items : List Item)
    → IsValid t
    → Final.get_htable_content t [] ≡ ok (some (map kv_of items), [])
    → All IsItem items
    → 4 + length (encode items) ≤ max_udp_size
    → length items < 2 ^ 15
    → (msg : Bytes) × (server_step t (some (0 ∷ [])) [] ≡ ok (t, msg ∷ [], []))
      × (read_dump (max_udp_size + 1) (some msg ∷ []) [] ≡ ok (printed (map kv_of items), []))
      × ((q : Bytes)
          → (lookup q (map kv_of items) ≡ view t q) × (occurrences q (map kv_of items) ≤ 1))
read_dump-dump t items valid content h fit few =
    let (pairs, found, filled, holds) = get_htable_content_lem t valid in
    let same : pairs ≡ map kv_of items = cc in
    (
      count_bytes (length items) ++ encode items,
      server_step-dump t items content fit,
      read_dump-encode items h fit few,
      λ q. rw (sym same) (holds q),
    )
