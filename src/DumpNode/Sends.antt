-- ===== src/DumpNode/Sends.antt =====
-- The datagrams in which the server sends the pairs.
use distributed_hash_table.Base.{
  ℕ, ◌+◌, ◌≤◌, ◌<◌, ◌≡◌, refl, List, [], ◌∷◌, ◌++◌, ok, length, length-append, arith, lt→ltb,
  le→ltb, ◌>>=◌, Run, fault,
}
use distributed_hash_table.CString.{Bytes}
use distributed_hash_table.Hashtable.{KvPair}
use distributed_hash_table.Server.{trimmed, write_pair, dump_pair, dump_loop}
use distributed_hash_table.DumpNode.Items.{Item, kv_of, encode}

pub length-encode_one :
    (i : Item) → length (encode (i ∷ [])) ≡ length i.key + 1 + (length i.value + 1)
unfolding encode
length-encode_one i =
    omega (arith, length-append i.key (0 ∷ (i.value ++ 0 ∷ [])), length-append i.value (0 ∷ []))

pub bind_ok : (r : Run (List Bytes)) → (r >>= λ later. ok later) ≡ r
bind_ok (ok later) = refl
bind_ok (fault why) = refl

pub write_pair_lem :
    (size : ℕ) (msg : Bytes) (i : Item)
    → length msg + length (encode (i ∷ [])) ≤ size
    → write_pair size msg i.key i.value ≡ ok (msg ++ encode (i ∷ []))
unfolding write_pair encode
write_pair_lem size msg i h =
    rw (le→ltb size (length (msg ++ encode (i ∷ []))) (rw (length-append msg (encode (i ∷ []))) h))
      refl

-- A pair that fits behind the bytes written so far is added to them.
pub dump_loop-fits :
    (size : ℕ) (i : Item) (rest : List KvPair) (msg : Bytes)
    → length msg + length (encode (i ∷ [])) ≤ size
    → dump_loop size (kv_of i ∷ rest) msg ≡ dump_loop size rest (msg ++ encode (i ∷ []))
unfolding dump_loop dump_pair
dump_loop-fits size i rest msg h =
    rw
      (
        dump_loop,
        dump_pair,
        le→ltb size (length msg + (length i.key + 1) + (length i.value + 1))
            (omega (arith, length-encode_one i)),
        write_pair_lem size msg i h,
      )
      (bind_ok (dump_loop size rest (msg ++ encode (i ∷ []))))

-- A pair that does not is the first of the next datagram.
pub dump_loop-flush :
    (size : ℕ) (i : Item) (rest : List KvPair) (msg : Bytes) (later : List Bytes)
    → length (encode (i ∷ [])) ≤ size
    → size < length msg + length (encode (i ∷ []))
    → dump_loop size rest (encode (i ∷ [])) ≡ ok later
    → dump_loop size (kv_of i ∷ rest) msg ≡ ok (trimmed msg ∷ later)
unfolding dump_loop dump_pair
dump_loop-flush size i rest msg later own h run =
    rw
      (
        dump_loop,
        dump_pair,
        lt→ltb size (length msg + (length i.key + 1) + (length i.value + 1))
            (omega (arith, length-encode_one i)),
        write_pair_lem size [] i (omega arith),
        run,
      )
      refl
