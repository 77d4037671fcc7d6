-- ===== src/DumpNode/Reads.antt =====
-- Reading the pairs of one datagram.
use distributed_hash_table.Base.{
  ℕ, zero, suc, ◌+◌, ◌-◌, ◌<◌, ◌≡◌, ◌≢◌, refl, ◌∙◌, List, [], ◌∷◌, ◌++◌, some, ok, length,
  length-append, All, drop, drop_all, map, arith, lt→ltb,
}
use mathlib.Core.List.{append_assoc, append-nil}
use distributed_hash_table.CString.{Bytes, IsText, text_at, strdup}
use distributed_hash_table.CString.Laws.{text_at-append, text_at_text}
use distributed_hash_table.Hashtable.{KvPair}
use distributed_hash_table.DumpNode.{string_from, keep_pair, read_pairs}
use distributed_hash_table.DumpNode.Items.{Item, kv_of, IsItem, encode, cut, drop-append}

string_from_lem :
    (room : ℕ) (s key : Bytes) → text_at s ≡ key → length key < room → string_from room s ≡ ok key
unfolding string_from
string_from_lem room s key e lt = rw (e, lt→ltb (length key) room lt)

pub read_pairs_end :
    (fuel room : ℕ) (pairs : List KvPair)
    → 0 < room
    → read_pairs (suc fuel) room [] pairs [] ≡ ok (some pairs, [])
unfolding read_pairs text_at
read_pairs_end fuel room pairs pos = rw (string_from_lem room [] [] refl pos)

-- One pass of the inner loop, in front of `rest`.
pub read_pairs_step :
    (fuel room : ℕ) (key value rest : Bytes) (pairs : List KvPair)
    → IsText key
    → key ≢ []
    → text_at rest ≡ value
    → length key + 1 + length value < room
    → read_pairs (suc fuel) room (key ++ 0 ∷ rest) pairs []
      ≡ read_pairs fuel
          (room - (length key + 1) - (length value + 1))
          (drop (length value + 1) rest)
          (pairs ++ record { key = some key; value = some value } ∷ [])
          []
unfolding read_pairs keep_pair strdup
read_pairs_step fuel room [] value rest pairs h n e lt = absurd (n refl)
read_pairs_step fuel room (c ∷ key) value rest pairs h n e lt = rw (
  string_from_lem room (c ∷ (key ++ 0 ∷ rest)) (c ∷ key) (text_at-append (c ∷ key) rest h)
      (omega arith),
  drop-append (c ∷ key) rest 0,
  string_from_lem (room - (length (c ∷ key) + 1)) rest value e (omega arith),
)

-- With room for the pairs and their NULs, the inner loop reads all of them.
pub read_pairs-cut :
    (is : List Item) (fuel room : ℕ) (pairs : List KvPair)
    → All IsItem is
    → length (encode is) < fuel
    → length (encode is) < room
    → read_pairs fuel room (cut is) pairs [] ≡ ok (some (pairs ++ map kv_of is), [])
unfolding encode cut
read_pairs-cut [] zero room pairs h f r = absurd (omega (arith, f))
read_pairs-cut [] (suc fuel) room pairs h f r =
    rw (read_pairs_end fuel room pairs (omega arith)) (simp append-nil)
read_pairs-cut (i ∷ is) zero room pairs h f r = absurd (omega (arith, f))
read_pairs-cut (i ∷ []) (suc fuel) room pairs h f r =
    let sizes = length-append i.key (0 ∷ (i.value ++ 0 ∷ [])) in
    let sizes' = length-append i.value (0 ∷ []) in
    read_pairs_step fuel room i.key i.value i.value pairs h.0.0 h.0.1 (text_at_text i.value h.0.2)
      (omega arith)
    ∙ rw (drop_all (length i.value + 1) i.value (omega arith)) (
        read_pairs-cut [] fuel (room - (length i.key + 1) - (length i.value + 1))
          (pairs ++ kv_of i ∷ []) tt (omega arith) (omega arith)
        ∙ simp append_assoc)
read_pairs-cut (i ∷ j ∷ is) (suc fuel) room pairs h f r =
    let sizes = length-append i.key (0 ∷ (i.value ++ 0 ∷ encode (j ∷ is))) in
    let sizes' = length-append i.value (0 ∷ encode (j ∷ is)) in
    read_pairs_step fuel room i.key i.value (i.value ++ 0 ∷ cut (j ∷ is)) pairs h.0.0 h.0.1
      (text_at-append i.value (cut (j ∷ is)) h.0.2) (omega arith)
    ∙ rw (drop-append i.value (cut (j ∷ is)) 0) (
        read_pairs-cut (j ∷ is) fuel (room - (length i.key + 1) - (length i.value + 1))
          (pairs ++ kv_of i ∷ []) h.1 (omega arith) (omega arith)
        ∙ simp append_assoc)
