-- ===== src/DumpNode/Later.antt =====
-- The datagrams behind the first, as the client reads them.
use distributed_hash_table.Base.{
  ℕ, suc, ◌+◌, ◌^◌, ◌≤◌, ◌<◌, ◌≡◌, refl, sym, ◌∙◌, ap, List, [], ◌∷◌, ◌++◌, none, some, ok, length,
  length-append, length-map, All, take_all, map, arith, ltb, lt→ltb, le→ltb, Option, Bool-cases,
  inl, inr, ltb→lt,
}
use mathlib.Core.List.{append_assoc, append-nil, map-append}
use distributed_hash_table.CString.{Bytes}
use distributed_hash_table.Hashtable.{KvPair}
use distributed_hash_table.Network.{max_msg_size}
use distributed_hash_table.Server.{trimmed, htonl, dump_loop}
use distributed_hash_table.DumpNode.{printed, ntohl, read_more}
use distributed_hash_table.DumpNode.Items.{
  Item, kv_of, IsItem, encode, cut, encode-append, trimmed-encode, length-cut,
}
use distributed_hash_table.DumpNode.Reads.{read_pairs-cut}
use distributed_hash_table.DumpNode.Sends.{dump_loop-fits, dump_loop-flush}

-- A pair that fits a datagram behind the count.
abbrev pub IsSmall : ℕ → Item → Type 0
IsSmall size i = IsItem i × (4 + length (encode (i ∷ [])) ≤ size)

-- A datagram of pairs, read by the outer loop.
read_more-cut :
    (cleared n : ℕ) (i : Item) (is : List Item) (replies : List (Option Bytes))
    (pairs : List KvPair)
    → All IsItem (i ∷ is)
    → length (encode (i ∷ is)) < cleared
    → length (encode (i ∷ is)) ≤ max_msg_size
    → length pairs < n
    → read_more cleared n (some (cut (i ∷ is)) ∷ replies) pairs []
      ≡ read_more cleared n replies (pairs ++ map kv_of (i ∷ is)) []
unfolding read_more
read_more-cut cleared n i is replies pairs h c s lt =
    rw
      (
        lt→ltb (length pairs) n lt,
        take_all max_msg_size (cut (i ∷ is)) (omega (arith, length-cut i is)),
        read_pairs-cut (i ∷ is) (suc cleared) cleared pairs h (omega arith) c,
      )
      refl

pub read_more_enough :
    (cleared n : ℕ) (replies : List (Option Bytes)) (pairs : List KvPair)
    → n ≤ length pairs
    → read_more cleared n replies pairs [] ≡ ok (printed pairs, [])
unfolding read_more
read_more_enough cleared n [] pairs h = rw (le→ltb (length pairs) n h) refl
read_more_enough cleared n (none ∷ replies) pairs h = rw (le→ltb (length pairs) n h) refl
read_more_enough cleared n (some msg ∷ replies) pairs h = rw (le→ltb (length pairs) n h) refl

pub ntohl-htonl : (n : ℕ) (s : Bytes) → n < 2 ^ 32 → ntohl (htonl n ++ s) ≡ n
unfolding ntohl
ntohl-htonl n s h = omega arith

pub dump_loop_end : (size : ℕ) (msg : Bytes) → dump_loop size [] msg ≡ ok (trimmed msg ∷ [])
unfolding dump_loop
dump_loop_end size msg = refl

-- The datagrams sent for pairs behind `held`, and how they are read.
abbrev pub Later : ℕ → ℕ → ℕ → List Item → List Item → Type 0
Later size cleared n held is =
    (msgs : List Bytes) × (dump_loop size (map kv_of is) (encode held) ≡ ok msgs)
    × ((pairs : List KvPair)
        → length pairs + length held + length is ≡ n
        → read_more cleared n (map some msgs) pairs []
          ≡ ok (printed (pairs ++ map kv_of (held ++ is)), []))

pub All-snoc : (is : List Item) (i : Item) → All IsItem is → IsItem i → All IsItem (is ++ i ∷ [])
All-snoc [] i h last = (last, tt)
All-snoc (j ∷ is) i h last = (h.0, All-snoc is i h.1 last)

pub length-encode_snoc :
    (is : List Item) (i : Item)
    → length (encode (is ++ i ∷ [])) ≡ length (encode is) + length (encode (i ∷ []))
length-encode_snoc is i =
    rw (encode-append is (i ∷ [])) (length-append (encode is) (encode (i ∷ [])))

pub Later-read :
    (size cleared n : ℕ) (is : List Item) (d : Item) (ds : List Item)
    → size ≤ max_msg_size
    → size < cleared
    → All (IsSmall size) is
    → All IsItem (d ∷ ds)
    → length (encode (d ∷ ds)) ≤ size
    → Later size cleared n (d ∷ ds) is
Later-read size cleared n [] d ds fit room small h short = (
  cut (d ∷ ds) ∷ [],
  dump_loop_end size (encode (d ∷ ds)) ∙ ap (λ s. ok (s ∷ [])) (trimmed-encode [] d ds),
  λ pairs count.
      read_more-cut cleared n d ds [] pairs h (omega arith) (omega arith) (omega arith)
      ∙ (read_more_enough cleared n [] (pairs ++ map kv_of (d ∷ ds))
            (rw (length-append pairs (map kv_of (d ∷ ds)), length-map kv_of (d ∷ ds)) (omega arith))
          ∙ rw (append-nil ds) refl),
)
Later-read size cleared n (i ∷ is) d ds fit room small h short =
    elim (Bool-cases (ltb size (length (encode (d ∷ ds)) + length (encode (i ∷ []))))) [
      | inl full ↦
          let (msgs, run, reads) =
            Later-read size cleared n is i [] fit room small.1 (small.0.0, tt)
              (omega (arith, small.0.1)) in
          (
            cut (d ∷ ds) ∷ msgs,
            dump_loop-flush size i (map kv_of is) (encode (d ∷ ds)) msgs (omega (arith, small.0.1))
                  (ltb→lt _ _ full) run
                ∙ ap (λ s. ok (s ∷ msgs)) (trimmed-encode [] d ds),
            λ pairs count.
                read_more-cut cleared n d ds (map some msgs) pairs h (omega arith) (omega arith)
                  (omega arith)
                ∙ (reads (pairs ++ map kv_of (d ∷ ds)) (
                      rw (length-append pairs (map kv_of (d ∷ ds)), length-map kv_of (d ∷ ds))
                        (omega arith))
                    ∙ simp (append_assoc, map-append)),
          )
      | inr fits ↦
          let (msgs, run, reads) =
            Later-read size cleared n is d (ds ++ i ∷ []) fit room small.1
              (All-snoc (d ∷ ds) i h small.0.0)
              (ground (arith, fits, length-encode_snoc (d ∷ ds) i)) in
          (
            msgs,
            dump_loop-fits size i (map kv_of is) (encode (d ∷ ds)) (ground (arith, fits))
                ∙ (ap (dump_loop size (map kv_of is)) (sym (encode-append (d ∷ ds) (i ∷ [])))
                    ∙ run),
            λ pairs count.
                reads pairs (rw (length-append ds (i ∷ [])) (omega arith)) ∙ simp append_assoc,
          )
    ]
