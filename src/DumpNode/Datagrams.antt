-- ===== src/DumpNode/Datagrams.antt =====
-- All datagrams of a dump, as the client reads them.
use distributed_hash_table.Base.{
  ℕ, suc, ◌+◌, ◌-◌, ◌^◌, ◌≤◌, ◌<◌, ◌≡◌, refl, sym, ◌∙◌, ap, List, [], ◌∷◌, ◌++◌, some, ok, length,
  length-append, length-map, All, take, take_all, map, arith, ltb, Option, Bool-cases, inl, inr,
  ltb→lt,
}
use mathlib.Core.List.{append_assoc, append-nil, map-append}
use distributed_hash_table.CString.{Bytes}
use distributed_hash_table.Network.{max_msg_size}
use distributed_hash_table.Server.{trimmed, htonl, dump_loop}
use distributed_hash_table.DumpNode.{printed, ntohl, read_more, read_dump}
use distributed_hash_table.DumpNode.Items.{
  Item, kv_of, IsItem, encode, cut, encode-append, trimmed-encode, length-cut,
}
use distributed_hash_table.DumpNode.Reads.{read_pairs_end, read_pairs-cut}
use distributed_hash_table.DumpNode.Sends.{dump_loop-fits, dump_loop-flush}
use distributed_hash_table.DumpNode.Later.{
  IsSmall, read_more_enough, ntohl-htonl, dump_loop_end, Later-read, All-snoc, length-encode_snoc,
}

-- The first datagram with a pair.
read_dump-cut :
    (cleared n : ℕ) (d : Item) (ds : List Item) (replies : List (Option Bytes))
    → n < 2 ^ 32
    → All IsItem (d ∷ ds)
    → 4 + length (encode (d ∷ ds)) < cleared
    → 4 + length (encode (d ∷ ds)) ≤ max_msg_size
    → read_dump cleared (some (htonl n ++ cut (d ∷ ds)) ∷ replies) []
      ≡ read_more cleared n replies (map kv_of (d ∷ ds)) []
unfolding read_dump
read_dump-cut cleared n d ds replies small h c s =
    let whole : take max_msg_size (htonl n ++ cut (d ∷ ds)) ≡ htonl n ++ cut (d ∷ ds) =
      take_all max_msg_size (htonl n ++ cut (d ∷ ds)) (omega (arith, length-cut d ds)) in
    let number : ntohl (take max_msg_size (htonl n ++ cut (d ∷ ds))) ≡ n =
      ap ntohl whole ∙ ntohl-htonl n (cut (d ∷ ds)) small in
    rw (whole, read_pairs-cut (d ∷ ds) (suc cleared) (cleared - 4) [] h (omega arith) (omega arith))
      (ap (λ k. read_more cleared k replies (map kv_of (d ∷ ds)) []) number)

-- A dump without pairs.
read_dump_empty :
    (cleared : ℕ)
    → 4 < cleared
    → read_dump cleared (some (0 ∷ 0 ∷ 0 ∷ []) ∷ []) [] ≡ ok (printed [], [])
unfolding read_dump ntohl
read_dump_empty cleared h =
    rw (read_pairs_end cleared (cleared - 4) [] (omega arith))
      (read_more_enough cleared 0 [] [] (omega arith))

empty-read :
    (size cleared n : ℕ)
    → n ≡ 0
    → 4 < cleared
    → (msgs : List Bytes) × (dump_loop size [] (htonl n ++ encode []) ≡ ok msgs)
      × (read_dump cleared (map some msgs) [] ≡ ok (printed [], []))
unfolding encode trimmed
empty-read size cleared n zeros h =
    rw zeros ((0 ∷ 0 ∷ 0 ∷ []) ∷ [], dump_loop_end size (htonl 0), read_dump_empty cleared h)

-- The first datagram is sent before the pair i.
first-flush :
    (size cleared n : ℕ) (i : Item) (is held : List Item)
    → size ≤ max_msg_size
    → size < cleared
    → n < 2 ^ 32
    → n ≡ length held + suc (length is)
    → All (IsSmall size) (i ∷ is)
    → All IsItem held
    → 4 + length (encode held) ≤ size
    → size < length (htonl n ++ encode held) + length (encode (i ∷ []))
    → (msgs : List Bytes) × (dump_loop size (map kv_of (i ∷ is)) (htonl n ++ encode held) ≡ ok msgs)
      × (read_dump cleared (map some msgs) [] ≡ ok (printed (map kv_of (held ++ i ∷ is)), []))
unfolding encode
first-flush size cleared n i is [] fit room bound count small h short full =
    absurd (omega (arith, full, small.0.1))
first-flush size cleared n i is (d ∷ ds) fit room bound count small h short full =
    let (msgs, run, reads) =
      Later-read size cleared n is i [] fit room small.1 (small.0.0, tt)
        (omega (arith, small.0.1)) in
    (
      (htonl n ++ cut (d ∷ ds)) ∷ msgs,
      dump_loop-flush size i (map kv_of is) (htonl n ++ encode (d ∷ ds)) msgs
            (omega (arith, small.0.1)) full run
          ∙ ap (λ s. ok (s ∷ msgs)) (trimmed-encode (htonl n) d ds),
      read_dump-cut cleared n d ds (map some msgs) bound h (omega arith) (omega arith)
          ∙ (reads (map kv_of (d ∷ ds)) (rw (length-map kv_of (d ∷ ds)) (omega arith))
              ∙ simp map-append),
    )

-- All datagrams, sent for pairs behind the count and `held`, and read.
pub first-read :
    (size cleared n : ℕ) (is held : List Item)
    → size ≤ max_msg_size
    → size < cleared
    → n < 2 ^ 32
    → n ≡ length held + length is
    → All (IsSmall size) is
    → All IsItem held
    → 4 + length (encode held) ≤ size
    → (msgs : List Bytes) × (dump_loop size (map kv_of is) (htonl n ++ encode held) ≡ ok msgs)
      × (read_dump cleared (map some msgs) [] ≡ ok (printed (map kv_of (held ++ is)), []))
first-read size cleared n [] [] fit room bound count small h short =
    empty-read size cleared n count (omega arith)
first-read size cleared n [] (d ∷ ds) fit room bound count small h short = (
  (htonl n ++ cut (d ∷ ds)) ∷ [],
  dump_loop_end size (htonl n ++ encode (d ∷ ds))
      ∙ ap (λ s. ok (s ∷ [])) (trimmed-encode (htonl n) d ds),
  read_dump-cut cleared n d ds [] bound h (omega arith) (omega arith)
      ∙ (read_more_enough cleared n [] (map kv_of (d ∷ ds))
            (rw (length-map kv_of (d ∷ ds)) (omega arith))
          ∙ rw (append-nil ds) refl),
)
first-read size cleared n (i ∷ is) held fit room bound count small h short =
    elim (Bool-cases (ltb size (length (htonl n ++ encode held) + length (encode (i ∷ []))))) [
      | inl full ↦
          first-flush size cleared n i is held fit room bound count small h short (ltb→lt _ _ full)
      | inr fits ↦
          let (msgs, run, reads) =
            first-read size cleared n is (held ++ i ∷ []) fit room bound
              (rw (length-append held (i ∷ [])) (omega arith)) small.1 (All-snoc held i h small.0.0)
              (ground (arith, fits, length-encode_snoc held i)) in
          (
            msgs,
            dump_loop-fits size i (map kv_of is) (htonl n ++ encode held) (ground (arith, fits))
                ∙ (ap (λ s. dump_loop size (map kv_of is) (htonl n ++ s))
                      (sym (encode-append held (i ∷ [])))
                    ∙ run),
            reads ∙ simp append_assoc,
          )
    ]
