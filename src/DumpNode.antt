-- ===== src/DumpNode.antt =====
-- done/pps-dump-node.c: all the pairs of one server. `recv` enters as the list of its results, `none`
-- for -1; past its end, no datagram comes. The request is sent before the part modelled, and what is
-- printed are the pairs.
--
-- The buffer is cleared up to MAX_MSG_SIZE before each `recv`, and its last byte never is: `cleared`
-- is the number of bytes of the buffer that are 0 before `recv`, MAX_MSG_SIZE, or one more when the last
-- byte happens to be 0. A string that reaches behind them is a fault.
pub mod Items
pub mod Reads
pub mod Sends
pub mod Later
pub mod Datagrams
pub mod RoundTrip
pub mod Main
use distributed_hash_table.Base.{
  ℕ, zero, suc, ◌+◌, ◌-◌, ◌*◌, ◌/◌, ◌%◌, ◌^◌, Bool, true, false, List, [], ◌∷◌, ◌++◌, Option, none,
  some, ltb, ◌==◌, if◌then◌else◌, Memory, malloc, Run, ok, fault, out_of_bounds, no_end, ◌>>=◌,
  take, drop, length,
}
use distributed_hash_table.CString.{Bytes, CharPointer, text_at, strdup}
use distributed_hash_table.Hashtable.{KvPair}
use distributed_hash_table.Network.{max_msg_size}

-- How the program ends: with the pairs printed, with FAIL when nothing comes, or silently when a
-- realloc fails.
pub data Ending : Type 0 where
  printed : List KvPair → Ending
  failed out_of_memory : Ending

-- The string at a position of the buffer, where `room` bytes of it are left and `s` of the message.
unfoldable pub string_from : ℕ → Bytes → Run Bytes
string_from room s = if ltb (length (text_at s)) room then ok (text_at s) else fault out_of_bounds

-- The pair is copied to the two arrays; `none` when a realloc fails.
unfoldable pub keep_pair : Bytes → Bytes → Memory → Option KvPair × Memory
keep_pair key value m =
    let (got, m₁) = malloc m in
    let (k, m₂) = strdup (some key) m₁ in
    let (got', m₃) = malloc m₂ in
    let (v, m₄) = strdup (some value) m₃ in
    if got
    then (if got' then (some (record { key = k; value = v }), m₄) else (none, m₃))
    else (none, m₁)

-- The inner loop, with fuel: the pairs read so far, and the rest of buffer and message.
unfoldable pub read_pairs :
    ℕ → ℕ → Bytes → List KvPair → Memory → Run (Option (List KvPair) × Memory)
read_pairs zero room s pairs m = fault no_end
read_pairs (suc fuel) room s pairs m = string_from room s >>= λ key. elim key [
  | [] ↦ ok (some pairs, m)
  | c ∷ rest ↦
      let key_len = length (c ∷ rest) + 1 in
      string_from (room - key_len) (drop key_len s) >>= λ value.
      let value_len = length value + 1 in
      let (kept, m') = keep_pair (c ∷ rest) value m in
      elim kept [
        | none ↦ ok (none, m')
        | some kv ↦
            read_pairs fuel (room - key_len - value_len) (drop value_len (drop key_len s))
              (pairs ++ kv ∷ []) m'
      ]
]

-- `ntohl` of the first four bytes.
unfoldable pub ntohl : Bytes → ℕ
ntohl (a ∷ b ∷ c ∷ d ∷ _) = a * 2 ^ 24 + b * 2 ^ 16 + c * 2 ^ 8 + d
ntohl (a ∷ b ∷ c ∷ []) = a * 2 ^ 24 + b * 2 ^ 16 + c * 2 ^ 8
ntohl (a ∷ b ∷ []) = a * 2 ^ 24 + b * 2 ^ 16
ntohl (a ∷ []) = a * 2 ^ 24
ntohl [] = 0

-- The outer loop behind the first datagram.
unfoldable pub read_more :
    ℕ → ℕ → List (Option Bytes) → List KvPair → Memory → Run (Ending × Memory)
read_more cleared nbr_pairs [] pairs m =
    if ltb (length pairs) nbr_pairs then ok (failed, m) else ok (printed pairs, m)
read_more cleared nbr_pairs (none ∷ replies) pairs m =
    if ltb (length pairs) nbr_pairs then ok (failed, m) else ok (printed pairs, m)
read_more cleared nbr_pairs (some msg ∷ replies) pairs m =
    let next = read_pairs (suc cleared) cleared (take max_msg_size msg) pairs m >>= λ (found, m').
    elim found [
      | none ↦ ok (out_of_memory, m')
      | some pairs' ↦ read_more cleared nbr_pairs replies pairs' m'
    ] in
    if ltb (length pairs) nbr_pairs then next else ok (printed pairs, m)

-- The outer loop: the first datagram starts with the number of pairs.
unfoldable pub read_dump : ℕ → List (Option Bytes) → Memory → Run (Ending × Memory)
read_dump cleared [] m = ok (failed, m)
read_dump cleared (none ∷ replies) m = ok (failed, m)
read_dump cleared (some msg ∷ replies) m =
    read_pairs (suc cleared) (cleared - 4) (drop 4 (take max_msg_size msg)) [] m >>= λ (found, m').
    elim found [
      | none ↦ ok (out_of_memory, m')
      | some pairs ↦ read_more cleared (ntohl (take max_msg_size msg)) replies pairs m'
    ]
