-- ===== src/Server.antt =====
-- done/pps-launch-server.c: the server loop. One round takes what `recvfrom` gives, `none` for -1, and
-- gives the datagrams sent back to that client. The table is the local variable `table`.
pub mod Protocol
pub mod Trace
pub mod Answers
pub mod DumpOverflow
pub mod Main
pub mod Blocks
use distributed_hash_table.Base.{
  ℕ, zero, suc, ◌+◌, ◌-◌, ◌/◌, ◌%◌, ◌^◌, Bool, true, false, List, [], ◌∷◌, ◌++◌, Option, none, some,
  ltb, ◌==◌, if◌then◌else◌, ◌&&◌, ◌||◌, Memory, malloc, Run, ok, fault, null_pointer, out_of_bounds,
  ◌>>=◌, take, drop, length,
}
use distributed_hash_table.CString.{Bytes, CharPointer, text_at, find_nul}
use distributed_hash_table.Hashtable.{
  KvPair, Htable, get_htable_value, add_htable_value, get_htable_content,
}
use distributed_hash_table.Network.{max_msg_size}

-- `val` and `val_len` as the handler sets them: the text that `val` points to.
pub record ValuePart : Type 0 where
  pub text : Bytes
  pub len : ℕ

-- A NUL that ends the message is the empty value, of length 1; `none` stands for NULL.
unfoldable pub value_part : Bytes → Option ValuePart
value_part msg = elim (find_nul msg) [
  | none ↦ none
  | some rest ↦ some (
      if length (text_at msg) + 1 == length msg
      then record { text = []; len = 1 }
      else record { text = text_at (drop 1 rest); len = length (text_at (drop 1 rest)) })
]

-- `htonl`, as bytes.
abbrev pub htonl : ℕ → Bytes
htonl n = (n / 2 ^ 24 % 256) ∷ (n / 2 ^ 16 % 256) ∷ (n / 2 ^ 8 % 256) ∷ (n % 256) ∷ []

-- What `sendto(socket, msg, current_size - 1, …)` sends of the bytes written so far.
unfoldable pub trimmed : Bytes → Bytes
trimmed msg = take (length msg - 1) msg

-- The two `strcpy`: key and value with their NULs, behind the bytes written so far, into a buffer of
-- `size` bytes.
unfoldable pub write_pair : ℕ → Bytes → Bytes → Bytes → Run Bytes
write_pair size msg key value =
    let written = msg ++ (key ++ 0 ∷ (value ++ 0 ∷ [])) in
    if ltb size (length written) then fault out_of_bounds else ok written

-- One pass of the `for` loop over the pairs: what is sent, and the bytes in the buffer.
unfoldable pub dump_pair : ℕ → KvPair → Bytes → Run (List Bytes × Bytes)
unfolding write_pair trimmed
dump_pair size kv msg = elim kv.key [
  | none ↦ fault null_pointer
  | some key ↦ elim kv.value [
    | none ↦ fault null_pointer
    | some value ↦
        if ltb size (length msg + (length key + 1) + (length value + 1))
        then (write_pair size [] key value >>= λ msg'. ok (trimmed msg ∷ [], msg'))
        else (write_pair size msg key value >>= λ msg'. ok ([], msg'))
  ]
]

-- The `for` loop and the last datagram.
unfoldable pub dump_loop : ℕ → List KvPair → Bytes → Run (List Bytes)
unfolding dump_pair
dump_loop size [] msg = ok (trimmed msg ∷ [])
dump_loop size (kv ∷ rest) msg = dump_pair size kv msg >>= λ (sent, msg').
    dump_loop size rest msg' >>= λ later. ok (sent ++ later)

-- The answer to a dump-node request.
unfoldable pub dump : Htable → Memory → Run (List Bytes × Memory)
dump t m = get_htable_content t m >>= λ (list, m₁).
    let (got, m₂) = malloc m₁ in
    let sent : Run (List Bytes × Memory) = elim list [
      | none ↦ fault null_pointer
      | some pairs ↦ dump_loop max_msg_size pairs (htonl (length pairs)) >>= λ sent. ok (sent, m₂)
    ] in
    if got then sent else ok ([], m₂)

-- The answer to a get request.
unfoldable pub answer_get : Htable → Bytes → Memory → Run (Htable × List Bytes × Memory)
answer_get t key m = get_htable_value t (some key) m >>= λ (value, m'). elim value [
  | none ↦ ok (t, (0 ∷ []) ∷ [], m')
  | some v ↦ ok (t, v ∷ [], m')
]

-- The answer to a put request; the code of `add_Htable_value` is not looked at.
unfoldable pub answer_put : Htable → Bytes → Bytes → Memory → Run (Htable × List Bytes × Memory)
answer_put t key value m =
    add_htable_value t (some key) (some value) m >>= λ (t', _, m'). ok (t', [] ∷ [], m')

-- The last two branches: a get request without a value, a put request with one.
unfoldable pub answer_key :
    Htable → Bytes → Option ValuePart → Memory → Run (Htable × List Bytes × Memory)
answer_key t key none m = answer_get t key m
answer_key t key (some v) m = if v.len == 0 then answer_get t key m else answer_put t key v.text m

-- The round for the message in the buffer.
unfoldable pub handle : Htable → Bytes → Memory → Run (Htable × List Bytes × Memory)
unfolding answer_key
handle t [] m = ok (t, [] ∷ [], m)
handle t (c ∷ []) m =
    let dumped = dump t m >>= λ (sent, m'). ok (t, sent, m') in
    if c == 0 then dumped else answer_key t (text_at (c ∷ [])) (value_part (c ∷ [])) m
handle t (c ∷ d ∷ msg) m = answer_key t (text_at (c ∷ d ∷ msg)) (value_part (c ∷ d ∷ msg)) m

-- A datagram is cut to MAX_MSG_SIZE bytes.
unfoldable pub server_step : Htable → Option Bytes → Memory → Run (Htable × List Bytes × Memory)
server_step t none m = ok (t, [], m)
server_step t (some datagram) m = handle t (take max_msg_size datagram) m

-- The loop over what arrives.
unfoldable pub serve :
    Htable → List (Option Bytes) → Memory → Run (Htable × List (List Bytes) × Memory)
serve t [] m = ok (t, [], m)
serve t (datagram ∷ later) m = server_step t datagram m >>= λ (t', sent, m').
    serve t' later m' >>= λ (t'', rest, m''). ok (t'', sent ∷ rest, m'')
