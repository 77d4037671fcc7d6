-- ===== src/Projet02/Server.antt =====
-- provided/grading/projet02/pps-launch-server.c: one round takes what `recvfrom` gives, as in Server. The
-- table is that of done/hashtable.c but for `get_Htable_content`, and a `char` that is sent as the answer
-- to an unknown key is the NUL.
pub mod Same
use distributed_hash_table.Base.{
  ℕ, ◌+◌, ◌*◌, ◌/◌, ◌%◌, ◌^◌, List, [], ◌∷◌, ◌++◌, Option, none, some, ltb, ◌==◌, if◌then◌else◌,
  Memory, malloc, Run, ok, fault, null_pointer, double_free, out_of_bounds, ◌>>=◌, take, drop,
  length,
}
use distributed_hash_table.CString.{Bytes, text_at, find_nul}
use distributed_hash_table.Hashtable as Final
use distributed_hash_table.Hashtable.{KvPair, Htable, get_htable_value, add_htable_value}
use distributed_hash_table.Network.{max_msg_size}
use distributed_hash_table.Server.{write_pair}

-- `MAX_UDP_SIZE`.
abbrev pub max_udp_size : ℕ
max_udp_size = 65507

-- `get_Htable_content` of provided/grading/projet02/hashtable.c: when a realloc fails the list is freed
-- twice.
unfoldable pub get_htable_content : Htable → Memory → Run (Option (List KvPair) × Memory)
get_htable_content t m = Final.get_htable_content t m >>= λ (list, m'). elim list [
  | none ↦ if (malloc m).0 then fault double_free else ok (none, m')
  | some pairs ↦ ok (some pairs, m')
]

-- `htonl` as a number, on a machine that stores the low byte first.
abbrev pub htonl : ℕ → ℕ
htonl n = n % 256 * 2 ^ 24 + n / 2 ^ 8 % 256 * 2 ^ 16 + n / 2 ^ 16 % 256 * 2 ^ 8 + n / 2 ^ 24 % 256

-- The loop that writes the count: byte i is `size_to_send >> (8 * (3 - i))`.
unfoldable pub count_bytes : ℕ → Bytes
count_bytes n =
    let size_to_send = htonl n in
    (size_to_send / 2 ^ 24 % 256)
    ∷ (size_to_send / 2 ^ 16 % 256)
    ∷ (size_to_send / 2 ^ 8 % 256)
    ∷ (size_to_send % 256)
    ∷ []

-- One pass of the `for` loop over the pairs: what is sent, and the bytes in the buffer.
unfoldable pub dump_pair : KvPair → Bytes → Run (List Bytes × Bytes)
dump_pair kv msg = elim kv.key [
  | none ↦ fault null_pointer
  | some key ↦ elim kv.value [
    | none ↦ fault null_pointer
    | some value ↦
        if ltb max_udp_size (length msg + (length key + 1) + (length value + 1))
        then (write_pair max_udp_size [] key value >>= λ msg'. ok (msg ∷ [], msg'))
        else (write_pair max_udp_size msg key value >>= λ msg'. ok ([], msg'))
  ]
]

-- The `for` loop and the last datagram.
unfoldable pub dump_loop : List KvPair → Bytes → Run (List Bytes)
dump_loop [] msg = ok (msg ∷ [])
dump_loop (kv ∷ rest) msg =
    dump_pair kv msg >>= λ (sent, msg'). dump_loop rest msg' >>= λ later. ok (sent ++ later)

-- The answer to a dump-node request.
unfoldable pub dump : Htable → Memory → Run (List Bytes × Memory)
dump t m = get_htable_content t m >>= λ (list, m₁). elim list [
  | none ↦ fault null_pointer
  | some pairs ↦
      let (got, m₂) = malloc m₁ in
      let sent = dump_loop pairs (count_bytes (length pairs)) >>= λ sent. ok (sent, m₂) in
      if got then sent else ok ([], m₂)
]

-- `val` and `val_len`: a NUL that ends the message is the empty value, of length 1; `none` stands for NULL.
unfoldable pub value_part : Bytes → Option (Bytes × ℕ)
value_part msg = elim (find_nul msg) [
  | none ↦ none
  | some rest ↦
      let val = text_at (drop 1 rest) in
      some (if length (text_at msg) + 1 == length msg then ([], 1) else (val, length val))
]

-- The answer to a get request.
unfoldable pub answer_get : Htable → Bytes → Memory → Run (Htable × List Bytes × Memory)
answer_get t key m = get_htable_value t (some key) m >>= λ (val, m'). elim val [
  | none ↦ ok (t, (0 ∷ []) ∷ [], m')
  | some v ↦ ok (t, v ∷ [], m')
]

-- The answer to a put request.
unfoldable pub answer_put : Htable → Bytes → Bytes → Memory → Run (Htable × List Bytes × Memory)
answer_put t key val m =
    add_htable_value t (some key) (some val) m >>= λ (t', _, m'). ok (t', [] ∷ [], m')

-- The last two branches: a get request without a value, a put request with one.
unfoldable pub answer_key :
    Htable → Bytes → Option (Bytes × ℕ) → Memory → Run (Htable × List Bytes × Memory)
answer_key t key none m = answer_get t key m
answer_key t key (some (val, val_len)) m =
    if val_len == 0 then answer_get t key m else answer_put t key val m

-- The round for the message in the buffer.
unfoldable pub handle : Htable → Bytes → Memory → Run (Htable × List Bytes × Memory)
handle t [] m = ok (t, [] ∷ [], m)
handle t (c ∷ []) m =
    let dumped = dump t m >>= λ (sent, m'). ok (t, sent, m') in
    if c == 0 then dumped else answer_key t (text_at (c ∷ [])) (value_part (c ∷ [])) m
handle t (c ∷ d ∷ msg) m = answer_key t (text_at (c ∷ d ∷ msg)) (value_part (c ∷ d ∷ msg)) m

-- A datagram is cut to MAX_MSG_SIZE bytes.
unfoldable pub server_step : Htable → Option Bytes → Memory → Run (Htable × List Bytes × Memory)
server_step t none m = ok (t, [], m)
server_step t (some datagram) m = handle t (take max_msg_size datagram) m

-- `sizeof(cli_addr)`, which is also what `recvfrom` leaves in `addr_len` for an address of IPv4.
abbrev pub sockaddr_size : ℕ
sockaddr_size = 16

-- The loop over what arrives, with `addr_len`: `memset` clears that many bytes of `cli_addr`, and then it is
-- set. Nothing sets it before the first round, so that its first value is a parameter.
unfoldable pub serve :
    ℕ → Htable → List (Option Bytes) → Memory → Run (Htable × List (List Bytes) × Memory)
serve addr_len t [] m = ok (t, [], m)
serve addr_len t (datagram ∷ later) m =
    let round : Run (Htable × List (List Bytes) × Memory) =
      server_step t datagram m >>= λ (t', sent, m').
      serve sockaddr_size t' later m' >>= λ (t'', rest, m''). ok (t'', sent ∷ rest, m'') in
    if ltb sockaddr_size addr_len then fault out_of_bounds else round
