-- ===== src/Projet01/Server.antt =====
-- provided/grading/projet01/pps-launch-server.c: the loop of `main`, which knows get and put requests. A
-- message without a value, or with an empty one, is a get. `get_Htable_value` gives the stored value
-- itself and allocates nothing: it is the model of the later version, which copies it, on a memory
-- that never fails.
pub mod Same
use distributed_hash_table.Base.{
  ℕ, List, [], ◌∷◌, Option, none, some, Memory, Run, ok, fault, out_of_bounds, ◌>>=◌, take, drop,
  ltb, if◌then◌else◌,
}
use distributed_hash_table.CString.{Bytes, CharPointer, text_at, find_nul}
use distributed_hash_table.Hashtable as Final
use distributed_hash_table.Hashtable.{Htable, add_htable_value}
use distributed_hash_table.Network.{max_msg_size}

unfoldable pub get_htable_value : Htable → CharPointer → Run CharPointer
get_htable_value t key = Final.get_htable_value t key [] >>= λ (value, m). ok value

-- The value of the message; `none` where the message has no NUL or nothing behind it.
unfoldable pub value_of_message : Bytes → Option Bytes
value_of_message msg = elim (find_nul msg) [
  | none ↦ none
  | some rest ↦ elim (text_at (drop 1 rest)) [ [] ↦ none | c ∷ value ↦ some (c ∷ value) ]
]

-- The answer to a get request.
unfoldable pub answer_get : Htable → Bytes → Memory → Run (Htable × List Bytes × Memory)
answer_get t key m = get_htable_value t (some key) >>= λ value. elim value [
  | none ↦ ok (t, (0 ∷ []) ∷ [], m)
  | some v ↦ ok (t, v ∷ [], m)
]

-- The round for the message in the buffer.
unfoldable pub handle : Htable → Bytes → Memory → Run (Htable × List Bytes × Memory)
handle t msg m = elim (value_of_message msg) [
  | none ↦ answer_get t (text_at msg) m
  | some value ↦
      add_htable_value t (some (text_at msg)) (some value) m >>= λ (t', _, m'). ok (t', [] ∷ [], m')
]

-- One round: a datagram is cut to MAX_MSG_SIZE bytes; `none` stands for -1.
unfoldable pub server_step : Htable → Option Bytes → Memory → Run (Htable × List Bytes × Memory)
server_step t none m = ok (t, [], m)
server_step t (some datagram) m = handle t (take max_msg_size datagram) m

-- `sizeof(cli_addr)`, which is also what `recvfrom` leaves in `addr_len` for an address of IPv4.
abbrev pub sockaddr_size : ℕ
sockaddr_size = 16

-- The loop over what arrives, with `addr_len`: `memset` clears that many bytes of `cli_addr`, and then it is
-- set. Nothing sets it before the first round, so that its first value is a parameter.
unfoldable pub serve :
    ℕ → Htable → List (Option Bytes) → Memory → Run (Htable × List (List Bytes) × Memory)
serve addr_len t [] m = ok (t, [], m)
serve addr_len t (datagram ∷ later) m =
    let round : Run (Htable × List (List Bytes) × Memory) =
      server_step t datagram m >>= λ (t', sent, m').
      serve sockaddr_size t' later m' >>= λ (t'', rest, m''). ok (t'', sent ∷ rest, m'') in
    if ltb sockaddr_size addr_len then fault out_of_bounds else round
