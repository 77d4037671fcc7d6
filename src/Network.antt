-- ===== src/Network.antt =====
-- done/network.c: get and put over the servers that store a key.
--
-- The network enters as the results of the calls: `sockets` of the successive calls of `get_socket`,
-- and `replies` of the successive calls of `recv`, where `none` stands for -1; past its end, no reply
-- comes. What is sent is given back as pairs of a node and a message; the result of `sendto` is not
-- looked at. `close` and `free` change no value that is read later.
pub mod Quorum
pub mod Winner
pub mod Get
pub mod Overflow
pub mod Put
use distributed_hash_table.Base.{
  ℕ, zero, suc, ◌+◌, ◌-◌, ◌*◌, ◌%◌, ◌^◌, Bool, true, false, List, [], ◌∷◌, ◌++◌, map, Option, none,
  some, ltb, leb, ◌==◌, if◌then◌else◌, Memory, malloc, Run, ok, fault, out_of_bounds, ◌>>=◌, take,
  length,
}
use distributed_hash_table.Error.{ErrorCode, err_none, err_nomem, err_bad_parameter, err_network}
use distributed_hash_table.CString.{Bytes, CharPointer, text_at, find_nul, strdup}
use distributed_hash_table.Hashtable.{Htable, get_htable_value, add_htable_value, construct_htable}
use distributed_hash_table.Args.{Args}
use distributed_hash_table.System.{Platform}
use distributed_hash_table.Node.{Node}
use distributed_hash_table.Ring.{ring_get_nodes_for_key}

-- `MAX_MSG_ELEM_SIZE` and `MAX_MSG_SIZE` of done/config.h.
abbrev pub max_msg_elem_size : ℕ
max_msg_elem_size = 32753

abbrev pub max_msg_size : ℕ
max_msg_size = max_msg_elem_size * 2 + 1

-- `client_t`: its ring and its arguments.
pub record Client : Type 0 where
  pub name : Bytes
  pub nodes : List Node
  pub args : Args

-- `(unsigned int) c` for a `char` of value c, which is signed, of 8 bits.
abbrev pub unsigned_of_char : ℕ → ℕ
unsigned_of_char c = if ltb c 128 then c else 2 ^ 32 + c - 256

-- The value after `++value[0]`: a new NUL ends it at once, and over the NUL of an empty value no
-- terminator is left.
unfoldable pub bumped : ℕ → Bytes → Bytes
bumped c rest = let c' = (c + 1) % 256 in if c' == 0 then [] else c' ∷ rest

-- `increment_and_get`, with the code of `add_Htable_value` not looked at.
unfoldable pub increment_and_get : Htable → Bytes → Memory → Run (ℕ × Htable × Memory)
increment_and_get t key m = get_htable_value t (some key) m >>= λ (value, m₁). elim value [
  | none ↦ add_htable_value t (some key) (some (1 ∷ [])) m₁ >>= λ (t', _, m₂). ok (1, t', m₂)
  | some [] ↦ fault out_of_bounds
  | some (c ∷ rest) ↦ add_htable_value t (some key) (some (bumped c rest)) m₁ >>= λ (t', _, m₂).
      ok (unsigned_of_char ((c + 1) % 256), t', m₂)
]

-- The C string at the start of a clear buffer of `size` bytes, after `recv` of a datagram into it: a
-- message that fills the buffer without a NUL is not terminated.
unfoldable pub buffer_text : ℕ → Bytes → Run Bytes
buffer_text size msg = elim (find_nul (take size msg)) [
  | some _ ↦ ok (text_at (take size msg))
  | none ↦ if ltb (length msg) size then ok (text_at msg) else fault out_of_bounds
]

-- The one byte NUL with which a server answers that it has no such key.
abbrev pub is_missing : Bytes → Bool
is_missing [] = false
is_missing (c ∷ []) = c == 0
is_missing (c ∷ d ∷ rest) = false

-- The end of a successful get: the copy of the message.
unfoldable pub answer : Bytes → Memory → ErrorCode × CharPointer × Memory
answer text m =
    let (value, m') = strdup (some text) m in
    elim value [ some v ↦ (err_none, some v, m') | none ↦ (err_nomem, none, m') ]

-- The second `for` loop of `network_get`, with the rounds left.
unfoldable pub get_loop :
    ℕ → List (Option Bytes) → Htable → ℕ → Memory → Run (ErrorCode × CharPointer × Memory)
get_loop zero replies t r m = ok (err_network, none, m)
get_loop (suc n) [] t r m = ok (err_network, none, m)
get_loop (suc n) (none ∷ replies) t r m = ok (err_network, none, m)
get_loop (suc n) (some msg ∷ replies) t r m =
    let counted = buffer_text max_msg_size msg >>= λ text.
    increment_and_get t text m >>= λ (count, t', m').
    let later = get_loop n replies t' r m' in if leb r count then ok (answer text m') else later in
    if is_missing msg then ok (err_network, none, m) else counted

-- The second `for` loop of `network_put`: the rounds left, and the nodes that have answered.
unfoldable pub put_loop : ℕ → List (Option Bytes) → ℕ → ℕ → ℕ
put_loop zero replies w contacted = contacted
put_loop (suc n) [] w contacted = contacted
put_loop (suc n) (none ∷ replies) w contacted = contacted
put_loop (suc n) (some msg ∷ replies) w contacted =
    let later = put_loop n replies w (contacted + 1) in
    if leb w (contacted + 1) then contacted + 1 else later

-- The code of `create_socket`.
abbrev pub create_socket : Option ℕ → ErrorCode
create_socket none = err_network
create_socket (some fd) = err_none

module _ (platform : Platform) where
  -- `network_get` from the construction of the table on; the value is behind the pointer.
  unfoldable pub get_from_ring :
      ℕ
      → Client
      → Bytes
      → List (Option Bytes)
      → Memory
      → Run (ErrorCode × CharPointer × List (Node × Bytes) × Memory)
  get_from_ring fuel client key replies m =
      let (t, m₁) = construct_htable client.args.n m in
      elim t.buckets [
        | none ↦ ok (err_nomem, none, [], m₁)
        | some _ ↦
            ring_get_nodes_for_key platform fuel client.nodes client.args.n key m₁ >>= λ (list, m₂).
            elim list [
              | none ↦ ok (err_nomem, none, [], m₂)
              | some nodes ↦
                  get_loop (length nodes) replies t client.args.r m₂ >>= λ (code, value, m₃).
                  ok (code, value, map (λ node. (node, key)) nodes, m₃)
            ]
      ]

  -- `network_get`: the value that the pointer held before, the result of `get_socket`, the replies.
  unfoldable pub network_get :
      ℕ
      → Client
      → CharPointer
      → CharPointer
      → Option ℕ
      → List (Option Bytes)
      → Memory
      → Run (ErrorCode × CharPointer × List (Node × Bytes) × Memory)
  network_get fuel client none before socket replies m = ok (err_bad_parameter, before, [], m)
  network_get fuel client (some key) before socket replies m =
      if ltb max_msg_size (length key) then ok (err_bad_parameter, before, [], m) else elim socket [
        | none ↦ ok (err_network, none, [], m)
        | some _ ↦ get_from_ring fuel client key replies m
      ]

  -- `create_cat_packet`; `none` stands for NULL.
  unfoldable pub create_cat_packet : Bytes → Bytes → Memory → Option Bytes × Memory
  create_cat_packet key value m =
      let (got, m') = malloc m in (if got then some (key ++ 0 ∷ value) else none, m')

  -- `network_put` from the call of `create_cat_packet` on.
  unfoldable pub put_to_ring :
      ℕ
      → Client
      → Bytes
      → Bytes
      → List (Option Bytes)
      → Memory
      → Run (ErrorCode × List (Node × Bytes) × Memory)
  put_to_ring fuel client key value replies m =
      let (packet, m₁) = create_cat_packet key value m in
      elim packet [
        | none ↦ ok (err_nomem, [], m₁)
        | some msg ↦
            ring_get_nodes_for_key platform fuel client.nodes client.args.n key m₁ >>= λ (list, m₂).
            elim list [
              | none ↦ ok (err_nomem, [], m₂)
              | some nodes ↦
                  let contacted = put_loop (length nodes) replies client.args.w 0 in
                  ok (
                    if ltb contacted client.args.w then err_network else err_none,
                    map (λ node. (node, msg)) nodes,
                    m₂,
                  )
            ]
      ]

  -- `network_put`: the code, and what was sent. The macro around `create_socket` evaluates the call
  -- again to return its code, so that two results of `get_socket` are given.
  unfoldable pub network_put :
      ℕ
      → Client
      → CharPointer
      → CharPointer
      → Option ℕ
      → Option ℕ
      → List (Option Bytes)
      → Memory
      → Run (ErrorCode × List (Node × Bytes) × Memory)
  network_put fuel client none value first second replies m = ok (err_bad_parameter, [], m)
  network_put fuel client (some key) none first second replies m = ok (err_bad_parameter, [], m)
  network_put fuel client (some key) (some value) first second replies m =
      if ltb max_msg_size (length key)
      then ok (err_bad_parameter, [], m)
      else if ltb max_msg_size (length value)
      then ok (err_bad_parameter, [], m)
      else elim (create_socket first) [
        | err_none ↦ put_to_ring fuel client key value replies m
        | _ ↦ ok (create_socket second, [], m)
      ]
