-- ===== src/Projet01/Network/First.antt =====
-- `network_get` of provided/grading/projet01/network.c takes the first value that comes.
use distributed_hash_table.Base.{
  ℕ, suc, ◌≤◌, ◌<◌, ◌≡◌, refl, sym, inl, inr, ◌⊎◌, List, [], ◌∷◌, Option, none, some, true, false,
  ok, arith, length, take, take_all, map, drop_all, Bool-cases, Option-cases, All, le→ltb,
  if◌then◌else◌,
}
use mathlib.Core.Path.{subst}
use mathlib.Core.List.{append-nil}
use distributed_hash_table.CString.{Bytes, CharPointer, text_at, strdup}
use distributed_hash_table.System.{SocketAddress}
use distributed_hash_table.Network.{max_msg_size, answer}
use distributed_hash_table.Network.Quorum.{decision, buffer_text_lem}
use distributed_hash_table.Projet01.Client.{Client}
use distributed_hash_table.Projet01.Network.{
  Exchange, received_into, starts_with_nul, reply_of, get_loop, network_get,
}

-- The first value, of the answers of the nodes.
unfoldable pub first_value : List SocketAddress → List Exchange → Option Bytes
first_value [] exchanges = none
first_value (node ∷ nodes) [] = first_value nodes []
first_value (node ∷ nodes) (e ∷ exchanges) =
    let later = first_value nodes exchanges in
    elim (reply_of e) [
      | none ↦ later
      | some msg ↦ if starts_with_nul msg then later else some (text_at msg)
    ]

-- A datagram that leaves room for a NUL and that starts with a NUL only if it is that byte.
abbrev pub IsReply : Option Bytes → Type 0
IsReply none = Unit
IsReply (some msg) =
    (length msg < max_msg_size) × ((starts_with_nul msg ≡ false) ⊎ (length msg ≤ 1))

-- The buffer holds at most a NUL.
abbrev IsClear : Bytes → Type 0
IsClear buffer = (starts_with_nul buffer ≡ true) × (length buffer ≤ 1)

received_into-longer :
    (buffer msg : Bytes)
    → length msg < max_msg_size
    → length buffer ≤ length msg
    → received_into buffer msg ≡ msg
unfolding received_into
received_into-longer buffer msg fit long =
    rw (take_all max_msg_size msg (omega arith), drop_all (length msg) buffer long) (append-nil msg)

-- A value is all that is in the buffer then.
received_into-value :
    (buffer msg : Bytes)
    → IsClear buffer
    → length msg < max_msg_size
    → starts_with_nul msg ≡ false
    → received_into buffer msg ≡ msg
received_into-value buffer [] c fit h = absurd (cc)
received_into-value buffer (x ∷ msg) c fit h =
    received_into-longer buffer (x ∷ msg) fit (omega (arith, c.1))

received_into-nul :
    (buffer msg : Bytes)
    → IsClear buffer
    → length msg ≤ 1
    → starts_with_nul msg ≡ true
    → IsClear (received_into buffer msg)
unfolding received_into
received_into-nul buffer [] c fit h = c
received_into-nul buffer (x ∷ msg) c fit h =
    subst IsClear (sym (received_into-longer buffer (x ∷ msg) (omega arith) (omega (arith, c.1))))
      (h, fit)

-- What the loop gives after it has asked the first of the nodes.
pub record Takes (nodes : List SocketAddress) (exchanges : List Exchange) (buffer : Bytes)
    : Type 0 where
  pub asked : ℕ
  pub few : asked ≤ length nodes
  pub run :
      get_loop nodes exchanges buffer []
      ≡ ok (
        (decision (first_value nodes exchanges)).0,
        (decision (first_value nodes exchanges)).1,
        take asked nodes,
        [],
      )

get_loop-Takes :
    (nodes : List SocketAddress) (exchanges : List Exchange) (buffer : Bytes)
    → IsClear buffer
    → All (λ e. IsReply (reply_of e)) exchanges
    → Takes nodes exchanges buffer
unfolding get_loop first_value answer strdup
get_loop-Takes [] exchanges buffer c fit = record { asked = 0; few = omega arith; run = refl }
get_loop-Takes (node ∷ nodes) [] buffer c fit =
    let later = get_loop-Takes nodes [] buffer c fit in
    record { asked = suc later.asked; few = omega (arith, later.few); run = rw later.run refl }
get_loop-Takes (node ∷ nodes) (e ∷ exchanges) buffer c fit = elim (Option-cases (reply_of e)) [
  | inl gone ↦
      let later = get_loop-Takes nodes exchanges buffer c fit.1 in
      record {
        asked = suc later.asked;
        few = omega (arith, later.few);
        run = rw (get_loop, first_value, gone, later.run) refl;
      }
  | inr (msg, came) ↦
      let (short, form) = subst IsReply came fit.0 in
      elim (Bool-cases (starts_with_nul msg)) [
        | inl nul ↦
            let one : length msg ≤ 1 = elim form [ inl value ↦ absurd (cc) | inr h ↦ h ] in
            let clear = received_into-nul buffer msg c one nul in
            let later = get_loop-Takes nodes exchanges (received_into buffer msg) clear fit.1 in
            record {
              asked = suc later.asked;
              few = omega (arith, later.few);
              run = rw (get_loop, first_value, came, clear.0, nul, later.run) refl;
            }
        | inr value ↦ record {
          asked = 1;
          few = omega arith;
          run =
              rw
                (
                  get_loop,
                  first_value,
                  came,
                  received_into-value buffer msg c short value,
                  value,
                  buffer_text_lem max_msg_size msg short,
                )
                refl;
        }
      ]
]

-- The week-7 `network_get` with a key of legal length and enough memory, where every datagram leaves room
-- for a NUL and starts with one only if it is that byte: the key is sent to the first nodes. The value is
-- the first that a node answers, with ERR_NONE; if none does, the code is ERR_NETWORK and the value
-- is NULL.
pub network_get-first_value :
    (client : Client) (key : Bytes) (before : CharPointer) (exchanges : List Exchange)
    → length key ≤ max_msg_size
    → All (λ e. IsReply (reply_of e)) exchanges
    → (asked : ℕ) × (asked ≤ length client.nodes)
      × (network_get client (some key) before exchanges []
          ≡ ok (
            (decision (first_value client.nodes exchanges)).0,
            (decision (first_value client.nodes exchanges)).1,
            map (λ node. (node, key)) (take asked client.nodes),
            [],
          ))
unfolding network_get
network_get-first_value client key before exchanges short fit =
    let loop = get_loop-Takes client.nodes exchanges [] (refl, omega arith) fit in
    (loop.asked, loop.few, rw (le→ltb max_msg_size (length key) short, loop.run) refl)
