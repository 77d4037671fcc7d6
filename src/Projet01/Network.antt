-- ===== src/Projet01/Network.antt =====
-- provided/grading/projet01/network.c. An `Exchange` holds what `sendto` and `recv` give for one node,
-- `none` standing for -1; past the end of the list `sendto` fails. `deep_str_copy` gives the
-- copies that `strdup` gives.
pub mod First
use distributed_hash_table.Base.{
  ℕ, zero, suc, ◌+◌, Bool, true, false, List, [], ◌∷◌, ◌++◌, Option, none, some, length, ltb, ◌==◌,
  if◌then◌else◌, Memory, Run, ok, fault, null_pointer, ◌>>=◌, take, drop, map,
}
use distributed_hash_table.Error.{ErrorCode, err_none, err_nomem, err_bad_parameter, err_network}
use distributed_hash_table.CString.{Bytes, CharPointer}
use distributed_hash_table.System.{Platform, SocketAddress}
use distributed_hash_table.Network.{max_msg_size, buffer_text, answer, create_cat_packet}
use distributed_hash_table.Projet01.Client.{Client}

pub record Exchange : Type 0 where
  pub sent : Option ℕ
  pub received : Option Bytes

-- The buffer after `recv` of a datagram: behind it stands what stood there before, and behind all
-- that was written the buffer is clear.
unfoldable pub received_into : Bytes → Bytes → Bytes
received_into buffer msg = let cut = take max_msg_size msg in cut ++ drop (length cut) buffer

-- `in_msg[0] == '\0'`.
abbrev pub starts_with_nul : Bytes → Bool
starts_with_nul [] = true
starts_with_nul (c ∷ s) = c == 0

-- The datagram of an exchange; `none` where one of the calls gives -1.
unfoldable pub reply_of : Exchange → Option Bytes
reply_of e = elim e.sent [ none ↦ none | some size ↦ e.received ]

-- The `for` loop of `network_get`, over the nodes left, with the buffer: the code, the value, and the
-- nodes asked.
unfoldable pub get_loop :
    List SocketAddress
    → List Exchange
    → Bytes
    → Memory
    → Run (ErrorCode × CharPointer × List SocketAddress × Memory)
get_loop [] exchanges buffer m = ok (err_network, none, [], m)
get_loop (node ∷ nodes) [] buffer m =
    get_loop nodes [] buffer m >>= λ (code, value, asked, m'). ok (code, value, node ∷ asked, m')
get_loop (node ∷ nodes) (e ∷ exchanges) buffer m = elim (reply_of e) [
  | none ↦ get_loop nodes exchanges buffer m >>= λ (code, value, asked, m').
      ok (code, value, node ∷ asked, m')
  | some msg ↦
      let buffer' = received_into buffer msg in
      let missed = get_loop nodes exchanges buffer' m >>= λ (code, value, asked, m').
      ok (code, value, node ∷ asked, m') in
      let found = buffer_text max_msg_size buffer' >>= λ text.
      let (code, value, m') = answer text m in ok (code, value, node ∷ [], m') in
      if starts_with_nul buffer' then missed else found
]

-- `network_get`: the value that the pointer held is freed.
unfoldable pub network_get :
    Client
    → CharPointer
    → CharPointer
    → List Exchange
    → Memory
    → Run (ErrorCode × CharPointer × List (SocketAddress × Bytes) × Memory)
network_get client none before exchanges m = fault null_pointer
network_get client (some key) before exchanges m =
    let go = get_loop client.nodes exchanges [] m >>= λ (code, value, asked, m').
    ok (code, value, map (λ node. (node, key)) asked, m') in
    if ltb max_msg_size (length key) then ok (err_bad_parameter, before, [], m) else go

-- The `for` loop of `network_put`: `put_error`.
unfoldable pub put_loop : List SocketAddress → List Exchange → ℕ → ℕ
put_loop [] exchanges put_error = put_error
put_loop (node ∷ nodes) [] put_error = put_loop nodes [] (put_error + 1)
put_loop (node ∷ nodes) (e ∷ exchanges) put_error = elim (reply_of e) [
  | none ↦ put_loop nodes exchanges (put_error + 1)
  | some msg ↦ put_loop nodes exchanges put_error
]

-- `network_put`: the code, and what was sent.
unfoldable pub network_put :
    Platform
    → Client
    → CharPointer
    → CharPointer
    → List Exchange
    → Memory
    → Run (ErrorCode × List (SocketAddress × Bytes) × Memory)
network_put platform client none value exchanges m = fault null_pointer
network_put platform client (some key) none exchanges m =
    if ltb max_msg_size (length key) then ok (err_bad_parameter, [], m) else fault null_pointer
network_put platform client (some key) (some value) exchanges m =
    let (packet, m') = create_cat_packet platform key value m in
    let go : Run (ErrorCode × List (SocketAddress × Bytes) × Memory) = elim packet [
      | none ↦ ok (err_nomem, [], m')
      | some msg ↦ ok (
        if ltb 0 (put_loop client.nodes exchanges 0) then err_network else err_none,
        map (λ node. (node, msg)) client.nodes,
        m',
      )
    ] in
    if ltb max_msg_size (length key)
    then ok (err_bad_parameter, [], m)
    else if ltb max_msg_size (length value)
    then ok (err_bad_parameter, [], m)
    else go
