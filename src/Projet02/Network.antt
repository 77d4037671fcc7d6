-- ===== src/Projet02/Network.antt =====
-- provided/grading/projet02/network.c: get and put ask the first N nodes, one after the other, and
-- check where each answer comes from.
--
-- An `Exchange` holds the results of the two calls for one node, `none` standing for -1; past the end
-- of the list `sendto` fails. `create_cat_packet` and `increment_and_get` do what they do in done/network.c.
pub mod Senders
pub mod Quorum
pub mod Get
pub mod Put
pub mod Compare
use distributed_hash_table.Base.{
  ℕ, zero, suc, ◌+◌, Bool, true, false, List, [], ◌∷◌, Option, none, some, length, ltb, leb, ◌==◌,
  ◌&&◌, if◌then◌else◌, Memory, Run, ok, fault, null_pointer, out_of_bounds, ◌>>=◌, take, map,
}
use distributed_hash_table.Error.{ErrorCode, err_none, err_nomem, err_bad_parameter, err_network}
use distributed_hash_table.CString.{Bytes, CharPointer, str_eq, strncmp, is_eq}
use distributed_hash_table.Hashtable.{Htable, htable_size, construct_htable}
use distributed_hash_table.System.{Platform, SocketAddress}
use distributed_hash_table.Network.{
  max_msg_size, increment_and_get, buffer_text, is_missing, answer, create_cat_packet,
}
use distributed_hash_table.Projet02.Client.{Client}

-- What the calls of `sendto` and `recvfrom` for one node give: the bytes sent, and the datagram with
-- its source.
pub record Exchange : Type 0 where
  pub sent : Option ℕ
  pub received : Option (Bytes × SocketAddress)

-- The first four bytes of a `struct sockaddr_in`: AF_INET, low byte first, and the port.
abbrev pub first_bytes : SocketAddress → Bytes
first_bytes a = 2 ∷ 0 ∷ a.sin_port

-- Whether the whole message was sent.
unfoldable pub sent_all : Option ℕ → ℕ → Bool
sent_all none size = false
sent_all (some n) size = n == size

-- `sizeof(struct sockaddr_in)`.
abbrev pub sockaddr_size : ℕ
sockaddr_size = 16

-- `inet_ntop` for AF_INET, on four bytes.
module _ (inet_ntop : Bytes → Bytes) where
  -- `same_sockaddr`, on addresses of equal lengths: `inet_ntop` is given the structures themselves.
  unfoldable pub same_sockaddr : SocketAddress → SocketAddress → Bool
  same_sockaddr a b =
      str_eq a.sin_port b.sin_port
      && is_eq (strncmp sockaddr_size (inet_ntop (first_bytes a)) (inet_ntop (first_bytes b)))

  -- `recvfrom_server`: the message; `none` stands for -1.
  unfoldable pub recvfrom_server : SocketAddress → Option (Bytes × SocketAddress) → Option Bytes
  recvfrom_server node none = none
  recvfrom_server node (some (msg, source)) = if same_sockaddr node source then some msg else none

  -- The answer of a node to a message of `size` bytes, `none` where one of the two calls fails.
  unfoldable pub reply_of : ℕ → SocketAddress → Exchange → Option Bytes
  reply_of size node e = if sent_all e.sent size then recvfrom_server node e.received else none

  -- The `for` loop of `network_get`, with the rounds left: the code, the value, and the nodes asked.
  unfoldable pub get_loop :
      ℕ
      → List SocketAddress
      → List Exchange
      → Htable
      → ℕ
      → ℕ
      → Memory
      → Run (ErrorCode × CharPointer × List SocketAddress × Memory)
  get_loop zero nodes exchanges t r size m = ok (err_network, none, [], m)
  get_loop (suc n) [] exchanges t r size m = fault out_of_bounds
  get_loop (suc n) (node ∷ nodes) [] t r size m =
      get_loop n nodes [] t r size m >>= λ (code, value, asked, m').
      ok (code, value, node ∷ asked, m')
  get_loop (suc n) (node ∷ nodes) (e ∷ exchanges) t r size m =
      let missed = get_loop n nodes exchanges t r size m >>= λ (code, value, asked, m').
      ok (code, value, node ∷ asked, m') in
      elim (reply_of size node e) [
        | none ↦ missed
        | some msg ↦
            let counted = buffer_text max_msg_size msg >>= λ text.
            increment_and_get t text m >>= λ (count, t', m').
            let later = get_loop n nodes exchanges t' r size m' >>= λ (code, value, asked, m'').
            ok (code, value, node ∷ asked, m'') in
            let (code, value, m'') = answer text m' in
            if leb r count then ok (code, value, node ∷ [], m'') else later in
            if is_missing msg then missed else counted
      ]

  -- `network_get`: the value that the pointer held is freed.
  unfoldable pub network_get :
      Client
      → CharPointer
      → CharPointer
      → List Exchange
      → Memory
      → Run (ErrorCode × CharPointer × List (SocketAddress × Bytes) × Memory)
  network_get client none before exchanges m = fault null_pointer
  network_get client (some key) before exchanges m =
      let (t, m₁) = construct_htable htable_size m in
      let go =
        get_loop client.args.n client.nodes exchanges t client.args.r (length key) m₁
        >>= λ (code, value, asked, m₂). ok (code, value, map (λ node. (node, key)) asked, m₂) in
      if ltb max_msg_size (length key) then ok (err_bad_parameter, before, [], m) else go

  -- The `for` loop of `network_put`: the nodes that have answered. `recvfrom` is given no room, so that
  -- it answers 0 for every datagram.
  unfoldable pub put_loop : ℕ → List SocketAddress → List Exchange → ℕ → ℕ → Run ℕ
  put_loop zero nodes exchanges size contacted = ok contacted
  put_loop (suc n) [] exchanges size contacted = fault out_of_bounds
  put_loop (suc n) (node ∷ nodes) [] size contacted = put_loop n nodes [] size contacted
  put_loop (suc n) (node ∷ nodes) (e ∷ exchanges) size contacted = elim (reply_of size node e) [
    | none ↦ put_loop n nodes exchanges size contacted
    | some msg ↦ put_loop n nodes exchanges size (contacted + 1)
  ]

  -- `network_put`: the code, and what was sent.
  unfoldable pub network_put :
      Platform
      → Client
      → CharPointer
      → CharPointer
      → List Exchange
      → Memory
      → Run (ErrorCode × List (SocketAddress × Bytes) × Memory)
  network_put platform client none value exchanges m = fault null_pointer
  network_put platform client (some key) none exchanges m =
      if ltb max_msg_size (length key) then ok (err_bad_parameter, [], m) else fault null_pointer
  network_put platform client (some key) (some value) exchanges m =
      let (packet, m') = create_cat_packet platform key value m in
      let go : Run (ErrorCode × List (SocketAddress × Bytes) × Memory) = elim packet [
        | none ↦ ok (err_nomem, [], m')
        | some msg ↦ put_loop client.args.n client.nodes exchanges (length msg) 0 >>= λ contacted.
            ok (
              if ltb contacted client.args.w then err_network else err_none,
              map (λ node. (node, msg)) (take client.args.n client.nodes),
              m',
            )
      ] in
      if ltb max_msg_size (length key)
      then ok (err_bad_parameter, [], m)
      else if ltb max_msg_size (length value)
      then ok (err_bad_parameter, [], m)
      else go
