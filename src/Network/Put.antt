-- ===== src/Network/Put.antt =====
-- `network_put` against the write quorum.
use distributed_hash_table.Base.{
  ℕ, zero, suc, ◌+◌, ◌≤◌, ◌<◌, ◌≡◌, List, [], ◌∷◌, ◌++◌, Option, none, some, ok, map, length,
  length-map, arith, le→ltb, ltb, if◌then◌else◌,
}
use native.Mathlib.Nat.{zero-add}
use distributed_hash_table.Error.{err_none, err_network}
use distributed_hash_table.CString.{Bytes}
use distributed_hash_table.System.{Platform}
use distributed_hash_table.Ring.Servers.{Server, node_of}
use distributed_hash_table.Ring.Select.{Answers, ring_get_nodes_for_key-Answers}
use distributed_hash_table.Network.{
  Client, max_msg_size, put_loop, create_cat_packet, put_to_ring, network_put,
}
use distributed_hash_table.Network.Get.{IsReady}

-- The replies that come before the first that is missing, of the first n.
unfoldable pub arrivals : ℕ → List (Option Bytes) → ℕ
arrivals zero replies = 0
arrivals (suc n) [] = 0
arrivals (suc n) (none ∷ replies) = 0
arrivals (suc n) (some msg ∷ replies) = suc (arrivals n replies)

-- The loop falls short of the quorum exactly if too few replies come.
put_loop-ltb :
    (n : ℕ) (replies : List (Option Bytes)) (w contacted : ℕ)
    → contacted < w
    → ltb (put_loop n replies w contacted) w ≡ ltb (contacted + arrivals n replies) w
unfolding put_loop arrivals
put_loop-ltb zero replies w contacted h = ground arith
put_loop-ltb (suc n) [] w contacted h = ground arith
put_loop-ltb (suc n) (none ∷ replies) w contacted h = ground arith
put_loop-ltb (suc n) (some msg ∷ replies) w contacted h =
    ground (arith, put_loop-ltb n replies w (contacted + 1))

-- `network_put` with a key and a value of legal length, a socket, enough memory, a ring with at least N
-- distinct servers, a default address that `inet_pton` reads, N at least 1 and a positive write quorum: the key, a NUL and the value are sent to N servers with distinct addresses, those that the
-- ring answers for the key. The code is ERR_NONE if the first replies, as many as the write quorum
-- and of the first N, all come, and ERR_NETWORK otherwise.
pub network_put_lem :
    (platform : Platform) (client : Client) (ss : List Server) (key value : Bytes) (fd fuel : ℕ)
    (second : Option ℕ) (replies : List (Option Bytes))
    → IsReady platform client ss
    → length key ≤ max_msg_size
    → length value ≤ max_msg_size
    → 0 < client.args.w
    → length ss ≤ fuel
    → (found : List Server) × (network_put platform fuel client
          (some key)
          (some value)
          (some fd)
          second
          replies
          []
        ≡ ok (
          if ltb (arrivals client.args.n replies) client.args.w then err_network else err_none,
          map (λ node. (node, key ++ 0 ∷ value)) (map node_of found),
          [],
        ))
      × Answers ss client.args.n (platform.sha1 key) found
unfolding network_put put_to_ring create_cat_packet
network_put_lem platform client ss key value fd fuel second replies ready short short' pos f =
    let (found, run, answers) =
      ring_get_nodes_for_key-Answers platform ready.home ss client.args.n key fuel ready.known
        ready.room ready.some_server ready.enough f in
    let contacted = put_loop-ltb client.args.n replies client.args.w 0 pos in
    (
      found,
      simp (
        le→ltb max_msg_size (length key) short,
        le→ltb max_msg_size (length value) short',
        ready.ring,
        run,
        length-map,
        answers.count,
        contacted,
        zero-add,
      ),
      answers,
    )
