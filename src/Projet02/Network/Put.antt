-- ===== src/Projet02/Network/Put.antt =====
-- `network_put` of provided/grading/projet02/network.c against the write quorum.
use distributed_hash_table.Base.{
  ℕ, zero, suc, ◌+◌, ◌≤◌, ◌≡◌, refl, ◌∙◌, ap, List, [], ◌∷◌, ◌++◌, Option, none, some, ok, map,
  length, take, ltb, if◌then◌else◌, le→ltb, arith, inl, inr, Option-cases,
}
use native.Mathlib.Nat.{zero-add}
use distributed_hash_table.Error.{err_none, err_network}
use distributed_hash_table.CString.{Bytes}
use distributed_hash_table.System.{Platform, SocketAddress}
use distributed_hash_table.Network.{max_msg_size, create_cat_packet}
use distributed_hash_table.Projet02.Client.{Client}
use distributed_hash_table.Projet02.Network.{Exchange, reply_of, put_loop, network_put}
use distributed_hash_table.Projet02.Network.Quorum.{replies_of}

-- How many answers are there.
unfoldable pub answered : List (Option Bytes) → ℕ
answered [] = 0
answered (none ∷ replies) = answered replies
answered (some msg ∷ replies) = suc (answered replies)

put_loop-answered :
    (inet_ntop : Bytes → Bytes) (size n : ℕ) (nodes : List SocketAddress)
    (exchanges : List Exchange) (contacted : ℕ)
    → n ≤ length nodes
    → put_loop inet_ntop n nodes exchanges size contacted
      ≡ ok (contacted + answered (replies_of inet_ntop size n nodes exchanges))
unfolding put_loop answered replies_of
put_loop-answered inet_ntop size zero nodes exchanges contacted room =
    let e : contacted ≡ contacted + 0 = omega arith in ap (λ k. ok k) e
put_loop-answered inet_ntop size (suc n) [] exchanges contacted room = absurd (omega (arith, room))
put_loop-answered inet_ntop size (suc n) (node ∷ nodes) [] contacted room =
    put_loop-answered inet_ntop size n nodes [] contacted (omega (arith, room))
put_loop-answered inet_ntop size (suc n) (node ∷ nodes) (e ∷ exchanges) contacted room =
    elim (Option-cases (reply_of inet_ntop size node e)) [
      | inl gone ↦
          rw (put_loop, gone)
            (put_loop-answered inet_ntop size n nodes exchanges contacted (omega (arith, room)))
      | inr (msg, came) ↦
          let add_suc : (k : ℕ) → contacted + 1 + k ≡ contacted + suc k = λ k. omega arith in
          rw (put_loop, came)
            (put_loop-answered inet_ntop size n nodes exchanges (contacted + 1)
                (omega (arith, room))
              ∙ ap (λ k. ok k) (add_suc (answered (replies_of inet_ntop size n nodes exchanges))))
    ]

-- The week-10 `network_put` with a key and a value of legal length, enough memory and at least N nodes: the
-- key, a NUL and the value are sent to each of the first N nodes. The code is ERR_NONE if at least as
-- many of them answer as the write quorum, whichever they are, and ERR_NETWORK otherwise.
pub network_put-answered :
    (inet_ntop : Bytes → Bytes) (platform : Platform) (client : Client) (key value : Bytes)
    (exchanges : List Exchange)
    → client.args.n ≤ length client.nodes
    → length key ≤ max_msg_size
    → length value ≤ max_msg_size
    → network_put inet_ntop platform client (some key) (some value) exchanges []
      ≡ ok (
        if ltb
              (answered (
                replies_of inet_ntop
                  (length (key ++ 0 ∷ value))
                  client.args.n
                  client.nodes
                  exchanges))
              client.args.w
            then err_network
            else err_none,
        map (λ node. (node, key ++ 0 ∷ value)) (take client.args.n client.nodes),
        [],
      )
unfolding network_put create_cat_packet
network_put-answered inet_ntop platform client key value exchanges room short short' =
    rw
      (
        le→ltb max_msg_size (length key) short,
        le→ltb max_msg_size (length value) short',
        put_loop-answered inet_ntop (length (key ++ 0 ∷ value)) client.args.n client.nodes exchanges
            0 room,
        zero-add,
      )
      refl
