-- ===== src/Projet02/Network/Get.antt =====
-- `network_get` of provided/grading/projet02/network.c against the quorum.
use distributed_hash_table.Base.{
  ℕ, ◌≤◌, ◌<◌, ◌≡◌, refl, List, [], some, ok, map, All, length, le→ltb, take, arith,
}
use distributed_hash_table.Error.{ErrorCode}
use distributed_hash_table.CString.{Bytes, CharPointer}
use distributed_hash_table.Hashtable.{htable_size, construct_htable}
use distributed_hash_table.Network.{max_msg_size}
use distributed_hash_table.Network.Quorum.{winner, decision, Fits}
use distributed_hash_table.Network.Get.{Counts-new, Decided, decision-Decided}
use distributed_hash_table.Projet02.Client.{Client}
use distributed_hash_table.Projet02.Network.{Exchange, network_get}
use distributed_hash_table.Projet02.Network.Quorum.{replies_of, heard, get_loop-Decides}

-- What `network_get` gives: the first of the client's nodes were asked, and the answers of the first N
-- decide.
pub record Gets (inet_ntop : Bytes → Bytes) (client : Client) (key : Bytes) (before : CharPointer)
    (exchanges : List Exchange) : Type 0 where
  pub code : ErrorCode
  pub value : CharPointer
  pub asked : ℕ
  pub few : asked ≤ client.args.n
  pub run :
      network_get inet_ntop client (some key) before exchanges []
      ≡ ok (code, value, map (λ node. (node, key)) (take asked client.nodes), [])
  pub decided :
      Decided client.args.r
        (heard (replies_of inet_ntop (length key) client.args.n client.nodes exchanges))
        code
        value

-- The week-10 `network_get` with a key of legal length, enough memory, at least N nodes, a read quorum from 1
-- to 127 and answers that leave room for a NUL: the key is sent to the first nodes, at most N. If, of
-- the answers of the first N, some text comes as often as the read quorum, such a text is the value, with
-- ERR_NONE, wherever other answers are missing; if none does, the code is ERR_NETWORK and the value
-- is NULL.
pub network_get-Gets :
    (inet_ntop : Bytes → Bytes) (client : Client) (key : Bytes) (before : CharPointer)
    (exchanges : List Exchange)
    → client.args.n ≤ length client.nodes
    → length key ≤ max_msg_size
    → 0 < client.args.r
    → client.args.r ≤ 127
    → All Fits (replies_of inet_ntop (length key) client.args.n client.nodes exchanges)
    → Gets inet_ntop client key before exchanges
unfolding network_get construct_htable
network_get-Gets inet_ntop client key before exchanges room short pos small fit =
    let seen = heard (replies_of inet_ntop (length key) client.args.n client.nodes exchanges) in
    let won = winner client.args.r [] seen in
    let loop =
      get_loop-Decides inet_ntop client.args.r (length key) small client.args.n client.nodes
        exchanges (construct_htable htable_size []).0 [] room fit
        (Counts-new htable_size client.args.r (omega arith) pos) in
    record {
      code = (decision won).0;
      value = (decision won).1;
      asked = loop.asked;
      few = loop.few;
      run = rw (le→ltb max_msg_size (length key) short, loop.run) refl;
      decided = decision-Decided client.args.r seen pos;
    }
