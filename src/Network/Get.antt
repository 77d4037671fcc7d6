-- ===== src/Network/Get.antt =====
-- `network_get` against the quorum.
use distributed_hash_table.Base.{
  ℕ, ◌≤◌, ◌<◌, ◌≡◌, refl, ◌⊎◌, inl, inr, List, [], Option, none, some, ok, map, All, length,
  length-map, le→ltb, Option-cases,
}
use distributed_hash_table.Error.{ErrorCode, err_none, err_network}
use distributed_hash_table.CString.{Bytes, CharPointer}
use distributed_hash_table.System.{Platform}
use distributed_hash_table.NodeList.{default_ip, max_nodes}
use distributed_hash_table.Hashtable.Construct.{construct_htable_lem}
use distributed_hash_table.Hashtable.{construct_htable}
use distributed_hash_table.Ring.Servers.{Server, node_of}
use distributed_hash_table.Ring.Walk.{distinct}
use distributed_hash_table.Ring.Select.{Answers, ring_get_nodes_for_key-Answers}
use distributed_hash_table.Network.{Client, max_msg_size, get_from_ring, network_get}
use distributed_hash_table.Network.Quorum.{
  tally, winner, texts, Fits, decision, get_loop-winner, Counts,
}
use distributed_hash_table.Network.Winner.{winner-reached, winner-none}

-- A client whose ring is made of the servers `ss`, with as many distinct ones as it asks.
pub record IsReady (platform : Platform) (client : Client) (ss : List Server) : Type 0 where
  pub home : Bytes
  pub known : platform.inet_pton default_ip ≡ some home
  pub ring : client.nodes ≡ map node_of ss
  pub some_server : 0 < length ss
  pub asked : 0 < client.args.n
  pub room : client.args.n ≤ max_nodes
  pub enough : client.args.n ≤ length (distinct ss)

-- A new table counts nothing.
pub Counts-new : (size r : ℕ) → 0 < size → 0 < r → Counts (construct_htable size []).0 [] r
unfolding tally
Counts-new size r pos rpos =
    let (valid, empty) = construct_htable_lem size [] pos refl in
    record { valid = valid; counts = empty; below = λ q. rpos }

-- How a get ends: with a value that enough messages carry, or with ERR_NETWORK where no text is
-- carried by enough.
pub record Decided (r : ℕ) (seen : List Bytes) (code : ErrorCode) (value : CharPointer)
    : Type 0 where
  pub outcome :
      ((v : Bytes) × (code ≡ err_none) × (value ≡ some v) × (r ≤ tally v seen))
      ⊎ ((code ≡ err_network) × (value ≡ none) × ((q : Bytes) → tally q seen < r))

pub decision-Decided :
    (r : ℕ) (seen : List Bytes)
    → 0 < r
    → Decided r seen (decision (winner r [] seen)).0 (decision (winner r [] seen)).1
decision-Decided r seen pos = elim (Option-cases (winner r [] seen)) [
  | inl lost ↦ record { outcome = inr (rw lost, rw lost, winner-none r seen pos lost) }
  | inr (v, won) ↦ record { outcome = inl (v, rw won, rw won, winner-reached r seen v won) }
]

decision-memory : (o : Option Bytes) → (decision o).2 ≡ []
decision-memory none = refl
decision-memory (some v) = refl

-- `network_get` with a key of legal length, a socket, enough memory, a ring with at least N distinct
-- servers, a default address that `inet_pton` reads, N at least 1, a read quorum from 1 to 127 and replies
-- that leave room for a NUL: the key is sent to N servers with distinct addresses, those that
-- the ring answers for the key. Of the first N replies, up to the first that is missing or says that
-- the server has no such key, if some text comes as often as the read quorum such a text is the value,
-- with ERR_NONE; if none does, the code is ERR_NETWORK and the value is NULL.
pub network_get-Decided :
    (platform : Platform) (client : Client) (ss : List Server) (key : Bytes) (before : CharPointer)
    (fd fuel : ℕ) (replies : List (Option Bytes))
    → IsReady platform client ss
    → length key ≤ max_msg_size
    → 0 < client.args.r
    → client.args.r ≤ 127
    → All Fits replies
    → length ss ≤ fuel
    → (found : List Server) × (code : ErrorCode) × (value : CharPointer) × (network_get platform
          fuel client
          (some key)
          before
          (some fd)
          replies
          []
        ≡ ok (code, value, map (λ node. (node, key)) (map node_of found), []))
      × Answers ss client.args.n (platform.sha1 key) found
      × Decided client.args.r (texts client.args.n replies) code value
unfolding network_get get_from_ring construct_htable
network_get-Decided platform client ss key before fd fuel replies ready short pos small fit f =
    let (found, run, answers) =
      ring_get_nodes_for_key-Answers platform ready.home ss client.args.n key fuel ready.known
        ready.room ready.some_server ready.enough f in
    let seen = texts client.args.n replies in
    let won = decision (winner client.args.r [] seen) in
    let loop =
      get_loop-winner client.args.n replies (construct_htable client.args.n []).0 [] client.args.r
        small fit (Counts-new client.args.n client.args.r ready.asked pos) in
    (
      found,
      won.0,
      won.1,
      simp
          (le→ltb max_msg_size (length key) short, ready.ring, run, length-map, answers.count, loop)
          (rw (decision-memory (winner client.args.r [] seen))),
      answers,
      decision-Decided client.args.r seen pos,
    )
