-- ===== src/Projet02/Cluster/Fresh.antt =====
-- A put and a later get of a client of week 10.
use distributed_hash_table.Base.{
  ◌+◌, ◌≤◌, ◌<◌, ◌≡◌, ◌≢◌, refl, sym, ◌∙◌, ap, ap₂, ◌⊎◌, inl, inr, List, [], ◌∷◌, ◌++◌, Option,
  some, ok, length, ltb, if◌then◌else◌, All, arith, Bool-cases, map, take,
}
use mathlib.Core.Path.{subst}
use distributed_hash_table.Error.{ErrorCode, err_none, err_network}
use distributed_hash_table.CString.{Bytes, CharPointer, str_eq}
use distributed_hash_table.CString.Laws.{str_eq_iff}
use distributed_hash_table.Hashtable.{Htable}
use distributed_hash_table.System.{Platform, SocketAddress}
use distributed_hash_table.Network.Quorum.{tally, Fits}
use distributed_hash_table.Server.Protocol.{text-ne-nul}
use distributed_hash_table.Projet02.Client.{Client}
use distributed_hash_table.Projet02.Network.{Exchange, network_get, network_put}
use distributed_hash_table.Projet02.Network.Quorum.{replies_of, heard}
use distributed_hash_table.Projet02.Network.Get.{network_get-Gets}
use distributed_hash_table.Projet02.Network.Put.{answered, network_put-answered}
use distributed_hash_table.Projet02.Cluster.{Way, deliver_all}
use distributed_hash_table.Projet02.Cluster.Put.{IsPair, IsServing, AllHold, deliver_all-put}
use distributed_hash_table.Projet02.Cluster.Get.{deliver_all-get}

-- A get by way of the servers `ts`, which fails or gives the value.
pub record GetsLatest (inet_ntop : Bytes → Bytes) (client : Client) (key value : Bytes)
    (before : CharPointer) (ts : List Htable) (ways : List Way) : Type 0 where
  pub after : List Htable
  pub exchanges : List Exchange
  pub delivered : deliver_all ts client.nodes ways key ≡ ok (after, exchanges)
  pub code : ErrorCode
  pub found : CharPointer
  pub sent : List (SocketAddress × Bytes)
  pub run : network_get inet_ntop client (some key) before exchanges [] ≡ ok (code, found, sent, [])
  pub latest : (code ≡ err_network) ⊎ ((code ≡ err_none) × (found ≡ some value))

module _ (inet_ntop : Bytes → Bytes) (client : Client) (key value : Bytes) (pair : IsPair key value)
    (room : client.args.n ≤ length client.nodes) where
  -- Another text comes from servers that have not answered the put.
  few-others :
      (v : Bytes) (ts after : List Htable) (ways : List Way) (acks : List (Option Bytes))
      (es : List Exchange)
      → v ≢ value
      → client.args.n ≡ length ts
      → length ts ≤ length ways
      → AllHold key value acks ts
      → deliver_all ts client.nodes ways key ≡ ok (after, es)
      → tally v (heard (replies_of inet_ntop (length key) client.args.n client.nodes es))
          + answered acks
        ≤ client.args.n
  few-others v ts after ways acks es other size room' holds delivered =
      let (after', es', run, _, bound) =
        deliver_all-get inet_ntop key value pair v acks ts client.nodes ways other (omega arith)
          room' holds in
      let same : es' ≡ es = cc in
      let texts : replies_of inet_ntop (length key) (length ts) client.nodes es'
          ≡ replies_of inet_ntop (length key) client.args.n client.nodes es =
        ap₂ (λ n x. replies_of inet_ntop (length key) n client.nodes x) (sym size) same in
      let counts = ap (λ rs. tally v (heard rs)) texts in omega (arith, bound, counts, size)

  -- Enough servers hold the value.
  get-latest :
      (before : CharPointer) (ts : List Htable) (ways : List Way) (acks : List (Option Bytes))
      → client.args.n ≡ length ts
      → length ts ≤ length ways
      → AllHold key value acks ts
      → client.args.w ≤ answered acks
      → 0 < client.args.r
      → client.args.r ≤ 127
      → client.args.n < client.args.r + client.args.w
      → GetsLatest inet_ntop client key value before ts ways
  get-latest before ts ways acks size room' holds enough pos small overlap =
      let (after, es, delivered, fits, _) =
        deliver_all-get inet_ntop key value pair (0 ∷ []) acks ts client.nodes ways
          (λ e. text-ne-nul value pair.1 (sym e)) (omega arith) room' holds in
      let same : replies_of inet_ntop (length key) (length ts) client.nodes es
          ≡ replies_of inet_ntop (length key) client.args.n client.nodes es =
        ap (λ n. replies_of inet_ntop (length key) n client.nodes es) (sym size) in
      let gets =
        network_get-Gets inet_ntop client key before es room (omega (arith, pair.3)) pos small
          (subst (All Fits) same fits) in
      record {
        after = after;
        exchanges = es;
        delivered = delivered;
        code = gets.code;
        found = gets.value;
        sent = map (λ node. (node, key)) (take gets.asked client.nodes);
        run = gets.run;
        latest = elim gets.decided.outcome [
          | inr (lost, _, _) ↦ inl lost
          | inl (v, won, is, reached) ↦ elim (Bool-cases (str_eq v value)) [
            | inl equal ↦ inr (won, is ∙ ap (λ s. some s) ((str_eq_iff v value).0 equal))
            | inr differ ↦
                let other : v ≢ value = λ e. cc (differ, (str_eq_iff v value).1 e) in
                absurd (
                  omega (
                    arith,
                    few-others v ts after ways acks es other size room' holds delivered,
                    reached,
                  ))
          ]
        ];
      }

-- A client of week 10 puts a legal pair and later gets the key, by way of N servers with valid tables and
-- enough memory, whose messages and answers may be lost; N is less than the sum of the two quorums,
-- the read quorum is from 1 to 127, the client has at least N nodes, and what the servers hold under
-- the key fits a message. Then the put ends, with ERR_NETWORK or ERR_NONE, and if it ends with ERR_NONE,
-- the get ends with ERR_NETWORK, or with ERR_NONE and the value that was put.
pub network_put-latest :
    (inet_ntop : Bytes → Bytes) (platform : Platform) (client : Client) (key value : Bytes)
    (before : CharPointer) (ts : List Htable) (ways ways' : List Way)
    → IsPair key value
    → client.args.n ≤ length client.nodes
    → client.args.n ≡ length ts
    → length ts ≤ length ways
    → length ts ≤ length ways'
    → All (IsServing key) ts
    → 0 < client.args.r
    → client.args.r ≤ 127
    → client.args.n < client.args.r + client.args.w
    → (ts' : List Htable) × (es : List Exchange) × (deliver_all ts client.nodes ways
          (key ++ 0 ∷ value)
        ≡ ok (ts', es))
      × (code : ErrorCode) × (sent : List (SocketAddress × Bytes)) × (network_put inet_ntop platform
            client
            (some key)
            (some value)
            es
            []
          ≡ ok (code, sent, []))
      × ((code ≡ err_network)
          ⊎ ((code ≡ err_none) × GetsLatest inet_ntop client key value before ts' ways'))
network_put-latest inet_ntop platform client key value before ts ways ways' pair room size long
      long' serving pos small overlap =
    let (ts', es, delivered, length_same, holds) =
      deliver_all-put inet_ntop key value pair ts client.nodes ways (omega arith) long serving in
    let acks = replies_of inet_ntop (length (key ++ 0 ∷ value)) (length ts) client.nodes es in
    let heard_acks =
      replies_of inet_ntop (length (key ++ 0 ∷ value)) client.args.n client.nodes es in
    let same : answered heard_acks ≡ answered acks =
      ap (λ n. answered (replies_of inet_ntop (length (key ++ 0 ∷ value)) n client.nodes es))
        size in
    let run =
      network_put-answered inet_ntop platform client key value es room (omega (arith, pair.3))
        (omega (arith, pair.3)) in
    (
      ts',
      es,
      delivered,
      if ltb (answered heard_acks) client.args.w then err_network else err_none,
      map (λ node. (node, key ++ 0 ∷ value)) (take client.args.n client.nodes),
      run,
      elim (Bool-cases (ltb (answered heard_acks) client.args.w)) [
        | inl short ↦ inl (rw short refl)
        | inr enough ↦ inr (
          rw enough refl,
          get-latest inet_ntop client key value pair room before ts' ways' acks
              (size ∙ sym length_same) (omega (arith, long', length_same)) holds
              (ground (arith, enough, same)) pos small overlap,
        )
      ],
    )
