-- ===== src/Cluster/Fresh.antt =====
-- What a get can answer behind a put that has succeeded.
use distributed_hash_table.Base.{
  ℕ, ◌+◌, ◌≤◌, ◌<◌, ◌≡◌, ◌≢◌, ◌∙◌, ap, Bool, List, [], ◌∷◌, ◌++◌, none, some, ok, map, All, length,
  arith, inl, inr, ◌⊎◌, if◌then◌else◌, Bool-cases, ltb,
}
use mathlib.Core.Path.{subst}
use distributed_hash_table.Error.{ErrorCode, err_none, err_network}
use distributed_hash_table.Args.Bounds.{IsQuorum}
use distributed_hash_table.CString.{Bytes, CharPointer, str_eq}
use distributed_hash_table.CString.Laws.{str_eq_iff}
use distributed_hash_table.Hashtable.{Htable}
use distributed_hash_table.System.{Platform}
use distributed_hash_table.Node.{Node}
use distributed_hash_table.Ring.Servers.{Server}
use distributed_hash_table.Network.{Client, network_get, network_put}
use distributed_hash_table.Network.Quorum.{texts, tally, Fits}
use distributed_hash_table.Network.Get.{IsReady, Decided, network_get-Decided}
use distributed_hash_table.Network.Put.{arrivals, network_put_lem}
use distributed_hash_table.Cluster.Deliver.{IsPair}
use distributed_hash_table.Cluster.Lossy.{
  deliver_some, Arrives, Arrives-length, carried, carried-Arrives, texts-carried, arrivals-length,
}
use distributed_hash_table.Cluster.Overlap.{IsPeer, stale, deliver_some-put, deliver_some-get}

Fits-middle :
    (front : List Bytes) (x : Bytes) (back : List Bytes)
    → All Fits (map some (front ++ x ∷ back))
    → Fits (some x) × All Fits (map some (front ++ back))
Fits-middle [] x back h = h
Fits-middle (y ∷ front) x back h =
    let (own, others) = Fits-middle front x back h.1 in (own, (h.0, others))

-- Replies that arrive fit as those sent do.
Fits-Arrives :
    (received sent : List Bytes)
    → Arrives received sent
    → All Fits (map some sent)
    → All Fits (map some received)
Fits-Arrives [] sent h fit = tt
Fits-Arrives (x ∷ received) sent (front, back, e, rest) fit =
    let (own, others) = Fits-middle front x back (subst (λ l. All Fits (map some l)) e fit) in
    (own, Fits-Arrives received (front ++ back) rest others)

-- A value that wins is the one that was put, if all other texts stay below the quorum.
Decided-fresh :
    (r : ℕ) (seen : List Bytes) (value : Bytes) (code : ErrorCode) (got : CharPointer)
    → Decided r seen code got
    → ((q : Bytes) → q ≢ value → tally q seen < r)
    → ((code ≡ err_none) × (got ≡ some value)) ⊎ ((code ≡ err_network) × (got ≡ none))
Decided-fresh r seen value code got d rare = elim d.outcome [
  | inr (lost, nothing, all) ↦ inr (lost, nothing)
  | inl (v, done, is, reached) ↦ elim (Bool-cases (str_eq v value)) [
    | inl same ↦ inl (done, is ∙ ap some ((str_eq_iff v value).0 same))
    | inr other ↦
        let apart : v ≢ value = λ e. ground (arith, other, str_eq_iff v value, e) in
        absurd (omega (arith, rare v apart, reached))
  ]
]

put-quorum :
    (n w : ℕ) (acks : List Bytes)
    → (if ltb (arrivals n (map some acks)) w then err_network else err_none) ≡ err_none
    → w ≤ length acks
put-quorum n w acks h = elim (Bool-cases (ltb (arrivals n (map some acks)) w)) [
  | inl short ↦ absurd (cc (rw short at h))
  | inr enough ↦ ground (arith, arrivals-length n acks, enough)
]

-- A client has enough memory, a ring with at least N distinct servers, a default address that
-- `inet_pton` reads, and quorums of at least 1 and at most N, the read quorum at most 127 and both together
-- above N. It puts a key that is not empty and a value, C strings that fit a message together, and later
-- gets the key, by way of N servers with valid tables and enough memory; what each of them would answer
-- to a get of the key before the put is shorter than MAX_MSG_SIZE. Some of the servers hear the put, and
-- it succeeds by the replies that arrive; then some hear the get. Whichever of their replies arrive, in any
-- order, the get ends with ERR_NONE and the value that was put, or with ERR_NETWORK; it never yields
-- another value.
pub network_get-fresh :
    (platform : Platform) (client : Client) (ss : List Server) (key value : Bytes) (fd fuel : ℕ)
    (hear_put hear_get : List Bool) (ts ts' ts'' : List Htable)
    (acks arrived answers received : List Bytes) (sent : List (Node × Bytes))
    → IsReady platform client ss
    → IsQuorum client.args
    → client.args.n < client.args.r + client.args.w
    → client.args.r ≤ 127
    → IsPair key value
    → All (IsPeer key) ts
    → length ts ≡ client.args.n
    → length ss ≤ fuel
    → deliver_some hear_put ts (key ++ 0 ∷ value) ≡ ok (ts', acks)
    → Arrives arrived acks
    → network_put platform fuel client (some key) (some value) (some fd) none (map some arrived) []
      ≡ ok (err_none, sent, [])
    → deliver_some hear_get ts' key ≡ ok (ts'', answers)
    → Arrives received answers
    → (code : ErrorCode) × (got : CharPointer) × (asked : List (Node × Bytes)) × (network_get
          platform fuel client
          (some key)
          none
          (some fd)
          (map some received)
          []
        ≡ ok (code, got, asked, []))
      × (((code ≡ err_none) × (got ≡ some value)) ⊎ ((code ≡ err_network) × (got ≡ none)))
network_get-fresh platform client ss key value fd fuel hear_put hear_get ts ts' ts'' acks arrived
      answers received sent ready quorum overlap small p peers count f heard came done asked back =
    let (us, bs, run, peers', few) = deliver_some-put key value p hear_put ts peers in
    let same : us ≡ ts' = cc in
    let same' : bs ≡ acks = cc in
    let (us', cs, run', fit, rare) = deliver_some-get key value p hear_get us peers' in
    let asked' : deliver_some hear_get us key ≡ ok (ts'', answers) = rw same asked in
    let same'' : cs ≡ answers = cc in
    let (found, put, chosen) =
      network_put_lem platform client ss key value fd fuel none (map some arrived) ready
        (omega (arith, p.short)) (omega (arith, p.short)) quorum.write_pos f in
    let code_eq : (if ltb (arrivals client.args.n (map some arrived)) client.args.w
          then err_network
          else err_none)
        ≡ err_none =
      cc in
    let enough : client.args.w ≤ length arrived =
      put-quorum client.args.n client.args.w arrived code_eq in
    let (found', code, got, get_run, chosen', decided) =
      network_get-Decided platform client ss key none fd fuel (map some received) ready
        (omega (arith, p.short)) quorum.read_pos small
        (Fits-Arrives received answers back (subst (λ l. All Fits (map some l)) same'' fit)) f in
    (
      code,
      got,
      _,
      get_run,
      Decided-fresh client.args.r (texts client.args.n (map some received)) value code got decided
          (λ q ne.
            let carried_few : carried q answers ≤ stale key value us =
              subst (λ l. carried q l ≤ stale key value us) same'' (rare q ne) in
            let acked : stale key value us + length acks ≤ length ts =
              subst (λ l. stale key value us + length l ≤ length ts) same' few in
            omega (
              arith,
              texts-carried client.args.n q received,
              carried-Arrives q received answers back,
              Arrives-length arrived acks came,
              carried_few,
              acked,
              enough,
              count,
              overlap,
            )),
    )
