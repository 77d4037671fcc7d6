-- ===== src/Cluster/PutGet.antt =====
-- A put that all servers of a key hear, and the gets behind it.
use distributed_hash_table.Base.{
  ℕ, ◌≤◌, ◌<◌, ◌≡◌, refl, ◌∙◌, sym, ap, List, [], ◌∷◌, ◌++◌, Option, none, some, ok, map, All,
  All-replicate, length, replicate, arith, inl, inr, false, ltb, le→ltb, take,
}
use mathlib.Core.Path.{subst}
use distributed_hash_table.Error.{err_none}
use distributed_hash_table.CString.{Bytes, CharPointer}
use distributed_hash_table.Hashtable.{Htable}
use distributed_hash_table.Hashtable.Table.{IsValid}
use distributed_hash_table.Args.Bounds.{IsQuorum}
use distributed_hash_table.System.{Platform}
use distributed_hash_table.Ring.Servers.{Server, node_of}
use distributed_hash_table.Ring.Walk.{distinct, lap}
use distributed_hash_table.Ring.Index.{First, here, past_end}
use distributed_hash_table.Ring.Select.{Answers}
use distributed_hash_table.Network.{Client, network_get, network_put}
use distributed_hash_table.Network.Quorum.{texts, Fits}
use distributed_hash_table.Network.Get.{IsReady, Decided, network_get-Decided}
use distributed_hash_table.Network.Put.{arrivals, network_put_lem}
use distributed_hash_table.Cluster.Deliver.{
  deliver, IsPair, deliver-put, deliver-get, arrivals-replicate, texts-replicate, tally-replicate,
  tally-replicate_pos,
}

-- The first server at or behind the digest is not behind another.
First-not_lt : (sha : Bytes) (ss : List Server) (i j : ℕ) → First sha ss i → First sha ss j → j ≤ i
First-not_lt sha ss i j (here s at stop below) (here t at' stop' below') =
    ground (arith, below' i s)
First-not_lt sha ss i j (here s at stop below) (past_end e all) = omega arith
First-not_lt sha ss i j (past_end e all) (here t at' stop' below') = ground (arith, all j t)
First-not_lt sha ss i j (past_end e all) (past_end e' all') = omega arith

Answers-unique :
    (ss : List Server) (wanted : ℕ) (sha : Bytes) (found found' : List Server)
    → Answers ss wanted sha found
    → Answers ss wanted sha found'
    → found ≡ found'
Answers-unique ss wanted sha found found' a b =
    let le = First-not_lt sha ss a.index b.index a.first b.first in
    let ge = First-not_lt sha ss b.index a.index b.first a.first in
    let same : a.index ≡ b.index = omega arith in
    a.walked ∙ (ap (λ i. take wanted (distinct (lap i ss))) same ∙ sym b.walked)

-- If all replies carry the value, and they reach the quorum, the value is the answer.
Decided-replicate :
    (r n : ℕ) (value : Bytes) (code : _) (got : CharPointer)
    → 0 < r
    → r ≤ n
    → Decided r (replicate n value) code got
    → (code ≡ err_none) × (got ≡ some value)
Decided-replicate r n value code got pos enough d = elim d.outcome [
  | inl (v, done, is, reached) ↦
      (done, is ∙ ap some (tally-replicate_pos n value v (omega (arith, reached))))
  | inr (lost, nothing, all) ↦ absurd (omega (arith, all value, tally-replicate n value))
]

-- A put of the value, and a get behind it, with the messages that the servers' tables give.
pub record ReadsBack (platform : Platform) (client : Client) (found : List Server)
    (key value : Bytes) (fd fuel : ℕ) (ts : List Htable) : Type 0 where
  pub after_put : List Htable
  pub after_get : List Htable
  pub acks : List (Option Bytes)
  pub answers : List (Option Bytes)
  pub heard : deliver ts (key ++ 0 ∷ value) ≡ ok (after_put, acks)
  pub put_done :
      network_put platform fuel client (some key) (some value) (some fd) none acks []
      ≡ ok (err_none, map (λ node. (node, key ++ 0 ∷ value)) (map node_of found), [])
  pub asked : deliver after_put key ≡ ok (after_get, answers)
  pub got :
      network_get platform fuel client (some key) none (some fd) answers []
      ≡ ok (err_none, some value, map (λ node. (node, key)) (map node_of found), [])

-- A client has enough memory, a ring with at least N distinct servers, a default address that
-- `inet_pton` reads, and quorums of at least 1 and at most N, the read quorum at most 127. A key that is
-- not empty and a value are C strings that fit a message together. N servers with valid tables and enough memory each hear what
-- it sends for a put, and answer; each then hears what it sends for a get of the key, and answers. Both
-- operations end with ERR_NONE, both send to the N servers that the ring answers for the key, and the
-- get yields the value that was put.
pub network_get-network_put :
    (platform : Platform) (client : Client) (ss : List Server) (key value : Bytes) (fd fuel : ℕ)
    (ts : List Htable)
    → IsReady platform client ss
    → IsQuorum client.args
    → client.args.r ≤ 127
    → IsPair key value
    → All IsValid ts
    → length ts ≡ client.args.n
    → length ss ≤ fuel
    → (found : List Server) × Answers ss client.args.n (platform.sha1 key) found
      × ReadsBack platform client found key value fd fuel ts
network_get-network_put platform client ss key value fd fuel ts ready quorum small p valid count f =
    let (ts', heard, holds, len) = deliver-put key value p ts valid in
    let (ts'', asked, held) = deliver-get key value p ts' holds in
    let (found, put, answers) =
      network_put_lem platform client ss key value fd fuel none (replicate (length ts) (some []))
        ready (omega (arith, p.short)) (omega (arith, p.short)) (omega arith) f in
    let (found', code, got, run, answers', decided) =
      network_get-Decided platform client ss key none fd fuel (replicate (length ts') (some value))
        ready (omega (arith, p.short)) (omega arith) small
        (All-replicate Fits (length ts') (some value) (omega (arith, p.short))) f in
    let same : found' ≡ found =
      Answers-unique ss client.args.n (platform.sha1 key) found' found answers' answers in
    let every : texts client.args.n (replicate (length ts') (some value))
        ≡ replicate client.args.n value =
      rw (len, count) (texts-replicate client.args.n value p.value_text) in
    let full : ltb (arrivals client.args.n (replicate (length ts) (some []))) client.args.w
        ≡ false =
      rw (count, arrivals-replicate client.args.n [])
        (le→ltb client.args.n client.args.w quorum.write_le) in
    let (done, is) =
      Decided-replicate client.args.r client.args.n value code got quorum.read_pos quorum.read_le
        (subst (λ seen. Decided client.args.r seen code got) every decided) in
    (
      found,
      answers,
      record {
        after_put = ts';
        after_get = ts'';
        acks = replicate (length ts) (some []);
        answers = replicate (length ts') (some value);
        heard = heard;
        put_done = put ∙ rw full refl;
        asked = asked;
        got = run ∙ rw (done, is, same) refl;
      },
    )
