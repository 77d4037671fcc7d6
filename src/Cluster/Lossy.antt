-- ===== src/Cluster/Lossy.antt =====
-- A message that some of the servers hear, and replies of which some arrive, in any order.
use distributed_hash_table.Base.{
  ℕ, zero, suc, ◌+◌, ◌≤◌, ◌≡◌, ◌≢◌, Bool, true, false, List, [], ◌∷◌, ◌++◌, some, ok, Run, ◌>>=◌,
  map, length, length-append, arith,
}
use distributed_hash_table.CString.{Bytes, text_at}
use distributed_hash_table.CString.Laws.{str_eq_iff}
use distributed_hash_table.Hashtable.{Htable}
use distributed_hash_table.Network.Quorum.{texts, tally}
use distributed_hash_table.Network.Put.{arrivals}
use distributed_hash_table.Server.{server_step}

-- The tables after the message, which the servers marked by true hear, and all that these send back.
unfoldable pub deliver_some : List Bool → List Htable → Bytes → Run (List Htable × List Bytes)
deliver_some hear [] msg = ok ([], [])
deliver_some [] (t ∷ ts) msg = ok (t ∷ ts, [])
deliver_some (true ∷ hear) (t ∷ ts) msg = server_step t (some msg) [] >>= λ (t', sent, _).
    deliver_some hear ts msg >>= λ (ts', replies). ok (t' ∷ ts', sent ++ replies)
deliver_some (false ∷ hear) (t ∷ ts) msg =
    deliver_some hear ts msg >>= λ (ts', replies). ok (t ∷ ts', replies)

-- What arrives of the messages sent: some of them, in any order.
abbrev pub Arrives : List Bytes → List Bytes → Type 0
Arrives [] sent = Unit
Arrives (x ∷ received) sent =
    (front : List Bytes) × (back : List Bytes) × (sent ≡ front ++ x ∷ back)
    × Arrives received (front ++ back)

pub Arrives-length :
    (received sent : List Bytes) → Arrives received sent → length received ≤ length sent
Arrives-length [] sent h = omega arith
Arrives-length (x ∷ received) sent (front, back, e, rest) = rw e (
    omega (
      arith,
      Arrives-length received (front ++ back) rest,
      length-append front back,
      length-append front (x ∷ back),
    ))

-- How many of the messages carry a text.
unfoldable pub carried : Bytes → List Bytes → ℕ
carried q msgs = tally q (map text_at msgs)

carried-middle :
    (q x : Bytes) (front back : List Bytes)
    → carried q (front ++ x ∷ back) ≡ carried q (x ∷ []) + carried q (front ++ back)
unfolding carried tally
carried-middle q x [] back = ground arith
carried-middle q x (y ∷ front) back = ground (arith, carried-middle q x front back)

pub carried-Arrives :
    (q : Bytes) (received sent : List Bytes)
    → Arrives received sent
    → carried q received ≤ carried q sent
unfolding carried tally
carried-Arrives q [] sent h = omega arith
carried-Arrives q (x ∷ received) sent (front, back, e, rest) =
    rw (e, carried-middle q x front back)
      (ground (arith, carried-Arrives q received (front ++ back) rest))

-- The texts that the client counts are among those that arrive.
pub texts-carried :
    (n : ℕ) (q : Bytes) (received : List Bytes)
    → tally q (texts n (map some received)) ≤ carried q received
unfolding carried tally texts
texts-carried zero q received = omega arith
texts-carried (suc n) q [] = omega arith
texts-carried (suc n) q (msg ∷ received) = ground (arith, texts-carried n q received)

pub arrivals-length :
    (n : ℕ) (received : List Bytes) → arrivals n (map some received) ≤ length received
unfolding arrivals
arrivals-length zero received = omega arith
arrivals-length (suc n) [] = omega arith
arrivals-length (suc n) (msg ∷ received) = omega (arith, arrivals-length n received)

-- No two texts are carried by one message.
pub carried-both :
    (q p : Bytes) (msgs : List Bytes) → q ≢ p → carried q msgs + carried p msgs ≤ length msgs
unfolding carried tally
carried-both q p [] ne = omega arith
carried-both q p (msg ∷ msgs) ne =
    ground (arith, carried-both q p msgs ne, str_eq_iff (text_at msg) q, str_eq_iff (text_at msg) p)
