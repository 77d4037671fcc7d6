-- ===== src/Projet02/Network/Compare.antt =====
-- `network_get` of week 10 and of done/network.c, on the same answers.
use distributed_hash_table.Base.{
  ℕ, zero, suc, ◌≤◌, ◌≡◌, refl, ◌∙◌, inl, inr, List, [], ◌∷◌, Option, none, some, leb, ok, length,
  take, All, Bool-cases,
}
use distributed_hash_table.Error.{err_none}
use distributed_hash_table.CString.{Bytes, text_at}
use distributed_hash_table.Hashtable.{Htable}
use distributed_hash_table.System.{SocketAddress}
use distributed_hash_table.Network.{is_missing, get_loop}
use distributed_hash_table.Network.Quorum.{
  tally, winner, texts, decision, Counts, Fits, get_loop-winner,
}
use distributed_hash_table.Projet02.Network.{Exchange}
use distributed_hash_table.Projet02.Network as Rounds
use distributed_hash_table.Projet02.Network.Quorum.{replies_of, heard, get_loop-Decides}

-- A text that wins before the first missing answer wins among all.
winner-heard :
    (n r : ℕ) (seen : List Bytes) (replies : List (Option Bytes)) (v : Bytes)
    → winner r seen (texts n replies) ≡ some v
    → winner r seen (heard replies) ≡ some v
unfolding winner texts heard
winner-heard zero r seen replies v h = absurd (cc)
winner-heard (suc n) r seen [] v h = h
winner-heard (suc n) r seen (none ∷ replies) v h = absurd (cc)
winner-heard (suc n) r seen (some msg ∷ replies) v h = elim (Bool-cases (is_missing msg)) [
  | inl missing ↦ absurd (cc (rw missing at h))
  | inr present ↦ elim (Bool-cases (leb r (tally (text_at msg) (text_at msg ∷ seen)))) [
    | inl reached ↦ rw (present, reached) (rw (present, reached) at h)
    | inr short ↦
        rw (present, short)
          (winner-heard n r (text_at msg ∷ seen) replies v (rw (present, short) at h))
  ]
]

decision-won : (o : Option Bytes) (v : Bytes) → decision o ≡ (err_none, some v, []) → o ≡ some v
decision-won none v h = absurd (cc)
decision-won (some u) v h = cc

-- Where, on the answers of n nodes and with a table that counts the texts seen so far, each less often
-- than the read quorum of at most 127, the loop of the final `network_get` ends with ERR_NONE and a
-- value, the loop of week 10 ends with ERR_NONE and the same value, if the answers leave room for a NUL:
-- it asks at most n nodes.
pub get_loop-get_loop :
    (inet_ntop : Bytes → Bytes) (n r size : ℕ) (nodes : List SocketAddress)
    (exchanges : List Exchange) (t : Htable) (seen : List Bytes) (v : Bytes)
    → r ≤ 127
    → n ≤ length nodes
    → All Fits (replies_of inet_ntop size n nodes exchanges)
    → Counts t seen r
    → get_loop n (replies_of inet_ntop size n nodes exchanges) t r [] ≡ ok (err_none, some v, [])
    → (asked : ℕ) × (asked ≤ n)
      × (Rounds.get_loop inet_ntop n nodes exchanges t r size []
          ≡ ok (err_none, some v, take asked nodes, []))
get_loop-get_loop inet_ntop n r size nodes exchanges t seen v small room fit c run =
    let replies = replies_of inet_ntop size n nodes exchanges in
    let done = get_loop-winner n replies t seen r small fit c in
    let ends : decision (winner r seen (texts n replies)) ≡ (err_none, some v, []) = cc in
    let won = winner-heard n r seen replies v (decision-won _ v ends) in
    let loop = get_loop-Decides inet_ntop r size small n nodes exchanges t seen room fit c in
    (loop.asked, loop.few, loop.run ∙ rw won refl)
