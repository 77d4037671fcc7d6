-- ===== src/Projet02/Network/Quorum.antt =====
-- What the loop of `network_get` of provided/grading/projet02/network.c decides.
use distributed_hash_table.Base.{
  ℕ, zero, suc, ◌≤◌, ◌≡◌, refl, inl, inr, List, [], ◌∷◌, Option, none, some, leb, if◌then◌else◌, ok,
  arith, length, take, Bool-cases, Option-cases, All,
}
use mathlib.Core.Path.{subst}
use distributed_hash_table.CString.{Bytes, text_at, strdup}
use distributed_hash_table.Hashtable.{Htable}
use distributed_hash_table.System.{SocketAddress}
use distributed_hash_table.Network.{is_missing, max_msg_size, answer}
use distributed_hash_table.Network.Quorum.{
  tally, winner, decision, Counts, Counts-below, Fits, buffer_text_lem, increment_and_get_lem,
}
use distributed_hash_table.Projet02.Network.{Exchange, reply_of, get_loop}

module _ (inet_ntop : Bytes → Bytes) where
  -- The answers of the first n nodes to a message of `size` bytes.
  unfoldable pub replies_of : ℕ → ℕ → List SocketAddress → List Exchange → List (Option Bytes)
  replies_of size zero nodes exchanges = []
  replies_of size (suc n) [] exchanges = []
  replies_of size (suc n) (node ∷ nodes) [] = none ∷ replies_of size n nodes []
  replies_of size (suc n) (node ∷ nodes) (e ∷ exchanges) =
      reply_of inet_ntop size node e ∷ replies_of size n nodes exchanges

-- The texts that the loop counts: those of all answers but the missing ones.
unfoldable pub heard : List (Option Bytes) → List Bytes
heard [] = []
heard (none ∷ replies) = heard replies
heard (some msg ∷ replies) =
    let later = heard replies in if is_missing msg then later else text_at msg ∷ later

-- The loop ends with what the answers decide, after it has asked the first of the nodes.
pub record Decides (inet_ntop : Bytes → Bytes) (n : ℕ) (nodes : List SocketAddress)
    (exchanges : List Exchange) (t : Htable) (r size : ℕ) (won : Option Bytes) : Type 0 where
  pub asked : ℕ
  pub few : asked ≤ n
  pub run :
      get_loop inet_ntop n nodes exchanges t r size []
      ≡ ok ((decision won).0, (decision won).1, take asked nodes, [])

module _ (inet_ntop : Bytes → Bytes) (r size : ℕ) (small : r ≤ 127) where
  pub get_loop-Decides :
      (n : ℕ) (nodes : List SocketAddress) (exchanges : List Exchange) (t : Htable)
      (seen : List Bytes)
      → n ≤ length nodes
      → All Fits (replies_of inet_ntop size n nodes exchanges)
      → Counts t seen r
      → Decides inet_ntop n nodes exchanges t r size
          (winner r seen (heard (replies_of inet_ntop size n nodes exchanges)))
  unfolding get_loop winner heard replies_of answer strdup
  get_loop-Decides zero nodes exchanges t seen room fit c = record {
    asked = 0;
    few = omega arith;
    run = refl;
  }
  get_loop-Decides (suc n) [] exchanges t seen room fit c = absurd (omega (arith, room))
  get_loop-Decides (suc n) (node ∷ nodes) [] t seen room fit c =
      let later = get_loop-Decides n nodes [] t seen (omega (arith, room)) fit.1 c in
      record { asked = suc later.asked; few = omega (arith, later.few); run = rw later.run refl }
  get_loop-Decides (suc n) (node ∷ nodes) (e ∷ exchanges) t seen room fit c =
      let missed = get_loop-Decides n nodes exchanges t seen (omega (arith, room)) fit.1 c in
      elim (Option-cases (reply_of inet_ntop size node e)) [
        | inl gone ↦ record {
          asked = suc missed.asked;
          few = omega (arith, missed.few);
          run = rw (get_loop, gone, missed.run) refl;
        }
        | inr (msg, came) ↦ elim (Bool-cases (is_missing msg)) [
          | inl missing ↦ record {
            asked = suc missed.asked;
            few = omega (arith, missed.few);
            run = rw (get_loop, came, missing, missed.run) refl;
          }
          | inr present ↦
              let text = text_at msg in
              let filled = buffer_text_lem max_msg_size msg (subst Fits came fit.0) in
              let (t', run, valid, reads) = increment_and_get_lem t seen r text small c in
              elim (Bool-cases (leb r (tally text (text ∷ seen)))) [
                | inl reached ↦ record {
                  asked = 1;
                  few = omega arith;
                  run = rw (get_loop, came, present, filled, run, reached) refl;
                }
                | inr short ↦
                    let later =
                      get_loop-Decides n nodes exchanges t' (text ∷ seen) (omega (arith, room))
                        fit.1
                        (record {
                          valid = valid;
                          counts = reads;
                          below = Counts-below text seen r c short;
                        }) in
                    record {
                      asked = suc later.asked;
                      few = omega (arith, later.few);
                      run = rw (get_loop, came, present, filled, run, short, later.run) refl;
                    }
              ]
        ]
      ]
