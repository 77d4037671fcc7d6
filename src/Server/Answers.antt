-- ===== src/Server/Answers.antt =====
-- What the server does with any datagram, in any state of the memory.
use distributed_hash_table.Base.{
  ℕ, ◌≡◌, ◌≢◌, refl, List, [], ◌∷◌, Option, none, some, Returns, Memory, length, take, inl, inr,
  Bool-cases, Option-cases, ◌==◌,
}
use distributed_hash_table.CString.{Bytes, text_at, strdup}
use distributed_hash_table.Hashtable.{Htable}
use distributed_hash_table.Hashtable.Table.{
  IsValid, view, get_htable_value-view, add_htable_value-Writes,
}
use distributed_hash_table.Network.{max_msg_size}
use distributed_hash_table.Server.{
  ValuePart, value_part, answer_get, answer_put, answer_key, handle, server_step,
}
use distributed_hash_table.Server.Protocol.{handle-answer_key}

-- A round ends with a valid table and one datagram sent.
pub record Answered (r : Htable × List Bytes × Memory) : Type 0 where
  pub valid : IsValid r.0
  pub one : length r.1 ≡ 1

answer_get-Answered :
    (t : Htable) (key : Bytes) (m : Memory) → IsValid t → Returns (answer_get t key m) Answered
unfolding answer_get
answer_get-Answered t key m valid = elim (Option-cases (strdup (view t key) m).0) [
  | inl nothing ↦ (
    (t, (0 ∷ []) ∷ [], (strdup (view t key) m).1),
    rw (get_htable_value-view t key m valid, nothing) refl,
    record { valid = valid; one = refl },
  )
  | inr (v, found) ↦ (
    (t, v ∷ [], (strdup (view t key) m).1),
    rw (get_htable_value-view t key m valid, found) refl,
    record { valid = valid; one = refl },
  )
]

answer_put-Answered :
    (t : Htable) (key value : Bytes) (m : Memory)
    → IsValid t
    → Returns (answer_put t key value m) Answered
unfolding answer_put
answer_put-Answered t key value m valid =
    let ((t', e, m'), run, w) = add_htable_value-Writes t key value m valid in
    ((t', [] ∷ [], m'), rw run refl, record { valid = w.valid; one = refl })

answer_key-Answered :
    (t : Htable) (key : Bytes) (part : Option ValuePart) (m : Memory)
    → IsValid t
    → Returns (answer_key t key part m) Answered
unfolding answer_key
answer_key-Answered t key none m valid = answer_get-Answered t key m valid
answer_key-Answered t key (some v) m valid = elim (Bool-cases (v.len == 0)) [
  | inl empty ↦ rw empty (answer_get-Answered t key m valid)
  | inr full ↦ rw full (answer_put-Answered t key v.text m valid)
]

handle-Answered :
    (t : Htable) (msg : Bytes) (m : Memory)
    → IsValid t
    → msg ≢ 0 ∷ []
    → Returns (handle t msg m) Answered
unfolding handle
handle-Answered t [] m valid n = ((t, [] ∷ [], m), refl, record { valid = valid; one = refl })
handle-Answered t (c ∷ msg) m valid n =
    rw (handle-answer_key t (c ∷ msg) m (λ e. cc) n)
      (answer_key-Answered t (text_at (c ∷ msg)) (value_part (c ∷ msg)) m valid)

not_nul : (c d : ℕ) (s : Bytes) → c ∷ d ∷ s ≢ 0 ∷ []
not_nul c d s e = cc

-- Whatever datagram comes, but for the dump request of one NUL, and whatever allocations fail, a server
-- with a valid table reaches no undefined behaviour, sends one datagram back, and its table is valid
-- again.
pub server_step-Answered :
    (t : Htable) (datagram : Bytes) (m : Memory)
    → IsValid t
    → datagram ≢ 0 ∷ []
    → Returns (server_step t (some datagram) m) Answered
unfolding server_step
server_step-Answered t [] m valid n = handle-Answered t [] m valid (λ e. cc)
server_step-Answered t (c ∷ []) m valid n = handle-Answered t (c ∷ []) m valid n
server_step-Answered t (c ∷ d ∷ datagram) m valid n =
    handle-Answered t (take max_msg_size (c ∷ d ∷ datagram)) m valid (not_nul c d _)
