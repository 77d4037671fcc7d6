-- ===== src/Server/Protocol.antt =====
-- How the server reads the messages that clients send.
use distributed_hash_table.Base.{
  ◌+◌, ◌≤◌, ◌≡◌, ◌≢◌, refl, ◌∙◌, ap, ◌⊎◌, inl, inr, [], ◌∷◌, ◌++◌, none, some, length,
  length-append, arith, Memory, take, take_all, ◌==◌, if◌then◌else◌, ==_iff, Bool-cases,
}
use distributed_hash_table.CString.{Bytes, IsText, text_at}
use distributed_hash_table.CString.Laws.{
  text_at-append, text_at_text, find_nul-append, find_nul_text,
}
use distributed_hash_table.Hashtable.{Htable}
use distributed_hash_table.Network.{max_msg_size}
use distributed_hash_table.Server.{
  value_part, answer_get, answer_put, answer_key, handle, server_step,
}

-- A message without a NUL has no value.
value_part_text : (key : Bytes) → IsText key → value_part key ≡ none
unfolding value_part
value_part_text key h = rw (value_part, find_nul_text key h)

-- The value behind a key and a NUL.
value_part-append :
    (key value : Bytes)
    → IsText key
    → IsText value
    → value_part (key ++ 0 ∷ value)
      ≡ some (
          if length value == 0
          then record { text = []; len = 1 }
          else record { text = value; len = length value })
unfolding value_part
value_part-append key value h k =
    rw (value_part, find_nul-append key value h, text_at-append key value h, text_at_text value k)
      (ground (arith, length-append key (0 ∷ value)))

-- All but the empty message and the single NUL are get and put requests.
pub handle-answer_key :
    (t : Htable) (msg : Bytes) (m : Memory)
    → msg ≢ []
    → msg ≢ 0 ∷ []
    → handle t msg m ≡ answer_key t (text_at msg) (value_part msg) m
unfolding handle
handle-answer_key t [] m n n' = absurd (n refl)
handle-answer_key t (c ∷ []) m n n' = elim (Bool-cases (c == 0)) [
  | inl nul ↦ absurd (n' (ap (λ b. b ∷ []) ((==_iff c 0).0 nul)))
  | inr other ↦ rw other
]
handle-answer_key t (c ∷ d ∷ msg) m n n' = refl

pub text-ne-nul : (s : Bytes) → IsText s → s ≢ 0 ∷ []
text-ne-nul [] h e = cc
text-ne-nul (c ∷ s) h e = ground (arith, h.0)

-- A message of legal length that is a key, with no NUL, is a get request.
pub server_step_get :
    (t : Htable) (key : Bytes) (m : Memory)
    → IsText key
    → key ≢ []
    → length key ≤ max_msg_size
    → server_step t (some key) m ≡ answer_get t key m
unfolding server_step answer_key
server_step_get t key m h filled short =
    let cut : take max_msg_size key ≡ key = take_all max_msg_size key short in
    ap (λ msg. handle t msg m) cut
    ∙ (handle-answer_key t key m filled (text-ne-nul key h)
        ∙ rw (value_part_text key h, text_at_text key h))

packet-filled : (key value : Bytes) → key ++ 0 ∷ value ≢ []
packet-filled [] value e = cc
packet-filled (c ∷ key) value e = cc

packet-ne-nul :
    (key value : Bytes) → IsText key → (key ≢ []) ⊎ (value ≢ []) → key ++ 0 ∷ value ≢ 0 ∷ []
packet-ne-nul [] [] h some_byte e = elim some_byte [ inl n ↦ n refl | inr n ↦ n refl ]
packet-ne-nul [] (v ∷ value) h some_byte e = cc
packet-ne-nul (c ∷ key) value h some_byte e = ground (arith, h.0)

answer_key_value :
    (t : Htable) (key value : Bytes) (m : Memory)
    → answer_key t key
        (some (
          if length value == 0
          then record { text = []; len = 1 }
          else record { text = value; len = length value }))
        m
      ≡ answer_put t key value m
unfolding answer_key
answer_key_value t key [] m = refl
answer_key_value t key (c ∷ value) m = ground arith

-- A message of legal length that is a key, a NUL and a value is a put request, unless both are empty.
pub server_step_put :
    (t : Htable) (key value : Bytes) (m : Memory)
    → IsText key
    → IsText value
    → (key ≢ []) ⊎ (value ≢ [])
    → length key + 1 + length value ≤ max_msg_size
    → server_step t (some (key ++ 0 ∷ value)) m ≡ answer_put t key value m
unfolding server_step answer_key
server_step_put t key value m h k some_byte short =
    let cut : take max_msg_size (key ++ 0 ∷ value) ≡ key ++ 0 ∷ value =
      take_all max_msg_size (key ++ 0 ∷ value) (rw length-append (omega arith)) in
    ap (λ msg. handle t msg m) cut
    ∙ (handle-answer_key t (key ++ 0 ∷ value) m (packet-filled key value)
          (packet-ne-nul key value h some_byte)
        ∙ rw (value_part-append key value h k, text_at-append key value h)
            (answer_key_value t key value m))
