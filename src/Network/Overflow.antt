-- ===== src/Network/Overflow.antt =====
-- The counter of equal replies is one signed byte.
use distributed_hash_table.Base.{
  ℕ, ◌+◌, ◌-◌, ◌%◌, ◌^◌, ◌≤◌, ◌<◌, ◌≡◌, refl, ◌∙◌, [], ◌∷◌, some, ok, arith,
}
use distributed_hash_table.CString.{Bytes, strdup}
use distributed_hash_table.CString.Laws.{str_eq_refl}
use distributed_hash_table.Hashtable.{Htable}
use distributed_hash_table.Hashtable.Table.{IsValid, view, get_htable_value-view}
use distributed_hash_table.Hashtable.Update.{add_htable_value-done}
use distributed_hash_table.Network.{unsigned_of_char, bumped, increment_and_get}

bumped_large : (c : ℕ) → c < 255 → bumped c [] ≡ (c + 1) ∷ []
unfolding bumped
bumped_large c high = let next : (c + 1) % 256 ≡ c + 1 = omega arith in ground (arith, next)

unsigned_large :
    (c : ℕ) → 127 ≤ c → c < 255 → unsigned_of_char ((c + 1) % 256) ≡ 2 ^ 32 - 256 + c + 1
unsigned_large c low high = let next : (c + 1) % 256 ≡ c + 1 = omega arith in ground (arith, next)

-- With enough memory, a text that was counted c times, c from 127 to 254, is answered by
-- `increment_and_get` with 2 ^ 32 - 256 + c + 1, which reaches every quorum below 2 ^ 31.
pub increment_and_get-overflow :
    (t : Htable) (key : Bytes) (c : ℕ)
    → IsValid t
    → view t key ≡ some (c ∷ [])
    → 127 ≤ c
    → c < 255
    → (t' : Htable) × (increment_and_get t key [] ≡ ok (2 ^ 32 - 256 + c + 1, t', []))
      × IsValid t'
      × (view t' key ≡ some ((c + 1) ∷ []))
unfolding increment_and_get strdup
increment_and_get-overflow t key c valid held low high =
    let (t', run, valid', reads) = add_htable_value-done t key ((c + 1) ∷ []) valid in
    (
      t',
      rw
          (
            get_htable_value-view t key [] valid,
            held,
            strdup,
            bumped_large c high,
            run,
            unsigned_large c low high,
          )
          refl,
      valid',
      reads key ∙ rw (str_eq_refl key) refl,
    )
