-- ===== src/Network/Quorum.antt =====
-- What the loop of `network_get` decides: the first message that has come as often as the read quorum.
use distributed_hash_table.Base.{
  ℕ, zero, suc, ◌+◌, ◌%◌, ◌≤◌, ◌<◌, ◌≡◌, refl, ◌∙◌, inl, inr, false, List, [], ◌∷◌, Option, none,
  some, leb, ◌==◌, if◌then◌else◌, Memory, ok, arith, length, take_all, Bool-cases, All,
}
use distributed_hash_table.Error.{ErrorCode, err_none, err_network}
use distributed_hash_table.CString.{Bytes, CharPointer, text_at, str_eq, strdup}
use distributed_hash_table.CString.Laws.{str_eq_iff, str_eq_refl}
use distributed_hash_table.Hashtable.{Htable, add_htable_value}
use distributed_hash_table.Hashtable.Update.{add_htable_value-done}
use distributed_hash_table.Hashtable.Table.{IsValid, view, get_htable_value-view}
use distributed_hash_table.Network.{
  bumped, unsigned_of_char, increment_and_get, buffer_text, is_missing, answer, get_loop,
  max_msg_size,
}

-- How often a text is among others.
unfoldable pub tally : Bytes → List Bytes → ℕ
tally q [] = 0
tally q (x ∷ xs) = if str_eq x q then suc (tally q xs) else tally q xs

-- The first text that comes for the r-th time, given the texts seen before.
unfoldable pub winner : ℕ → List Bytes → List Bytes → Option Bytes
unfolding tally
winner r seen [] = none
winner r seen (x ∷ xs) =
    let later = winner r (x ∷ seen) xs in if leb r (tally x (x ∷ seen)) then some x else later

-- The value under which a number of occurrences is stored.
abbrev pub count_text : ℕ → Option Bytes
count_text n = if n == 0 then none else some (n ∷ [])

-- The table counts the texts seen, each below the quorum.
pub record Counts (t : Htable) (seen : List Bytes) (r : ℕ) : Type 0 where
  pub valid : IsValid t
  pub counts : (q : Bytes) → view t q ≡ count_text (tally q seen)
  pub below : (q : Bytes) → tally q seen < r

bumped_small : (c : ℕ) → c < 127 → bumped c [] ≡ suc c ∷ []
unfolding bumped
bumped_small c h = ground (arith, suc_mod)
  where
    suc_mod : (c + 1) % 256 ≡ suc c
    suc_mod = omega arith

unsigned_small : (c : ℕ) → c < 127 → unsigned_of_char ((c + 1) % 256) ≡ suc c
unsigned_small c h = ground (arith, suc_mod)
  where
    suc_mod : (c + 1) % 256 ≡ suc c
    suc_mod = omega arith

-- A call counts the key once more.
pub increment_and_get_lem :
    (t : Htable) (seen : List Bytes) (r : ℕ) (key : Bytes)
    → r ≤ 127
    → Counts t seen r
    → (t' : Htable) × (increment_and_get t key [] ≡ ok (tally key (key ∷ seen), t', []))
      × IsValid t'
      × ((q : Bytes) → view t' q ≡ count_text (tally q (key ∷ seen)))
unfolding tally increment_and_get strdup
increment_and_get_lem t seen r key small c =
    let n = tally key seen in
    let (t', run, valid, reads) = add_htable_value-done t key (suc n ∷ []) c.valid in
    (
      t',
      run_eq n (c.below key) (c.counts key) t' run,
      valid,
      λ q. ground (arith, reads q, c.counts q, str_eq_iff key q),
    )
  where
    run_eq :
        (n : ℕ)
        → n < r
        → view t key ≡ count_text n
        → (t' : Htable)
        → add_htable_value t (some key) (some (suc n ∷ [])) [] ≡ ok (t', err_none, [])
        → increment_and_get t key [] ≡ ok (if str_eq key key then suc n else n, t', [])
    run_eq zero lt held t' run =
        rw (get_htable_value-view t key [] c.valid, held, strdup, run, str_eq_refl)
    run_eq (suc n) lt held t' run =
        let stored : view t key ≡ some (suc n ∷ []) = held ∙ ground arith in
        rw (
          get_htable_value-view t key [] c.valid,
          stored,
          strdup,
          bumped_small (suc n) (omega arith),
          run,
          unsigned_small (suc n) (omega arith),
          str_eq_refl,
        )

-- The texts that the loop looks at: of the first n results, those before the first that is missing.
unfoldable pub texts : ℕ → List (Option Bytes) → List Bytes
texts zero replies = []
texts (suc n) [] = []
texts (suc n) (none ∷ replies) = []
texts (suc n) (some msg ∷ replies) =
    let later = texts n replies in if is_missing msg then [] else text_at msg ∷ later

-- A reply that leaves room for the NUL behind it.
abbrev pub Fits : Option Bytes → Type 0
Fits none = Unit
Fits (some msg) = length msg < max_msg_size

pub buffer_text_lem :
    (size : ℕ) (msg : Bytes) → length msg < size → buffer_text size msg ≡ ok (text_at msg)
unfolding buffer_text
buffer_text_lem size msg h = ground (arith, take_all size msg (omega arith))

-- The code and the value that the decision gives.
abbrev pub decision : Option Bytes → ErrorCode × CharPointer × Memory
decision none = (err_network, none, [])
decision (some v) = (err_none, some v, [])

pub Counts-below :
    {t : Htable} (text : Bytes) (seen : List Bytes) (r : ℕ)
    → Counts t seen r
    → leb r (tally text (text ∷ seen)) ≡ false
    → (q : Bytes) → tally q (text ∷ seen) < r
unfolding tally
Counts-below text seen r c short q = ground (arith, c.below q, str_eq_iff text q, str_eq_refl text)

pub get_loop-winner :
    (n : ℕ) (replies : List (Option Bytes)) (t : Htable) (seen : List Bytes) (r : ℕ)
    → r ≤ 127
    → All Fits replies
    → Counts t seen r
    → get_loop n replies t r [] ≡ ok (decision (winner r seen (texts n replies)))
unfolding get_loop winner texts answer strdup
get_loop-winner zero replies t seen r small fit c = refl
get_loop-winner (suc n) [] t seen r small fit c = refl
get_loop-winner (suc n) (none ∷ replies) t seen r small fit c = refl
get_loop-winner (suc n) (some msg ∷ replies) t seen r small fit c =
    let text = text_at msg in
    let (t', run, valid, reads) = increment_and_get_lem t seen r text small c in
    elim (Bool-cases (is_missing msg)) [
      | inl missing ↦ rw missing
      | inr present ↦ elim (Bool-cases (leb r (tally text (text ∷ seen)))) [
        | inl reached ↦ rw (present, buffer_text_lem max_msg_size msg fit.0, run, reached)
        | inr short ↦
            rw (present, buffer_text_lem max_msg_size msg fit.0, run, short)
              (get_loop-winner n replies t' (text ∷ seen) r small fit.1 (record {
                valid = valid;
                counts = reads;
                below = Counts-below text seen r c short;
              }))
      ]
    ]
