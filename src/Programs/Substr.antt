-- ===== src/Programs/Substr.antt =====
-- The substrings of pps-client-substr.c.
use distributed_hash_table.Base.{
  ℕ, zero, suc, ◌+◌, ◌-◌, ◌^◌, ◌≤◌, ◌<◌, ◌≡◌, refl, ap, [], ◌∷◌, some, ok, fault, out_of_bounds,
  arith, length, Memory, take, drop, get_elem?, drop-get_elem?, le→ltb, lt→ltb, ◌>>=◌,
}
use distributed_hash_table.CString.{Bytes, IsText}
use distributed_hash_table.CString.Laws.{find_nul-append, text_at-append}
use distributed_hash_table.Scan.{ℤ, pos, negsuc, scan_int}
use distributed_hash_table.Hashtable.{word}
use distributed_hash_table.System.{Platform}
use distributed_hash_table.Network.{Client}
use distributed_hash_table.Programs.{
  Call, put_text, start_of, copied_text, cut_out, fetch, store, put_part, client_substr,
}

-- The place in a value of that length: from its start, or from its end for a negative number.
abbrev pub IsPlace : ℕ → ℤ → ℕ → Type 0
IsPlace len (pos p) k = p ≡ k
IsPlace len (negsuc p) k = k + suc p ≡ len

start_of-IsPlace : (len : ℕ) (p : ℤ) (k : ℕ) → len < 2 ^ 64 → IsPlace len p k → start_of len p ≡ k
unfolding start_of
start_of-IsPlace len (pos p) k h e = e
start_of-IsPlace len (negsuc p) k h e = omega arith

IsText-drop : (n : ℕ) (s : Bytes) → IsText s → IsText (drop n s)
IsText-drop zero [] h = tt
IsText-drop zero (c ∷ s) h = h
IsText-drop (suc n) [] h = tt
IsText-drop (suc n) (c ∷ s) h = IsText-drop n s h.1

IsText-take : (n : ℕ) (s : Bytes) → IsText s → IsText (take n s)
IsText-take zero [] h = tt
IsText-take zero (c ∷ s) h = tt
IsText-take (suc n) [] h = tt
IsText-take (suc n) (c ∷ s) h = (h.0, IsText-take n s h.1)

length-take-drop : (n k : ℕ) (s : Bytes) → k + n ≤ length s → length (take n (drop k s)) ≡ n
length-take-drop zero zero [] h = refl
length-take-drop zero zero (c ∷ s) h = refl
length-take-drop (suc n) zero [] h = absurd (omega (arith, h))
length-take-drop (suc n) zero (c ∷ s) h = ap suc (length-take-drop n zero s (omega (arith, h)))
length-take-drop n (suc k) [] h = absurd (omega (arith, h))
length-take-drop n (suc k) (c ∷ s) h = length-take-drop n k s (omega (arith, h))

copied_text_lem :
    (copied array : Bytes)
    → IsText copied
    → get_elem? array (length copied) ≡ some 0
    → copied_text copied array ≡ ok copied
unfolding copied_text
copied_text_lem copied array h at =
    let rest : drop (length copied) array ≡ 0 ∷ drop (suc (length copied)) array =
      drop-get_elem? array (length copied) at in
    rw
      (
        copied_text,
        rest,
        find_nul-append copied (drop (suc (length copied)) array) h,
        rest,
        text_at-append copied (drop (suc (length copied)) array) h,
      )
      refl

-- pps-client-substr with a place and a length that lie in the value, which is a C string shorter than
-- 2 ^ 64: if the array `new_value` happens to hold a NUL behind the bytes copied, exactly these bytes
-- are put under the target, and what is printed is the outcome of that put.
pub client_substr-store :
    (platform : Platform) (fuel : ℕ) (client : Client) (array key position len target val : Bytes)
    (first second : Call) (m m' : Memory) (p : ℤ) (k n : ℕ)
    → scan_int position ≡ some p
    → scan_int len ≡ some (pos n)
    → fetch platform fuel client key first m ≡ ok (some val, m')
    → IsText val
    → length val < 2 ^ 64
    → IsPlace (length val) p k
    → k + n ≤ length val
    → get_elem? array n ≡ some 0
    → client_substr platform fuel client array key position len target (first ∷ second ∷ []) m ≡ (
        store platform fuel client target (take n (drop k val)) second m' >>= λ (e, _).
        ok (record { output = put_text e; status = 0 }))
unfolding client_substr put_part cut_out
client_substr-store platform fuel client array key position len target val first second m m' p k n
      scanned limit got text short place inside nul =
    let taken : length (take n (drop k val)) ≡ n = length-take-drop n k val inside in
    let copied : copied_text (take n (drop k val)) array ≡ ok (take n (drop k val)) =
      copied_text_lem (take n (drop k val)) array
        (IsText-take n (drop k val) (IsText-drop k val text)) (rw taken nul) in
    let sum : word (k + n) ≡ k + n = omega arith in
    rw
      (
        client_substr,
        scanned,
        limit,
        got,
        put_part,
        start_of-IsPlace (length val) p k short place,
        sum,
        le→ltb (length val) (k + n) inside,
        cut_out,
        le→ltb (length val) k (omega arith),
        copied,
      )
      refl

-- A negative place before the start of the value, and a length that reaches into the value and not
-- behind it, pass the test of pps-client-substr, whose sum wraps around: it then reads out of bounds.
pub client_substr-out_of_bounds :
    (platform : Platform) (fuel : ℕ) (client : Client) (array key position len target val : Bytes)
    (first second : Call) (m m' : Memory) (p n : ℕ)
    → scan_int position ≡ some (negsuc p)
    → scan_int len ≡ some (pos n)
    → fetch platform fuel client key first m ≡ ok (some val, m')
    → suc p < 2 ^ 63
    → length val < suc p
    → suc p ≤ length val + n
    → n ≤ suc p
    → client_substr platform fuel client array key position len target (first ∷ second ∷ []) m
      ≡ fault out_of_bounds
unfolding client_substr put_part cut_out start_of
client_substr-out_of_bounds platform fuel client array key position len target val first second m m'
      p n scanned limit got big before reach part =
    let start : word (length val + (2 ^ 64 - suc p)) ≡ length val + (2 ^ 64 - suc p) =
      omega arith in
    let wrapped : word (length val + (2 ^ 64 - suc p) + n) ≡ length val + n - suc p = omega arith in
    rw
      (
        client_substr,
        scanned,
        limit,
        got,
        put_part,
        start,
        wrapped,
        le→ltb (length val) (length val + n - suc p) (omega arith),
        cut_out,
        lt→ltb (length val) (length val + (2 ^ 64 - suc p)) (omega arith),
      )
      refl
