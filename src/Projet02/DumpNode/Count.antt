-- ===== src/Projet02/DumpNode/Count.antt =====
-- The number of pairs, as the server of week 10 sends it and pps-dump-node reads it.
use distributed_hash_table.Base.{
  ℕ, ◌+◌, ◌-◌, ◌*◌, ◌/◌, ◌%◌, ◌^◌, ◌≤◌, ◌<◌, ◌≡◌, refl, ◌∙◌, [], ◌∷◌, ◌++◌, arith, if◌then◌else◌,
  ◌==◌, ==_iff, Bool-cases, inl, inr,
}
use distributed_hash_table.CString.{Bytes}
use distributed_hash_table.Projet02.Server.{htonl, count_bytes}
use distributed_hash_table.Projet02.DumpNode.{count_loop, read_count}

-- Low byte first.
count_bytes_low : (n : ℕ) → n < 2 ^ 16 → count_bytes n ≡ (n % 256) ∷ (n / 256) ∷ 0 ∷ 0 ∷ []
unfolding count_bytes
count_bytes_low n h =
    let a : htonl n / 2 ^ 24 % 256 ≡ n % 256 = omega arith in
    let b : htonl n / 2 ^ 16 % 256 ≡ n / 256 = omega arith in
    let c : htonl n / 2 ^ 8 % 256 ≡ 0 = omega arith in
    let d : htonl n % 256 ≡ 0 = omega arith in rw (a, b, c, d) refl

count_loop_small :
    (a b : ℕ) (s : Bytes)
    → a < 256
    → b < 128
    → count_loop 4 (a ∷ b ∷ 0 ∷ 0 ∷ s) 0 ≡ a * 2 ^ 24 + b * 2 ^ 16
unfolding count_loop
count_loop_small a b s ha hb = ground arith

count_loop_zero :
    (b : ℕ) (s : Bytes)
    → 128 ≤ b
    → b < 256
    → count_loop 4 (0 ∷ b ∷ 0 ∷ 0 ∷ s) 0 ≡ 255 * 2 ^ 24 + b * 2 ^ 16
unfolding count_loop
count_loop_zero b s h hb = ground arith

count_loop_large :
    (a b : ℕ) (s : Bytes)
    → 0 < a
    → a < 256
    → 128 ≤ b
    → b < 256
    → count_loop 4 (a ∷ b ∷ 0 ∷ 0 ∷ s) 0 ≡ (a - 1) * 2 ^ 24 + b * 2 ^ 16
unfolding count_loop
count_loop_large a b s pos ha h hb = ground arith

htonl_two : (a b : ℕ) → a < 256 → b < 256 → htonl (a * 2 ^ 24 + b * 2 ^ 16) ≡ b * 2 ^ 8 + a
htonl_two a b ha hb = omega arith

-- A count below 2 ^ 15 is read as it was sent.
pub read_count-count_bytes : (n : ℕ) (s : Bytes) → n < 2 ^ 15 → read_count (count_bytes n ++ s) ≡ n
unfolding read_count
read_count-count_bytes n s h =
    rw
      (
        count_bytes_low n (omega arith),
        count_loop_small (n % 256) (n / 256) s (omega arith) (omega arith),
      )
      (htonl_two (n % 256) (n / 256) (omega arith) (omega arith) ∙ omega arith)

-- A count from 2 ^ 15 to 2 ^ 16 - 1 is not read as it was sent: a multiple of 256 is read as 255 more,
-- every other as one less.
pub read_count-off :
    (n : ℕ) (s : Bytes)
    → 2 ^ 15 ≤ n
    → n < 2 ^ 16
    → read_count (count_bytes n ++ s) ≡ (if n % 256 == 0 then n + 255 else n - 1)
unfolding read_count
read_count-off n s low high = elim (Bool-cases (n % 256 == 0)) [
  | inl even ↦
      let low_zero : n % 256 ≡ 0 = (==_iff (n % 256) 0).0 even in
      rw (count_bytes_low n high, low_zero, count_loop_zero (n / 256) s (omega arith) (omega arith))
        (htonl_two 255 (n / 256) (omega arith) (omega arith) ∙ omega arith)
  | inr odd ↦
      let pos : 0 < n % 256 = ground (arith, odd) in
      rw
        (
          odd,
          count_bytes_low n high,
          count_loop_large (n % 256) (n / 256) s pos (omega arith) (omega arith) (omega arith),
        )
        (htonl_two (n % 256 - 1) (n / 256) (omega arith) (omega arith) ∙ omega arith)
]
