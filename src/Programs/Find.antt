-- ===== src/Programs/Find.antt =====
-- The search of pps-client-find.c.
use distributed_hash_table.Base.{
  ℕ, zero, suc, ◌≤◌, ◌≡◌, refl, ap, [], ◌∷◌, ◌++◌, Option, none, some, ok, arith, inl, inr,
  Bool-cases, true, false, ==_iff, length, Memory, ◌==◌,
}
use distributed_hash_table.CString.{Bytes}
use distributed_hash_table.System.{Platform}
use distributed_hash_table.Network.{Client}
use distributed_hash_table.Scan.{option_map}
use distributed_hash_table.Programs.{
  Call, ok_value, index_text, starts_with, strstr, fetch, client_find,
}

-- The text stands at the offset.
pub record Occurs (sub s : Bytes) (i : ℕ) : Type 0 where
  pub front : Bytes
  pub back : Bytes
  pub split : s ≡ front ++ (sub ++ back)
  pub offset : length front ≡ i

-- The offset is the first at which the text stands, or there is none.
abbrev pub IsFirst : Bytes → Bytes → Option ℕ → Type 0
IsFirst sub s none = (j : ℕ) → ¬ Occurs sub s j
IsFirst sub s (some i) = Occurs sub s i × ((j : ℕ) → Occurs sub s j → i ≤ j)

starts_with-prefix : (sub s : Bytes) → starts_with sub s ≡ true → (back : Bytes) × (s ≡ sub ++ back)
starts_with-prefix [] s h = (s, refl)
starts_with-prefix (c ∷ sub) [] h = cc
starts_with-prefix (c ∷ sub) (d ∷ s) h = elim (Bool-cases (c == d)) [
  | inl same ↦
      let (back, e) = starts_with-prefix sub s (rw same at h) in
      (back, ground (arith, same, e, ==_iff c d))
  | inr other ↦ absurd (cc (rw other at h))
]

prefix-starts_with : (sub back : Bytes) → starts_with sub (sub ++ back) ≡ true
prefix-starts_with [] back = refl
prefix-starts_with (c ∷ sub) back = ground (arith, prefix-starts_with sub back)

-- At offset 0 the text is a prefix.
Occurs-zero : (sub s : Bytes) → Occurs sub s 0 → starts_with sub s ≡ true
Occurs-zero sub s o = split_zero o.front o.split o.offset
  where
    split_zero :
        (front : Bytes) → s ≡ front ++ (sub ++ o.back) → length front ≡ 0 → starts_with sub s ≡ true
    split_zero [] e z = rw e (prefix-starts_with sub o.back)
    split_zero (c ∷ front) e z = absurd (omega (arith, z))

Occurs-suc : (sub s : Bytes) (c j : ℕ) → Occurs sub (c ∷ s) (suc j) → Occurs sub s j
Occurs-suc sub s c j o = split_suc o.front o.split o.offset
  where
    split_suc :
        (front : Bytes) → c ∷ s ≡ front ++ (sub ++ o.back) → length front ≡ suc j → Occurs sub s j
    split_suc [] e z = absurd (omega (arith, z))
    split_suc (d ∷ front) e z = record {
      front = front;
      back = o.back;
      split = cc;
      offset = omega (arith, z);
    }

no_Occurs_nil : (sub : Bytes) (j : ℕ) → starts_with sub [] ≡ false → ¬ Occurs sub [] j
no_Occurs_nil sub j no_start o = split_nil o.front o.split o.offset
  where
    split_nil : (front : Bytes) → [] ≡ front ++ (sub ++ o.back) → length front ≡ j → ⊥
    split_nil [] e z =
        let start : starts_with sub [] ≡ true = rw e (prefix-starts_with sub o.back) in cc
    split_nil (c ∷ front) e z = cc

-- An occurrence behind a byte at which the text does not start.
Occurs-behind :
    (sub s : Bytes) (c j : ℕ)
    → starts_with sub (c ∷ s) ≡ false
    → Occurs sub (c ∷ s) j
    → (k : ℕ) × (j ≡ suc k) × Occurs sub s k
Occurs-behind sub s c zero no_start o = let start = Occurs-zero sub (c ∷ s) o in absurd (cc)
Occurs-behind sub s c (suc k) no_start o = (k, refl, Occurs-suc sub s c k o)

IsFirst-cons :
    (sub s : Bytes) (c : ℕ) (found : Option ℕ)
    → starts_with sub (c ∷ s) ≡ false
    → IsFirst sub s found
    → IsFirst sub (c ∷ s) (option_map suc found)
IsFirst-cons sub s c none no_start h =
    λ j o. let (k, e, o') = Occurs-behind sub s c j no_start o in h k o'
IsFirst-cons sub s c (some i) no_start h = (
  record {
    front = c ∷ h.0.front;
    back = h.0.back;
    split = ap (λ r. c ∷ r) h.0.split;
    offset = omega (arith, h.0.offset);
  },
  λ j o. let (k, e, o') = Occurs-behind sub s c j no_start o in omega (arith, h.1 k o'),
)

IsFirst-zero : (sub s : Bytes) → starts_with sub s ≡ true → IsFirst sub s (some 0)
IsFirst-zero sub s start =
    let (back, e) = starts_with-prefix sub s start in
    (record { front = []; back = back; split = e; offset = refl }, λ j o. omega arith)

-- `strstr` answers the first offset, or that there is none.
pub strstr-IsFirst : (s sub : Bytes) → IsFirst sub s (strstr s sub)
unfolding strstr
strstr-IsFirst [] sub = elim (Bool-cases (starts_with sub [])) [
  | inl start ↦ rw start (IsFirst-zero sub [] start)
  | inr no_start ↦ rw no_start (λ j. no_Occurs_nil sub j no_start)
]
strstr-IsFirst (c ∷ s) sub = elim (Bool-cases (starts_with sub (c ∷ s))) [
  | inl start ↦ rw start (IsFirst-zero sub (c ∷ s) start)
  | inr no_start ↦ rw no_start (IsFirst-cons sub s c (strstr s sub) no_start (strstr-IsFirst s sub))
]

-- When both gets succeed, pps-client-find prints the first offset at which the second value stands in
-- the first, and -1 if it does not.
pub client_find-IsFirst :
    (platform : Platform) (fuel : ℕ) (client : Client) (key sub_key : Bytes) (first second : Call)
    (v w : Bytes) (m m₁ m₂ : Memory)
    → fetch platform fuel client key first m ≡ ok (some v, m₁)
    → fetch platform fuel client sub_key second m₁ ≡ ok (some w, m₂)
    → (found : Option ℕ) × (client_find platform fuel client key sub_key (first ∷ second ∷ []) m
        ≡ ok (record { output = ok_value (index_text found); status = 0 }))
      × IsFirst w v found
unfolding client_find
client_find-IsFirst platform fuel client key sub_key first second v w m m₁ m₂ h h' =
    (strstr v w, rw (h, h') refl, strstr-IsFirst v w)
