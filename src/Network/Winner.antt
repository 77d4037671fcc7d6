-- ===== src/Network/Winner.antt =====
-- What the decision means: a text wins if it comes as often as the quorum, and none wins otherwise.
use distributed_hash_table.Base.{
  ℕ, ◌+◌, ◌≤◌, ◌<◌, ◌≡◌, List, [], ◌∷◌, none, some, leb, arith, Bool-cases, inl, inr, leb→le,
}
use mathlib.Core.Path.{subst}
use mathlib.Core.Option.{some-injective}
use distributed_hash_table.CString.{Bytes}
use distributed_hash_table.CString.Laws.{str_eq_iff, str_eq_refl}
use distributed_hash_table.Network.Quorum.{tally, winner}

winner-reached_from :
    (r : ℕ) (xs seen : List Bytes) (v : Bytes)
    → winner r seen xs ≡ some v
    → r ≤ tally v seen + tally v xs
unfolding winner
winner-reached_from r [] seen v h = cc
winner-reached_from r (x ∷ xs) seen v h = elim (Bool-cases (leb r (tally x (x ∷ seen)))) [
  | inl reached ↦
      let same : x ≡ v = some-injective _ _ (rw reached at h) in
      let enough =
        subst (λ y. r ≤ tally y (y ∷ seen)) same (leb→le r (tally x (x ∷ seen)) reached) in
      ground (arith, enough, same, str_eq_refl v)
  | inr short ↦ let later = winner-reached_from r xs (x ∷ seen) v (rw short at h) in ground arith
]

winner-none_from :
    (r : ℕ) (xs seen : List Bytes)
    → winner r seen xs ≡ none
    → ((q : Bytes) → tally q seen < r)
    → (q : Bytes) → tally q seen + tally q xs < r
unfolding winner
winner-none_from r [] seen h below q = omega (arith, below q)
winner-none_from r (x ∷ xs) seen h below q = elim (Bool-cases (leb r (tally x (x ∷ seen)))) [
  | inl reached ↦ absurd (cc (rw reached at h))
  | inr short ↦
      let later =
        winner-none_from r xs (x ∷ seen) (rw short at h)
          (λ p. ground (arith, below p, str_eq_iff x p, str_eq_refl x)) q in
      ground arith
]

-- The text that wins is there as often as the quorum.
pub winner-reached :
    (r : ℕ) (xs : List Bytes) (v : Bytes) → winner r [] xs ≡ some v → r ≤ tally v xs
unfolding tally
winner-reached r xs v h = omega (arith, winner-reached_from r xs [] v h)

-- If none wins, each is there less often.
pub winner-none :
    (r : ℕ) (xs : List Bytes) → 0 < r → winner r [] xs ≡ none → (q : Bytes) → tally q xs < r
unfolding tally
winner-none r xs pos h q = omega (arith, winner-none_from r xs [] h (λ p. pos) q)
