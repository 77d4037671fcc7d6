-- ===== src/Args/Bounds.antt =====
-- The quorums that `parse_opt_args` gives are positive and at most the number of servers.
use distributed_hash_table.Base.{
  ℕ, ◌≤◌, ◌<◌, ◌≡◌, false, List, [], ◌∷◌, Option, none, some, arith, Memory, malloc, Bool-cases,
  ◌==◌, Option-cases, inl, inr, refl,
}
use mathlib.Core.Path.{subst}
use mathlib.Core.Option.{some-injective}
use distributed_hash_table.CString.{Bytes}
use distributed_hash_table.Args.{
  Args, Modified, Field, field_n, field_r, field_w, base_args, none_modified, field_of,
  parse_positive, assign, modified, mark, parse_loop, parse_all, reconcile, reconciled,
  parse_opt_args,
}

abbrev IsPositive : Args → Type 0
IsPositive a = (0 < a.n) × (0 < a.r) × (0 < a.w)

-- Each quorum needs at least one server and at most all.
pub record IsQuorum (a : Args) : Type 0 where
  pub read_pos : 0 < a.r
  pub read_le : a.r ≤ a.n
  pub write_pos : 0 < a.w
  pub write_le : a.w ≤ a.n

parse_positive-pos : (arg : Bytes) (k : ℕ) → parse_positive arg ≡ some k → 0 < k
unfolding parse_positive
parse_positive-pos arg k h = ground arith

-- Values that the user did not set are the default ones.
record Parsed (a : Args) (m : Modified) : Type 0 where
  positive : IsPositive a
  default_r : m.r_mod ≡ false → a.r ≡ 2
  default_w : m.w_mod ≡ false → a.w ≡ 2
  default_n : m.n_mod ≡ false → a.n ≡ 3

assign-Parsed :
    (f : Field) (k : ℕ) (a : Args) (m : Modified)
    → 0 < k
    → Parsed a m
    → Parsed (assign f k a) (mark f m)
unfolding assign mark
assign-Parsed field_n k a m h p = ground (arith, p.default_r, p.default_w)
assign-Parsed field_r k a m h p = ground (arith, p.default_n, p.default_w)
assign-Parsed field_w k a m h p = ground (arith, p.default_r, p.default_n)

none≢some {ℓ} : {A : Type ℓ} {a : A} → none ≡ some a → ⊥
none≢some h = cc

Parsed-subst :
    {a : Args} {m : Modified} {rest : List Bytes} {r : Args × Modified × List Bytes}
    → Parsed a m
    → some (a, m, rest) ≡ some r
    → Parsed r.0 r.1
Parsed-subst p h =
    subst (λ (x : Args × Modified × List Bytes). Parsed x.0 x.1) (some-injective _ _ h) p

parse_loop-Parsed :
    (supported : ℕ) (argv : List Bytes) (a : Args) (m : Modified) (r : Args × Modified × List Bytes)
    → Parsed a m
    → parse_loop supported argv a m ≡ some r
    → Parsed r.0 r.1
unfolding parse_loop
parse_loop-Parsed supported [] a m r p h = Parsed-subst p h
parse_loop-Parsed supported (arg ∷ []) a m r p h = elim (Option-cases (field_of supported arg)) [
  | inl stop ↦ Parsed-subst p (rw (stop, parse_loop) at h)
  | inr (f, e) ↦ absurd (none≢some (rw (e, parse_loop) at h))
]
parse_loop-Parsed supported (arg ∷ number ∷ rest) a m r p h =
    elim (Option-cases (field_of supported arg)) [
      | inl stop ↦ Parsed-subst p (rw (stop, parse_loop) at h)
      | inr (f, e) ↦ elim (Option-cases (parse_positive number)) [
        | inl bad ↦ absurd (none≢some (rw (e, bad, parse_loop) at h))
        | inr (k, e') ↦ elim (Bool-cases (modified f m)) [
          | inl twice ↦ absurd (none≢some (rw (e, e', twice, parse_loop) at h))
          | inr once ↦
              parse_loop-Parsed supported rest (assign f k a) (mark f m) r
                (assign-Parsed f k a m (parse_positive-pos number k e') p)
                (rw (e, e', once, parse_loop) at h)
        ]
      ]
    ]

reconcile-IsQuorum : (a b : Args) (m : Modified) → Parsed a m → reconcile a m ≡ some b → IsQuorum b
unfolding reconcile
reconcile-IsQuorum a b m p h = ground (arith, p.default_r, p.default_w, p.default_n)

reconciled-IsQuorum :
    (parsed : Option (Args × Modified × List Bytes)) (b : Args × List Bytes)
    → ((r : Args × Modified × List Bytes) → parsed ≡ some r → Parsed r.0 r.1)
    → reconciled parsed ≡ some b
    → IsQuorum b.0
unfolding reconciled
reconciled-IsQuorum none b p h = absurd (none≢some h)
reconciled-IsQuorum (some (a, m, rest)) b p h = elim (Option-cases (reconcile a m)) [
  | inl refused ↦ absurd (none≢some (rw (refused, reconciled) at h))
  | inr (c, e) ↦
      subst (λ (x : Args × List Bytes). IsQuorum x.0) (some-injective _ _ (rw (e, reconciled) at h))
        (reconcile-IsQuorum a c m (p (a, m, rest) refl) e)
]

base-Parsed : Parsed base_args none_modified
base-Parsed = record {
  positive = omega arith;
  default_r = λ _. refl;
  default_w = λ _. refl;
  default_n = λ _. refl;
}

parse_all-Parsed :
    (supported : ℕ) (argv : List Bytes) (r : Args × Modified × List Bytes)
    → parse_all supported argv ≡ some r
    → Parsed r.0 r.1
unfolding parse_all
parse_all-Parsed supported argv r h = elim (Bool-cases (supported == 0)) [
  | inl off ↦ Parsed-subst base-Parsed (rw off at h)
  | inr on ↦ parse_loop-Parsed supported argv base_args none_modified r base-Parsed (rw on at h)
]

-- Whatever the arguments, the quorums that `parse_opt_args` gives are at least 1 and at most the
-- number of servers.
pub parse_opt_args-IsQuorum :
    (supported : ℕ) (argv : List Bytes) (m : Memory) (b : Args × List Bytes)
    → (parse_opt_args supported argv m).0 ≡ some b
    → IsQuorum b.0
unfolding parse_opt_args
parse_opt_args-IsQuorum supported argv m b h = elim (Bool-cases (malloc m).0) [
  | inl got ↦
      reconciled-IsQuorum (parse_all supported argv) b (parse_all-Parsed supported argv)
        (rw got at h)
  | inr full ↦ absurd (none≢some (rw full at h))
]
