-- ===== src/Ring/Index.antt =====
-- `index_of_first_node` finds the first node whose digest is not below the key's, and 0 past the last.
use distributed_hash_table.Base.{
  ℕ, zero, suc, ◌+◌, ◌<◌, ◌≡◌, refl, ◌⊎◌, inl, inr, Bool, true, false, List, [], ◌∷◌, some, ok,
  arith, get_elem?, map, Bool-cases, ap, ◌∙◌,
}
use mathlib.Core.Path.{subst}
use mathlib.Core.Option.{some-injective}
use distributed_hash_table.CString.{Bytes, strncmp}
use distributed_hash_table.Node.{sha_digest_length}
use distributed_hash_table.Ring.{is_less, index_from, index_of_first_node}
use distributed_hash_table.Ring.Servers.{Server, node_of}

-- Whether the digest of a server comes before another, as `strncmp` sees it.
abbrev pub before : Bytes → Server → Bool
before sha s = is_less (strncmp sha_digest_length s.sha sha)

-- Where the first server stands whose digest is not before the key's, if there is one.
pub data First (sha : Bytes) (ss : List Server) (i : ℕ) : Type 0 where
  here :
      (s : Server)
      → get_elem? ss i ≡ some s
      → before sha s ≡ false
      → ((j : ℕ) (t : Server) → j < i → get_elem? ss j ≡ some t → before sha t ≡ true)
      → First sha ss i
  past_end :
      i ≡ 0
      → ((j : ℕ) (t : Server) → get_elem? ss j ≡ some t → before sha t ≡ true)
      → First sha ss i

all_cons :
    (sha : Bytes) (s : Server) (ss : List Server)
    → before sha s ≡ true
    → ((j : ℕ) (t : Server) → get_elem? ss j ≡ some t → before sha t ≡ true)
    → (j : ℕ) (t : Server) → get_elem? (s ∷ ss) j ≡ some t
    → before sha t ≡ true
all_cons sha s ss go all zero t e = subst (λ x. before sha x ≡ true) (some-injective _ _ e) go
all_cons sha s ss go all (suc j) t e = all j t e

below_cons :
    (sha : Bytes) (s : Server) (ss : List Server) (k : ℕ)
    → before sha s ≡ true
    → ((j : ℕ) (t : Server) → j < k → get_elem? ss j ≡ some t → before sha t ≡ true)
    → (j : ℕ) (t : Server) → j < suc k
    → get_elem? (s ∷ ss) j ≡ some t
    → before sha t ≡ true
below_cons sha s ss k go below zero t lt e =
    subst (λ x. before sha x ≡ true) (some-injective _ _ e) go
below_cons sha s ss k go below (suc j) t lt e = below j t (omega arith) e

-- The loop that began at index i: found after k more nodes, or past the end.
Scanned : Bytes → List Server → ℕ → Type 0
Scanned sha ss i =
    ((k : ℕ) × (s : Server) × (index_from i (map node_of ss) sha ≡ ok (i + k))
      × (get_elem? ss k ≡ some s)
      × (before sha s ≡ false)
      × ((j : ℕ) (t : Server) → j < k → get_elem? ss j ≡ some t → before sha t ≡ true))
    ⊎ ((index_from i (map node_of ss) sha ≡ ok 0)
        × ((j : ℕ) (t : Server) → get_elem? ss j ≡ some t → before sha t ≡ true))

index_from_lem : (sha : Bytes) (ss : List Server) (i : ℕ) → Scanned sha ss i
unfolding Scanned index_from
index_from_lem sha [] i = inr (refl, λ j t e. cc)
index_from_lem sha (s ∷ ss) i = elim (Bool-cases (before sha s)) [
  | inr stop ↦ inl (0, s, rw stop (ap ok (omega arith)), refl, stop, λ j t lt e. elim lt [ ])
  | inl go ↦ elim (index_from_lem sha ss (suc i)) [
    | inl (k, t, run, at, stop, below) ↦
        inl (suc k, t, rw go (run ∙ ap ok (omega arith)), at, stop, below_cons sha s ss k go below)
    | inr (run, all) ↦ inr (rw go run, all_cons sha s ss go all)
  ]
]

-- `index_of_first_node` answers with the first index whose digest is not before the key's, or with 0
-- if all are before it.
pub index_of_first_node-First :
    (sha : Bytes) (ss : List Server)
    → (i : ℕ) × (index_of_first_node (map node_of ss) sha ≡ ok i) × First sha ss i
unfolding index_of_first_node Scanned
index_of_first_node-First sha ss = elim (index_from_lem sha ss 0) [
  | inl (k, s, run, at, stop, below) ↦ (k, run ∙ ap ok (omega arith), here s at stop below)
  | inr (run, all) ↦ (0, run, past_end refl all)
]
