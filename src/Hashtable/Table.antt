-- ===== src/Hashtable/Table.antt =====
-- The table as a map from keys to values: each operation on a valid table refines it.
use distributed_hash_table.Base.{
  ℕ, zero, suc, ◌≤◌, ◌<◌, ◌≡◌, ◌≢◌, ◌⊎◌, ◌∷◌, refl, sym, inl, inr, List, [], Option, none, some,
  Memory, ok, Returns, arith, length, get_elem?, set, All, get_elem?-lt, get_elem?-set_self,
  get_elem?-set_ne, length-set, All-set, All-get_elem?, ap, ◌∙◌,
}
use mathlib.Core.Path.{subst₂, fun_ext}
use mathlib.Core.Option.{some-injective}
use native.Mathlib.Decide.{ℕ_discrete}
use distributed_hash_table.Error.{ErrorCode, err_none}
use distributed_hash_table.CString.{Bytes, strdup}
use distributed_hash_table.CString.Laws.{str_eq_iff, str_eq_ne}
use distributed_hash_table.Hashtable.{
  Bucket, Htable, hash_function, bucket_at, add_htable_value, get_htable_value, add_to_array,
}
use distributed_hash_table.Hashtable.Chain.{
  IsChain, find, count, Written, Added, add_to_chain-Added, get_from_chain_lem,
}

-- The bucket of a key.
abbrev pub home : Bytes → ℕ → ℕ
home q size = hash_function (some q) size

-- The index is in range for a table of positive size.
pub home-lt : (q : Bytes) (size : ℕ) → 0 < size → home q size < size
unfolding hash_function
home-lt q zero h = elim h [ ]
home-lt q (suc n) h = omega arith

-- A key stands at most once in the table, and only in its own bucket.
abbrev pub IsPlaced : ℕ → List Bucket → Type 0
IsPlaced size bs =
    (q : Bytes) (i : ℕ) (b : Bucket)
    → get_elem? bs i ≡ some b
    → (count q b ≤ 1) × (home q size ≢ i → count q b ≡ 0)

-- The value that an array of buckets holds under a key.
unfoldable pub find_in : List Bucket → ℕ → Bytes → Option Bytes
find_in bs size q = elim (get_elem? bs (home q size)) [ none ↦ none | some b ↦ find q b ]

unfoldable pub view : Htable → Bytes → Option Bytes
unfolding find_in
view t q = elim t.buckets [ none ↦ none | some bs ↦ find_in bs t.size q ]

module _ (bs : List Bucket) (size : ℕ) (k : Bytes) (b b' : Bucket)
    (at : get_elem? bs (home k size) ≡ some b) (lt : home k size < length bs) where
  find_in-set_home :
      (q : Bytes)
      → home q size ≡ home k size
      → (find_in bs size q ≡ find q b) × (find_in (set bs (home k size) b') size q ≡ find q b')
  unfolding find_in
  find_in-set_home q same =
      (rw (same, at, find_in), rw (same, get_elem?-set_self bs (home k size) b' lt, find_in))

  find_in-set_away :
      (q : Bytes)
      → home k size ≢ home q size
      → find_in (set bs (home k size) b') size q ≡ find_in bs size q
  unfolding find_in
  find_in-set_away q apart = rw (get_elem?-set_ne bs b' apart, find_in)

  -- The write to one chain is the write to the whole array.
  Written-array :
      (v : Bytes) (e : ErrorCode)
      → Written k v (λ q. find q b) (λ q. find q b') e
      → Written k v (find_in bs size) (find_in (set bs (home k size) b') size) e
  Written-array v e (inl (c, w)) = inl (
    c,
    λ q. elim (ℕ_discrete (home k size) (home q size)) [
      | yes same ↦ let (before, after) = find_in-set_home q (sym same) in rw (before, after) (w q)
      | no apart ↦
          rw (find_in-set_away q apart, str_eq_ne k q (λ same. apart (ap (λ s. home s size) same)))
    ],
  )
  Written-array v e (inr (c, w)) = inr (
    c,
    λ q. elim (ℕ_discrete (home k size) (home q size)) [
      | yes same ↦ let (before, after) = find_in-set_home q (sym same) in rw (before, after) (w q)
      | no apart ↦ find_in-set_away q apart
    ],
  )

  -- Each key stays in its place.
  IsPlaced-set :
      (v : Bytes) (m : Memory) (e : ErrorCode) (m' : Memory)
      → Added k v b m (b', e, m')
      → IsPlaced size bs
      → IsPlaced size (set bs (home k size) b')
  IsPlaced-set v m e m' a placed q i c here = elim (ℕ_discrete (home k size) i) [
    | yes same ↦
        let e₁ : b' ≡ c = some-injective _ _ (
          sym (get_elem?-set_self bs (home k size) b' lt)
          ∙ (ap (λ j. get_elem? (set bs (home k size) b') j) same ∙ here)) in
        let before = placed q i b (ap (λ j. get_elem? bs j) (sym same) ∙ at) in
        rw (← e₁) (ground (arith, before, a.counted q, a.once, str_eq_iff k q))
    | no apart ↦ placed q i c (sym (get_elem?-set_ne bs b' apart) ∙ here)
  ]

-- The array of a valid table, apart from the pointer to it.
pub record IsTable (size : ℕ) (bs : List Bucket) : Type 0 where
  pub width : length bs ≡ size
  pub positive : 0 < size
  pub chains : All IsChain bs
  pub placed : IsPlaced size bs

pub record IsValid (t : Htable) : Type 0 where
  pub array : List Bucket
  pub allocated : t.buckets ≡ some array
  pub table : IsTable t.size array
  pub open table use *

-- What a write of `v` at `k` to an array ends in.
record WritesArray (bs : List Bucket) (size : ℕ) (k v : Bytes) (m : Memory)
    (r : List Bucket × ErrorCode × Memory) : Type 0 where
  table : IsTable size r.0
  written : Written k v (find_in bs size) (find_in r.0 size) r.1
  enough : m ≡ [] → (r.1 ≡ err_none) × (r.2 ≡ [])

add_to_array-Writes :
    (bs : List Bucket) (size : ℕ) (k v : Bytes) (m : Memory)
    → IsTable size bs
    → Returns (add_to_array bs size k v m) (WritesArray bs size k v m)
unfolding add_to_array bucket_at
add_to_array-Writes bs size k v m t =
    let i = home k size in
    let lt : i < length bs = rw t.width (home-lt k size t.positive) in
    let (b, at) = get_elem?-lt bs i lt in
    let ((b', e, m'), run, a) =
      add_to_chain-Added b k v m (All-get_elem? IsChain bs i t.chains at) in
    (
      (set bs i b', e, m'),
      rw (add_to_array, at, bucket_at, run),
      record {
        table = record {
          width = length-set bs i b' ∙ t.width;
          positive = t.positive;
          chains = All-set IsChain bs i b' t.chains a.chain;
          placed = IsPlaced-set bs size k b b' at lt v m e m' a t.placed;
        };
        written = Written-array bs size k b b' at lt v e a.written;
        enough = a.enough;
      },
    )

pub view-array : (t : Htable) (bs : List Bucket) → t.buckets ≡ some bs → view t ≡ find_in bs t.size
unfolding view
view-array t bs e = fun_ext λ q. simp (view, e)

-- What a write of `v` at `k` ends in.
pub record Writes (t : Htable) (k v : Bytes) (m : Memory) (r : Htable × ErrorCode × Memory)
    : Type 0 where
  pub valid : IsValid r.0
  pub size : r.0.size ≡ t.size
  pub written : Written k v (view t) (view r.0) r.1
  pub enough : (m ≢ []) ⊎ ((r.1 ≡ err_none) × (r.2 ≡ []))

settled {ℓ} : {P : Type ℓ} (m : Memory) → (m ≡ [] → P) → (m ≢ []) ⊎ P
settled [] f = inr (f refl)
settled (b ∷ m) f = inl (λ e. cc)

-- `add_Htable_value` on a valid table reaches no undefined behaviour and keeps the table valid. Either
-- it answers ERR_NONE, the key then has the value and the other keys have the values that they had, or it
-- answers ERR_NOMEM and every key has the value that it had; it answers ERR_NONE if memory suffices.
pub add_htable_value-Writes :
    (t : Htable) (k v : Bytes) (m : Memory)
    → IsValid t
    → Returns (add_htable_value t (some k) (some v) m) (Writes t k v m)
unfolding add_htable_value
add_htable_value-Writes t k v m valid =
    let ((bs, e, m'), run, w) = add_to_array-Writes valid.array t.size k v m valid.table in
    (
      (record t { buckets = some bs }, e, m'),
      simp (add_htable_value, valid.allocated, run),
      record {
        valid = record { array = bs; allocated = refl; table = w.table };
        size = refl;
        written =
            subst₂ (λ f g. Written k v f g e) (sym (view-array t valid.array valid.allocated))
              (sym (view-array (record t { buckets = some bs }) bs refl)) w.written;
        enough = settled m w.enough;
      },
    )

-- `get_Htable_value` on a valid table copies the value of the key, and answers NULL if it has none.
pub get_htable_value-view :
    (t : Htable) (k : Bytes) (m : Memory)
    → IsValid t
    → get_htable_value t (some k) m ≡ ok (strdup (view t k) m)
unfolding get_htable_value view find_in bucket_at
get_htable_value-view t k m valid =
    let lt : home k t.size < length valid.array =
      rw valid.width (home-lt k t.size valid.positive) in
    let (b, at) = get_elem?-lt valid.array (home k t.size) lt in
    simp (get_htable_value, view, find_in, bucket_at, valid.allocated, at, get_from_chain_lem)
