-- ===== src/Hashtable/Content.antt =====
-- `get_Htable_content` lists the pairs of the table, each key once.
use distributed_hash_table.Base.{
  ℕ, zero, suc, ◌+◌, ◌≤◌, ◌≡◌, ◌≢◌, refl, sym, Bool, false, List, [], ◌∷◌, ◌++◌, Option, none, some,
  ok, arith, if◌then◌else◌, length, get_elem?, All, get_elem?-lt, All-get_elem?, ap, ◌==◌, ◌∙◌,
  drop, drop-get_elem?, drop_all,
}
use mathlib.Core.List.{append_assoc, append-nil}
use distributed_hash_table.CString.{Bytes, CharPointer, str_eq}
use distributed_hash_table.Hashtable.{
  KvPair, Bucket, null, bucket, Htable, bucket_at, content_of_chain, content_loop,
  get_htable_content,
}
use distributed_hash_table.Hashtable.Chain.{IsChain, find, count, count-zero-find}
use distributed_hash_table.Hashtable.Table.{home, IsValid, find_in, view, view-array}

-- The pairs of one chain, and of an array of chains.
pub entries : Bucket → List KvPair
entries null = []
entries (bucket none v tail) = []
entries (bucket (some k) v tail) = record { key = some k; value = v } ∷ entries tail

pub all_entries : List Bucket → List KvPair
unfolding entries
all_entries [] = []
all_entries (b ∷ bs) = entries b ++ all_entries bs

-- Whether a pair has the key.
abbrev has_key : Bytes → CharPointer → Bool
has_key q none = false
has_key q (some k) = str_eq k q

-- The value of the first pair with a key, and the number of pairs with it.
unfoldable pub lookup : Bytes → List KvPair → CharPointer
lookup q [] = none
lookup q (kv ∷ l) = if has_key q kv.key then kv.value else lookup q l

unfoldable pub occurrences : Bytes → List KvPair → ℕ
occurrences q [] = 0
occurrences q (kv ∷ l) = if has_key q kv.key then suc (occurrences q l) else occurrences q l

content_of_chain_lem :
    (b : Bucket) (pairs : List KvPair)
    → IsChain b
    → content_of_chain b pairs [] ≡ ok (some (pairs ++ entries b), [])
unfolding content_of_chain entries
content_of_chain_lem null pairs h = absurd h
content_of_chain_lem (bucket none v tail) pairs h = rw append-nil
content_of_chain_lem (bucket (some k) none tail) pairs h = absurd h
content_of_chain_lem (bucket (some k) (some v) tail) pairs h =
    content_of_chain_lem tail (pairs ++ _ ∷ []) h ∙ simp append_assoc

content_loop_lem :
    (n i : ℕ) (bs : List Bucket) (pairs : List KvPair)
    → i + n ≡ length bs
    → All IsChain bs
    → content_loop n i bs pairs [] ≡ ok (some (pairs ++ all_entries (drop i bs)), [])
unfolding content_loop all_entries
content_loop_lem zero i bs pairs e h = rw (drop_all i bs (omega arith), append-nil)
content_loop_lem (suc n) i bs pairs e h =
    let (b, at) = get_elem?-lt bs i (omega arith) in
    rw (content_loop, at, bucket_at, content_of_chain_lem b pairs (All-get_elem? IsChain bs i h at))
      (content_loop_lem n (suc i) bs (pairs ++ entries b) (omega arith) h
        ∙ rw (drop-get_elem? bs i at) (simp append_assoc))

lookup-entries :
    (q : Bytes) (b : Bucket) (rest : List KvPair)
    → IsChain b
    → (lookup q (entries b ++ rest) ≡ (if count q b == 0 then lookup q rest else find q b))
      × (occurrences q (entries b ++ rest) ≡ count q b + occurrences q rest)
unfolding lookup occurrences entries find count
lookup-entries q null rest h = absurd h
lookup-entries q (bucket none v tail) rest h = (refl, omega arith)
lookup-entries q (bucket (some k) none tail) rest h = absurd h
lookup-entries q (bucket (some k) (some v) tail) rest h =
    let (found, counted) = lookup-entries q tail rest h in (ground arith, ground arith)

occurrences_nowhere :
    (q : Bytes) (bs : List Bucket)
    → All IsChain bs
    → ((i : ℕ) (b : Bucket) → get_elem? bs i ≡ some b → count q b ≡ 0)
    → (lookup q (all_entries bs) ≡ none) × (occurrences q (all_entries bs) ≡ 0)
unfolding all_entries lookup occurrences
occurrences_nowhere q [] h away = (refl, refl)
occurrences_nowhere q (b ∷ bs) h away =
    let (found, counted) = occurrences_nowhere q bs h.1 (λ i. away (suc i)) in
    let (first, sum) = lookup-entries q b (all_entries bs) h.0 in ground (arith, away 0 b refl)

-- What an optional chain holds under a key.
abbrev find_at : Bytes → Option Bucket → Option Bytes
find_at q none = none
find_at q (some b) = find q b

occurrences_only :
    (q : Bytes) (bs : List Bucket) (j : ℕ)
    → All IsChain bs
    → ((i : ℕ) (b : Bucket) → get_elem? bs i ≡ some b → j ≢ i → count q b ≡ 0)
    → ((b : Bucket) → get_elem? bs j ≡ some b → count q b ≤ 1)
    → (lookup q (all_entries bs) ≡ find_at q (get_elem? bs j))
      × (occurrences q (all_entries bs) ≤ 1)
unfolding all_entries lookup occurrences
occurrences_only q [] j h away once = (refl, omega arith)
occurrences_only q (b ∷ bs) zero h away once =
    let (found, counted) = occurrences_nowhere q bs h.1 (λ i c e. away (suc i) c e (omega arith)) in
    let (first, sum) = lookup-entries q b (all_entries bs) h.0 in
    ground (arith, once b refl, count-zero-find q b)
occurrences_only q (b ∷ bs) (suc j) h away once =
    let (found, counted) =
      occurrences_only q bs j h.1 (λ i c e n. away (suc i) c e (omega arith)) once in
    let (first, sum) = lookup-entries q b (all_entries bs) h.0 in
    let here : count q b ≡ 0 = away 0 b refl (omega arith) in ground arith

-- Neither pointer of the pair is NULL.
abbrev pub IsFilled : KvPair → Type 0
IsFilled kv = (kv.key ≢ none) × (kv.value ≢ none)

entries-IsFilled :
    (b : Bucket) (rest : List KvPair)
    → IsChain b
    → All IsFilled rest
    → All IsFilled (entries b ++ rest)
unfolding entries
entries-IsFilled null rest h r = absurd h
entries-IsFilled (bucket none v tail) rest h r = r
entries-IsFilled (bucket (some k) none tail) rest h r = absurd h
entries-IsFilled (bucket (some k) (some v) tail) rest h r =
    ((λ e. cc, λ e. cc), entries-IsFilled tail rest h r)

all_entries-IsFilled : (bs : List Bucket) → All IsChain bs → All IsFilled (all_entries bs)
unfolding all_entries
all_entries-IsFilled [] h = tt
all_entries-IsFilled (b ∷ bs) h =
    entries-IsFilled b (all_entries bs) h.0 (all_entries-IsFilled bs h.1)

find_at-find_in :
    (bs : List Bucket) (size : ℕ) (q : Bytes)
    → find_at q (get_elem? bs (home q size)) ≡ find_in bs size q
unfolding find_in
find_at-find_in bs size q = ground arith

-- `get_Htable_content` of a valid table, with enough memory, gives a list of pairs without NULL
-- pointers in which every key has the value that the table holds under it, and in which no key
-- stands twice.
pub get_htable_content_lem :
    (t : Htable)
    → IsValid t
    → (pairs : List KvPair) × (get_htable_content t [] ≡ ok (some pairs, []))
      × All IsFilled pairs
      × ((q : Bytes) → (lookup q pairs ≡ view t q) × (occurrences q pairs ≤ 1))
unfolding get_htable_content
get_htable_content_lem t valid = (
  all_entries valid.array,
  simp (valid.allocated, content_loop_lem t.size 0 valid.array [] (omega arith) valid.chains),
  all_entries-IsFilled valid.array valid.chains,
  λ q.
      let (found, counted) =
        occurrences_only q valid.array (home q t.size) valid.chains
          (λ i b e n. (valid.placed q i b e).1 n) (λ b e. (valid.placed q (home q t.size) b e).0) in
      (
        found
            ∙ (find_at-find_in valid.array t.size q
                ∙ sym (ap (λ f. f q) (view-array t valid.array valid.allocated))),
        counted,
      ),
)
