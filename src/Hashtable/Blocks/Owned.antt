-- ===== src/Hashtable/Blocks/Owned.antt =====
-- Which blocks a bucket, an array and a table own, and which buckets the operations leave.
use distributed_hash_table.Base.{ℕ, ◌+◌, ◌<◌, ◌≡◌, ◌≢◌, List, [], ◌∷◌, none, some, All, length, map}
use distributed_hash_table.Heap.{same, text, held}
use distributed_hash_table.Hashtable.{Bucket, null, bucket, Htable}
use distributed_hash_table.Hashtable.Blocks.{Pair, Chain, last, link, Table}

-- How often a pair owns an address.
abbrev pub of_pair : ℕ → Pair → ℕ
of_pair a kv = held a kv.key + held a kv.value

abbrev pub of_chain : ℕ → Chain → ℕ
of_chain a (last kv) = of_pair a kv
of_chain a (link kv next tail) = of_pair a kv + (same a next + of_chain a tail)

abbrev pub of_array : ℕ → List Chain → ℕ
of_array a [] = 0
of_array a (b ∷ bs) = of_chain a b + of_array a bs

abbrev pub of_table : ℕ → Table → ℕ
of_table a t = elim t.buckets [ none ↦ 0 | some (at, bs) ↦ same a at + of_array a bs ]

-- The bucket with its addresses forgotten.
abbrev pub forget : Chain → Bucket
forget (last kv) = bucket (text kv.key) (text kv.value) null
forget (link kv next tail) = bucket (text kv.key) (text kv.value) (forget tail)

abbrev pub forget_all : List Chain → List Bucket
forget_all bs = map forget bs

abbrev pub forget_table : Table → Htable
forget_table t = record {
  buckets = elim t.buckets [ none ↦ none | some (at, bs) ↦ some (forget_all bs) ];
  size = t.size;
}

-- Each bucket before the last one is filled, and the last one holds nothing.
abbrev pub IsTidy : Chain → Type 0
IsTidy (last kv) = (kv.key ≡ none) × (kv.value ≡ none)
IsTidy (link kv next tail) = (kv.key ≢ none) × (kv.value ≢ none) × IsTidy tail

pub record IsTidyArray (size : ℕ) (bs : List Chain) : Type 0 where
  pub width : length bs ≡ size
  pub tidy : All IsTidy bs

-- A table without buckets has size 0; the other has one tidy chain for each of a positive size.
abbrev pub IsTidyTable : Table → Type 0
IsTidyTable t = elim t.buckets [
  | none ↦ t.size ≡ 0
  | some (at, bs) ↦ (0 < t.size) × IsTidyArray t.size bs
]
