-- ===== src/Hashtable/Construct.antt =====
-- A new table.
use distributed_hash_table.Base.{
  ℕ, zero, suc, ◌<◌, ◌≡◌, refl, sym, true, none, some, Memory, malloc, arith, get_elem?, replicate,
  All-replicate, length-replicate, get_elem?-replicate,
}
use mathlib.Core.Option.{some-injective}
use distributed_hash_table.CString.{Bytes}
use distributed_hash_table.Hashtable.{Bucket, empty_bucket, construct_htable}
use distributed_hash_table.Hashtable.Chain.{IsChain, find, count}
use distributed_hash_table.Hashtable.Table.{home, home-lt, find_in, view, IsValid}

find_in-replicate :
    (size : ℕ) (q : Bytes) → 0 < size → find_in (replicate size empty_bucket) size q ≡ none
unfolding find_in find
find_in-replicate size q h =
    rw (get_elem?-replicate size (home q size) empty_bucket (home-lt q size h), find_in)

get_elem?-replicate_eq :
    (n i : ℕ) (b : Bucket) → get_elem? (replicate n empty_bucket) i ≡ some b → b ≡ empty_bucket
get_elem?-replicate_eq zero i b h = cc
get_elem?-replicate_eq (suc n) zero b h = sym (some-injective _ _ h)
get_elem?-replicate_eq (suc n) (suc i) b h = get_elem?-replicate_eq n i b h

-- A table of positive size is valid and empty when calloc succeeds, and has no buckets when it fails.
pub construct_htable_lem :
    (size : ℕ) (m : Memory)
    → 0 < size
    → (malloc m).0 ≡ true
    → IsValid (construct_htable size m).0
      × ((q : Bytes) → view (construct_htable size m).0 q ≡ none)
unfolding construct_htable view count
construct_htable_lem size m h got = rw got (
  record {
    array = replicate size empty_bucket;
    allocated = refl;
    table = record {
      width = length-replicate size empty_bucket;
      positive = h;
      chains = All-replicate IsChain size empty_bucket tt;
      placed = λ q i b e. rw (get_elem?-replicate_eq size i b e) (omega arith);
    };
  },
  λ q. find_in-replicate size q h,
)
