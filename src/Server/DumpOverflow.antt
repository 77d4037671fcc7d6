-- ===== src/Server/DumpOverflow.antt =====
-- A dump of a pair that does not fit the buffer, and how the pair comes there.
use distributed_hash_table.Base.{
  ◌+◌, ◌≡◌, ◌<◌, refl, List, [], ◌∷◌, ◌++◌, some, ok, fault, out_of_bounds, length, length-append,
  arith, lt→ltb, ◌≢◌, ◌∙◌, sym, ap, none, Bool-cases, inl, inr, All, if◌then◌else◌,
}
use distributed_hash_table.CString.{Bytes, CharPointer, str_eq}
use distributed_hash_table.CString.Laws.{str_eq_iff, str_eq_refl}
use distributed_hash_table.Hashtable.{
  KvPair, Htable, get_htable_content, construct_htable, htable_size,
}
use distributed_hash_table.Hashtable.Construct.{construct_htable_lem}
use distributed_hash_table.Hashtable.Content.{lookup, IsFilled, get_htable_content_lem}
use distributed_hash_table.Network.{max_msg_size}
use distributed_hash_table.Server.{
  htonl, write_pair, dump_pair, dump_loop, dump, handle, server_step, serve,
}
use distributed_hash_table.Server.Trace.{put, IsLegal, server_step-Serves}

-- A pair whose strings and NULs are more than MAX_MSG_SIZE bytes, the first of the list.
server_step_overflow :
    (t : Htable) (key value : Bytes) (rest : List KvPair)
    → get_htable_content t [] ≡ ok (some (record { key = some key; value = some value } ∷ rest), [])
    → max_msg_size < length key + 1 + (length value + 1)
    → server_step t (some (0 ∷ [])) [] ≡ fault out_of_bounds
unfolding server_step handle dump dump_loop dump_pair write_pair
server_step_overflow t key value rest content large =
    let written : max_msg_size < length (key ++ 0 ∷ (value ++ 0 ∷ [])) =
      omega
        (arith, large, length-append key (0 ∷ (value ++ 0 ∷ [])), length-append value (0 ∷ [])) in
    rw
      (
        content,
        lt→ltb max_msg_size
            (length (htonl (length (record { key = some key; value = some value } ∷ rest)))
              + (length key + 1)
              + (length value + 1))
            (omega (arith, large)),
        lt→ltb max_msg_size (length (key ++ 0 ∷ (value ++ 0 ∷ []))) written,
      )
      refl

-- A pair that stands first and is filled.
first_pair :
    (key value : Bytes) (k v : CharPointer) (rest : List KvPair)
    → k ≢ none
    → v ≢ none
    → ((q : Bytes)
        → lookup q (record { key = k; value = v } ∷ rest)
          ≡ (if str_eq key q then some value else none))
    → (k ≡ some key) × (v ≡ some value)
unfolding lookup
first_pair key value none v rest f g reads = absurd (f refl)
first_pair key value (some k) none rest f g reads = absurd (g refl)
first_pair key value (some k) (some v) rest f g reads =
    let own : some v ≡ (if str_eq key k then some value else none) =
      rw (str_eq_refl k) at (reads k) in
    elim (Bool-cases (str_eq key k)) [
      | inl same ↦ (ap some (sym ((str_eq_iff key k).0 same)), own ∙ rw same refl)
      | inr other ↦ absurd (let wrong : some v ≡ none = own ∙ rw other refl in cc)
    ]

-- The first pair of a list that is filled and stands for one value under one key.
only_pair :
    (key value : Bytes) (pairs : List KvPair)
    → All IsFilled pairs
    → ((q : Bytes) → lookup q pairs ≡ (if str_eq key q then some value else none))
    → (rest : List KvPair) × (pairs ≡ record { key = some key; value = some value } ∷ rest)
unfolding lookup
only_pair key value [] filled reads =
    absurd (let wrong : none ≡ some value = reads key ∙ rw (str_eq_refl key) refl in cc)
only_pair key value (kv ∷ rest) filled reads =
    let (k, v) = first_pair key value kv.key kv.value rest filled.0.0 filled.0.1 reads in (rest, cc)

-- A server with a new table and enough memory gets a legal put request of exactly MAX_MSG_SIZE bytes, and
-- then a dump-node request: it writes behind the end of the buffer of the dump.
pub serve_overflow :
    (key value : Bytes)
    → IsLegal (put key value)
    → length key + 1 + length value ≡ max_msg_size
    → serve (construct_htable htable_size []).0 (some (key ++ 0 ∷ value) ∷ some (0 ∷ []) ∷ []) []
      ≡ fault out_of_bounds
unfolding serve
serve_overflow key value legal full =
    let (valid, empty) = construct_htable_lem htable_size [] (omega arith) refl in
    let (t, s) =
      server_step-Serves (construct_htable htable_size []).0 (λ q. none) (put key value) valid empty
        legal in
    let (pairs, content, filled, reads) = get_htable_content_lem t s.valid in
    let (rest, first) = only_pair key value pairs filled (λ q. (reads q).0 ∙ s.store q) in
    rw (serve, s.run)
      (rw
        (server_step_overflow t key value rest (content ∙ ap (λ l. ok (some l, [])) first)
          (omega (arith, full)))
        refl)
