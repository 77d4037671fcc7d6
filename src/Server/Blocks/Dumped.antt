-- ===== src/Server/Blocks/Dumped.antt =====
-- The answer to a dump request with its blocks: it frees the list and the message.
use distributed_hash_table.Base.{
  Run-cases, ℕ, ◌+◌, ◌≡◌, refl, ◌∙◌, inl, inr, true, false, List, [], Option, none, some, Memory,
  malloc, Run, ok, fault, null_pointer, ◌>>=◌, Returns, length, map, length-map,
}
use distributed_hash_table.CString.{Bytes}
use distributed_hash_table.Network.{max_msg_size}
use distributed_hash_table.Heap.{Heap, same, alloc, release, Holds}
use distributed_hash_table.Heap.Laws.{alloc-cases, alloc-malloc, release-Holds}
use distributed_hash_table.Hashtable as Values
use distributed_hash_table.Hashtable.{KvPair, Htable}
use distributed_hash_table.Hashtable.Blocks.{Table}
use distributed_hash_table.Hashtable.Blocks.Owned.{forget_table, IsTidyTable}
use distributed_hash_table.Hashtable.Blocks.Content.{PairList, kv_list_free, get_htable_content}
use distributed_hash_table.Hashtable.Blocks.PairLists.{
  of_list, forget_pair, forget_list, kv_list_free-Left, Listed,
}
use distributed_hash_table.Hashtable.Blocks.Listed.{get_htable_content-Listed}
use distributed_hash_table.Server as Values_server
use distributed_hash_table.Server.{ValuePart, value_part, dump_loop, htonl}
use distributed_hash_table.Server.Blocks.{send_content, dump}

-- `dump` on values, by the list that it makes and the outcome of its calloc.
module _ (t : Htable) (m m₁ m₂ : Memory) where
  values_dump_refused :
      (list : Option (List KvPair))
      → Values.get_htable_content t m ≡ ok (list, m₁)
      → malloc m₁ ≡ (false, m₂)
      → Values_server.dump t m ≡ ok ([], m₂)
  unfolding Values_server.dump
  values_dump_refused list run failed = rw (Values_server.dump, run, failed) refl

  values_dump_null :
      Values.get_htable_content t m ≡ ok (none, m₁)
      → malloc m₁ ≡ (true, m₂)
      → Values_server.dump t m ≡ fault null_pointer
  unfolding Values_server.dump
  values_dump_null run got = rw (Values_server.dump, run, got) refl

  values_dump_loop :
      (pairs : List KvPair)
      → Values.get_htable_content t m ≡ ok (some pairs, m₁)
      → malloc m₁ ≡ (true, m₂)
      → Values_server.dump t m
        ≡ (dump_loop max_msg_size pairs (htonl (length pairs)) >>= λ sent. ok (sent, m₂))
  unfolding Values_server.dump
  values_dump_loop pairs run got = rw (Values_server.dump, run, got) refl

-- What the answer to a dump request ends in.
pub record Dumped (run : Run (List Bytes × Memory)) (g : ℕ → ℕ) (r : List Bytes × Heap)
    : Type 0 where
  pub owned : Holds r.1 g
  pub agrees : run ≡ ok (r.0, r.1.memory)

-- `dump` with its blocks, by the same two.
dump-send_content :
    (t : Table) (h h₁ : Heap) (list : Option PairList)
    → get_htable_content t h ≡ ok (list, h₁)
    → dump t h ≡ send_content list h₁
unfolding dump
dump-send_content t h h₁ list run = rw (dump, run) refl

send_content-refused :
    (list : Option PairList) (h h₂ : Heap)
    → (alloc h).0 ≡ none
    → kv_list_free list (alloc h).1 ≡ ok h₂
    → send_content list h ≡ ok ([], h₂)
unfolding send_content
send_content-refused list h h₂ failed freed = rw (send_content, failed, freed) refl

send_content-sent :
    (l : PairList) (at : ℕ) (sent : List Bytes) (h h₂ h₃ : Heap)
    → (alloc h).0 ≡ some at
    → dump_loop max_msg_size (map forget_pair l.pairs) (htonl (length (map forget_pair l.pairs)))
      ≡ ok sent
    → release at (alloc h).1 ≡ ok h₂
    → kv_list_free (some l) h₂ ≡ ok h₃
    → send_content (some l) h ≡ ok (sent, h₃)
unfolding send_content
send_content-sent l at sent h h₂ h₃ got e released freed =
    let e' = rw (length-map forget_pair l.pairs) at e in
    rw (send_content, got) (rw (e', released, freed) refl)

-- The answer once the message is allocated: the run on values would have faulted without a list.
dump-Dumped_sent :
    (t : Table) (h h₁ : Heap) (g : ℕ → ℕ) (list : Option PairList) (at : ℕ)
    (v : List Bytes × Memory)
    → get_htable_content t h ≡ ok (list, h₁)
    → (alloc h₁).0 ≡ some at
    → Listed (Values.get_htable_content (forget_table t) h.memory) g (list, h₁)
    → Holds (alloc h₁).1 (λ a. same a at + (of_list a list + g a))
    → malloc h₁.memory ≡ (true, (alloc h₁).1.memory)
    → Values_server.dump (forget_table t) h.memory ≡ ok v
    → Returns (dump t h) (Dumped (Values_server.dump (forget_table t) h.memory) g)
dump-Dumped_sent t h h₁ g none at v run got s own taken answered =
    let e =
      values_dump_null (forget_table t) h.memory h₁.memory (alloc h₁).1.memory s.agrees taken in
    absurd (cc)
dump-Dumped_sent t h h₁ g (some l) at v run got s own taken answered =
    let pairs = map forget_pair l.pairs in
    let step =
      values_dump_loop (forget_table t) h.memory h₁.memory (alloc h₁).1.memory pairs s.agrees
        taken in
    elim (Run-cases (dump_loop max_msg_size pairs (htonl (length pairs)))) [
      | inr (why, e) ↦ let faulty = rw e at step in absurd (cc)
      | inl (sent, e) ↦
          let (h₃, e₃, (own₃, m₃)) =
            release-Holds at (alloc h₁).1 (λ a. of_list a (some l) + g a) own in
          let (h₄, e₄, (own₄, m₄)) = kv_list_free-Left (some l) h₃ g s.whole own₃ in
          (
            (sent, h₄),
            dump-send_content t h h₁ (some l) run
                ∙ send_content-sent l at sent h₁ h₃ h₄ got e e₃ e₄,
            record { owned = own₄; agrees = rw (m₄, m₃) (rw e at step) },
          )
    ]

-- The answer by the list that is made, or NULL.
dump-Dumped_made :
    (t : Table) (h h₁ : Heap) (g : ℕ → ℕ) (list : Option PairList) (v : List Bytes × Memory)
    → get_htable_content t h ≡ ok (list, h₁)
    → Listed (Values.get_htable_content (forget_table t) h.memory) g (list, h₁)
    → Values_server.dump (forget_table t) h.memory ≡ ok v
    → Returns (dump t h) (Dumped (Values_server.dump (forget_table t) h.memory) g)
dump-Dumped_made t h h₁ g list v run s answered =
    let m = h.memory in
    let m₁ = h₁.memory in
    elim (alloc-cases h₁ (λ a. of_list a list + g a) s.owned) [
      | inl (failed, own₂) ↦
          let (h₃, e₃, (own₃, m₃)) = kv_list_free-Left list (alloc h₁).1 g s.whole own₂ in
          (
            ([], h₃),
            dump-send_content t h h₁ list run ∙ send_content-refused list h₁ h₃ failed e₃,
            record {
              owned = own₃;
              agrees =
                  values_dump_refused (forget_table t) m m₁ h₃.memory (forget_list list) s.agrees
                    (rw m₃ (rw failed at (alloc-malloc h₁)));
            },
          )
      | inr (at, got, own₂) ↦
          dump-Dumped_sent t h h₁ g list at v run got s own₂ (rw got at (alloc-malloc h₁)) answered
    ]

pub dump-Dumped :
    (t : Table) (h : Heap) (g : ℕ → ℕ) (v : List Bytes × Memory)
    → IsTidyTable t
    → Holds h g
    → Values_server.dump (forget_table t) h.memory ≡ ok v
    → Returns (dump t h) (Dumped (Values_server.dump (forget_table t) h.memory) g)
dump-Dumped t h g v tidy own answered =
    let ((list, h₁), e₁, s) = get_htable_content-Listed t h g tidy own in
    dump-Dumped_made t h h₁ g list v e₁ s answered
