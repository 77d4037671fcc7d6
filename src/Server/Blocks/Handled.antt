-- ===== src/Server/Blocks/Handled.antt =====
-- A round of the server with its blocks: it frees what it allocates for the answer.
use distributed_hash_table.Base.{
  ok-of_bind, ℕ, ◌+◌, ◌≡◌, refl, sym, ◌∙◌, inl, inr, true, List, [], ◌∷◌, Option, none, some,
  Memory, Run, ok, ◌>>=◌, ◌==◌, Returns, Bool-cases,
}
use distributed_hash_table.Error.{ErrorCode}
use distributed_hash_table.CString.{Bytes, CharPointer, text_at}
use distributed_hash_table.Heap.{Heap, Held, text, free_const_ptr, Holds}
use distributed_hash_table.Heap.Laws.{free_const_ptr-Holds}
use distributed_hash_table.Hashtable as Values
use distributed_hash_table.Hashtable.{KvPair, Htable}
use distributed_hash_table.Hashtable.Blocks.{Table, get_htable_value, add_htable_value}
use distributed_hash_table.Hashtable.Blocks.Owned.{of_table, forget_table, IsTidyTable}
use distributed_hash_table.Hashtable.Blocks.Read.{get_htable_value-Got}
use distributed_hash_table.Hashtable.Blocks.Write.{add_htable_value-Wrote}
use distributed_hash_table.Server as Values_server
use distributed_hash_table.Server.{ValuePart, value_part, dump_loop, htonl}
use distributed_hash_table.Server.Blocks.{dump, answer_get, answer_put, answer_key, handle}
use distributed_hash_table.Server.Blocks.Dumped.{dump-Dumped}

-- What a round ends in: the table is tidy, the blocks that are allocated are its own and those beside it,
-- and the round is the one on values.
pub record Handled (run : Run (Htable × List Bytes × Memory)) (g : ℕ → ℕ)
    (r : Table × List Bytes × Heap) : Type 0 where
  pub tidy : IsTidyTable r.0
  pub owned : Holds r.2 (λ a. of_table a r.0 + g a)
  pub agrees : run ≡ ok (forget_table r.0, r.1, r.2.memory)

-- A dump request on values and with its blocks, and the run on values of which it is a part.
values_dumped :
    (t : Htable) (c : ℕ) (m : Memory)
    → (c == 0) ≡ true
    → Values_server.handle t (c ∷ []) m
      ≡ (Values_server.dump t m >>= λ (sent, m'). ok (t, sent, m'))
unfolding Values_server.handle
values_dumped t c m nul = rw nul refl

blocks_dumped :
    (t : Table) (c : ℕ) (h h₁ : Heap) (sent : List Bytes)
    → (c == 0) ≡ true
    → dump t h ≡ ok (sent, h₁)
    → handle t (c ∷ []) h ≡ ok (t, sent, h₁)
unfolding handle
blocks_dumped t c h h₁ sent nul run = rw (nul, run) refl

-- The two requests that name a key, on values and with their blocks.
module _ (t : Htable) (key : Bytes) (m m₁ : Memory) where
  values_answer_get :
      (value : CharPointer)
      → Values.get_htable_value t (some key) m ≡ ok (value, m₁)
      → Values_server.answer_get t key m
        ≡ ok (t, elim value [ none ↦ (0 ∷ []) ∷ [] | some v ↦ v ∷ [] ], m₁)
  unfolding Values_server.answer_get
  values_answer_get none run = rw (Values_server.answer_get, run) refl
  values_answer_get (some v) run = rw (Values_server.answer_get, run) refl

  values_answer_put :
      (t' : Htable) (value : Bytes) (e : ErrorCode)
      → Values.add_htable_value t (some key) (some value) m ≡ ok (t', e, m₁)
      → Values_server.answer_put t key value m ≡ ok (t', [] ∷ [], m₁)
  unfolding Values_server.answer_put
  values_answer_put t' value e run = rw (Values_server.answer_put, run) refl

blocks_answer_get :
    (t : Table) (key : Bytes) (h h₁ h₂ : Heap) (value : Held)
    → get_htable_value t (some key) h ≡ ok (value, h₁)
    → free_const_ptr value h₁ ≡ ok h₂
    → answer_get t key h ≡ ok (t, elim (text value) [ none ↦ (0 ∷ []) ∷ [] | some v ↦ v ∷ [] ], h₂)
unfolding answer_get
blocks_answer_get t key h h₁ h₂ none run freed = rw (answer_get, run, freed) refl
blocks_answer_get t key h h₁ h₂ (some v) run freed = rw (answer_get, run, freed) refl

blocks_answer_put :
    (t t' : Table) (key value : Bytes) (h h₁ : Heap) (e : ErrorCode)
    → add_htable_value t (some key) (some value) h ≡ ok (t', e, h₁)
    → answer_put t key value h ≡ ok (t', [] ∷ [], h₁)
unfolding answer_put
blocks_answer_put t t' key value h h₁ e run = rw (answer_put, run) refl

module _ (t : Table) (h : Heap) (g : ℕ → ℕ) (tidy : IsTidyTable t)
    (own : Holds h (λ a. of_table a t + g a)) where
  answer_get-Handled :
      (key : Bytes)
      → Returns
          (answer_get t key h)
          (Handled (Values_server.answer_get (forget_table t) key h.memory) g)
  answer_get-Handled key =
      let ((value, h₁), e₁, s) =
        get_htable_value-Got t (some key) h (λ a. of_table a t + g a) tidy own in
      let (h₂, e₂, (own₂, m₂)) = free_const_ptr-Holds value h₁ (λ a. of_table a t + g a) s.owned in
      (
        (t, elim (text value) [ none ↦ (0 ∷ []) ∷ [] | some v ↦ v ∷ [] ], h₂),
        blocks_answer_get t key h h₁ h₂ value e₁ e₂,
        record {
          tidy = tidy;
          owned = own₂;
          agrees =
              rw m₂
                (values_answer_get (forget_table t) key h.memory h₁.memory (text value) s.agrees);
        },
      )

  answer_put-Handled :
      (key value : Bytes)
      → Returns
          (answer_put t key value h)
          (Handled (Values_server.answer_put (forget_table t) key value h.memory) g)
  answer_put-Handled key value =
      let ((t', e, h₁), e₁, s) = add_htable_value-Wrote t (some key) (some value) h g tidy own in
      (
        (t', [] ∷ [], h₁),
        blocks_answer_put t t' key value h h₁ e e₁,
        record {
          tidy = s.tidy;
          owned = s.owned;
          agrees =
              values_answer_put (forget_table t) key h.memory h₁.memory (forget_table t') value e
                s.agrees;
        },
      )

  answer_key-Handled :
      (key : Bytes) (v : Option ValuePart)
      → Returns
          (answer_key t key v h)
          (Handled (Values_server.answer_key (forget_table t) key v h.memory) g)
  unfolding answer_key Values_server.answer_key
  answer_key-Handled key none = answer_get-Handled key
  answer_key-Handled key (some v) = elim (Bool-cases (v.len == 0)) [
    | inl no_value ↦ rw no_value (answer_get-Handled key)
    | inr value ↦ rw value (answer_put-Handled key v.text)
  ]

  pub handle-Handled :
      (msg : Bytes) (v : Htable × List Bytes × Memory)
      → Values_server.handle (forget_table t) msg h.memory ≡ ok v
      → Returns (handle t msg h) (Handled (Values_server.handle (forget_table t) msg h.memory) g)
  unfolding handle Values_server.handle
  handle-Handled [] v e =
      ((t, [] ∷ [], h), refl, record { tidy = tidy; owned = own; agrees = refl })
  handle-Handled (c ∷ []) v e = elim (Bool-cases (c == 0)) [
    | inl nul ↦
        let step = values_dumped (forget_table t) c h.memory nul in
        let (w, run) =
          ok-of_bind (Values_server.dump (forget_table t) h.memory) _ v (sym step ∙ e) in
        let ((sent, h₁), e₁, s) = dump-Dumped t h (λ a. of_table a t + g a) w tidy own run in
        (
          (t, sent, h₁),
          blocks_dumped t c h h₁ sent nul e₁,
          record { tidy = tidy; owned = s.owned; agrees = step ∙ rw s.agrees refl },
        )
    | inr other ↦ rw other (answer_key-Handled (text_at (c ∷ [])) (value_part (c ∷ [])))
  ]
  handle-Handled (c ∷ d ∷ msg) v e =
      answer_key-Handled (text_at (c ∷ d ∷ msg)) (value_part (c ∷ d ∷ msg))
