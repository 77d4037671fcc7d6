-- ===== src/Server/Blocks/Served.antt =====
-- The loop of the server with its blocks, from any tidy table and from the one that `main` constructs.
use distributed_hash_table.Base.{
  ok-of_bind, ok-injective, ℕ, ◌+◌, ◌≡◌, refl, sym, ap, ◌∙◌, List, [], ◌∷◌, Option, none, some,
  Memory, Run, ok, ◌>>=◌, Returns, arith, map, All, take,
}
use distributed_hash_table.CString.{Bytes}
use distributed_hash_table.Network.{max_msg_size}
use distributed_hash_table.Heap.{Heap, Holds}
use distributed_hash_table.Hashtable as Values
use distributed_hash_table.Hashtable.{Htable, htable_size}
use distributed_hash_table.Hashtable.Construct.{construct_htable_lem}
use distributed_hash_table.Hashtable.Blocks.{Table, construct_htable}
use distributed_hash_table.Hashtable.Blocks.Owned.{of_table, forget_table, IsTidyTable}
use distributed_hash_table.Hashtable.Blocks.Read.{construct_htable-Constructed}
use distributed_hash_table.Hashtable.Table.{view}
use distributed_hash_table.Server as Values_server
use distributed_hash_table.Server.Trace.{
  Request, message, IsLegal, all_replies, store_after_all, serve-all_replies,
}
use distributed_hash_table.Server.Blocks.{server_step, serve, construct_and_serve}
use distributed_hash_table.Server.Blocks.Handled.{Handled, handle-Handled}

server_step-Handled :
    (t : Table) (datagram : Option Bytes) (h : Heap) (g : ℕ → ℕ) (v : Htable × List Bytes × Memory)
    → IsTidyTable t
    → Holds h (λ a. of_table a t + g a)
    → Values_server.server_step (forget_table t) datagram h.memory ≡ ok v
    → Returns
        (server_step t datagram h)
        (Handled (Values_server.server_step (forget_table t) datagram h.memory) g)
unfolding server_step Values_server.server_step
server_step-Handled t none h g v tidy own e =
    ((t, [], h), refl, record { tidy = tidy; owned = own; agrees = refl })
server_step-Handled t (some datagram) h g v tidy own e =
    handle-Handled t h g tidy own (take max_msg_size datagram) v e

-- What a run of the server's loop ends in.
pub record Served (run : Run (Htable × List (List Bytes) × Memory)) (g : ℕ → ℕ)
    (r : Table × List (List Bytes) × Heap) : Type 0 where
  pub tidy : IsTidyTable r.0
  pub owned : Holds r.2 (λ a. of_table a r.0 + g a)
  pub agrees : run ≡ ok (forget_table r.0, r.1, r.2.memory)

-- One round and the rounds after it, on values and with their blocks.
values_serve :
    (t t₁ : Htable) (datagram : Option Bytes) (later : List (Option Bytes)) (sent : List Bytes)
    (m m₁ : Memory)
    → Values_server.server_step t datagram m ≡ ok (t₁, sent, m₁)
    → Values_server.serve t (datagram ∷ later) m
      ≡ (Values_server.serve t₁ later m₁ >>= λ (t₂, rest, m₂). ok (t₂, sent ∷ rest, m₂))
unfolding Values_server.serve
values_serve t t₁ datagram later sent m m₁ run = rw run refl

values_served :
    (t t₁ t₂ : Htable) (datagram : Option Bytes) (later : List (Option Bytes)) (sent : List Bytes)
    (rest : List (List Bytes)) (m m₁ m₂ : Memory)
    → Values_server.server_step t datagram m ≡ ok (t₁, sent, m₁)
    → Values_server.serve t₁ later m₁ ≡ ok (t₂, rest, m₂)
    → Values_server.serve t (datagram ∷ later) m ≡ ok (t₂, sent ∷ rest, m₂)
values_served t t₁ t₂ datagram later sent rest m m₁ m₂ run run' =
    rw run' at (values_serve t t₁ datagram later sent m m₁ run)

blocks_serve :
    (t t₁ t₂ : Table) (datagram : Option Bytes) (later : List (Option Bytes)) (sent : List Bytes)
    (rest : List (List Bytes)) (h h₁ h₂ : Heap)
    → server_step t datagram h ≡ ok (t₁, sent, h₁)
    → serve t₁ later h₁ ≡ ok (t₂, rest, h₂)
    → serve t (datagram ∷ later) h ≡ ok (t₂, sent ∷ rest, h₂)
unfolding serve
blocks_serve t t₁ t₂ datagram later sent rest h h₁ h₂ run run' = rw run (rw run' refl)

-- The server's loop, from a tidy table that owns its blocks, for whatever datagrams arrive and whichever
-- allocations fail: if the run on values reaches no undefined behaviour, the run with its blocks frees no
-- block twice, and with the addresses forgotten it sends the same and ends in the same table. That table
-- is tidy, and the blocks that are allocated are its own and those that were allocated beside the first one.
pub serve-Served :
    (datagrams : List (Option Bytes)) (t : Table) (h : Heap) (g : ℕ → ℕ)
    (v : Htable × List (List Bytes) × Memory)
    → IsTidyTable t
    → Holds h (λ a. of_table a t + g a)
    → Values_server.serve (forget_table t) datagrams h.memory ≡ ok v
    → Returns
        (serve t datagrams h)
        (Served (Values_server.serve (forget_table t) datagrams h.memory) g)
unfolding serve Values_server.serve
serve-Served [] t h g v tidy own e =
    ((t, [], h), refl, record { tidy = tidy; owned = own; agrees = refl })
serve-Served (datagram ∷ later) t h g v tidy own e =
    let (w, first) =
      ok-of_bind (Values_server.server_step (forget_table t) datagram h.memory) _ v e in
    let ((t₁, sent, h₁), e₁, s₁) = server_step-Handled t datagram h g w tidy own first in
    let step =
      values_serve (forget_table t) (forget_table t₁) datagram later sent h.memory h₁.memory
        s₁.agrees in
    let (w', then) =
      ok-of_bind (Values_server.serve (forget_table t₁) later h₁.memory) _ v (sym step ∙ e) in
    let ((t₂, rest, h₂), e₂, s₂) = serve-Served later t₁ h₁ g w' s₁.tidy s₁.owned then in
    (
      (t₂, sent ∷ rest, h₂),
      blocks_serve t t₁ t₂ datagram later sent rest h h₁ h₂ e₁ e₂,
      record {
        tidy = s₂.tidy;
        owned = s₂.owned;
        agrees =
            values_served (forget_table t) (forget_table t₁) (forget_table t₂) datagram later sent
              rest h.memory h₁.memory h₂.memory s₁.agrees s₂.agrees;
      },
    )

-- The run from the table that is constructed.
values_from :
    (datagrams : List (Option Bytes)) (m : Memory) (r : Htable × List (List Bytes) × Memory)
    (t t₁ : Htable) (m₁ : Memory)
    → Values_server.serve t datagrams m ≡ ok r
    → ◌≡◌ {A = Htable × Memory} (t, m) (t₁, m₁)
    → Values_server.serve t₁ datagrams m₁ ≡ ok r
values_from datagrams m r t t₁ m₁ run same =
    ap (λ (u, n). Values_server.serve u datagrams n) (sym same) ∙ run

-- A server that constructs its table and then gets any number of legal requests, in whatever order, with
-- enough memory: it frees no block twice and sends the replies of a map from keys to values that is empty at first. At
-- that point of its loop, which never ends, the table stands for the map after the puts, it is tidy, and
-- the blocks that are allocated are exactly its own and those that were allocated before: no round has
-- leaked any.
pub construct_and_serve-all_replies :
    (rs : List Request) (h : Heap) (g : ℕ → ℕ)
    → h.memory ≡ []
    → All IsLegal rs
    → Holds h g
    → Returns (construct_and_serve (map message rs) h) (λ (t', sent, h').
      (sent ≡ all_replies (λ q. none) rs)
      × ((q : Bytes) → view (forget_table t') q ≡ store_after_all (λ q. none) rs q)
      × IsTidyTable t'
      × Holds h' (λ a. of_table a t' + g a))
unfolding Values.construct_htable construct_and_serve
construct_and_serve-all_replies rs h g plenty legal own =
    let (t, h₁) = construct_htable htable_size h in
    let c = construct_htable-Constructed htable_size h g (omega arith) own in
    let (valid, empty) = construct_htable_lem htable_size [] (omega arith) refl in
    let (w, run, valid', same) =
      serve-all_replies rs (Values.construct_htable htable_size []).0 (λ q. none) valid empty
        legal in
    let built : (Values.construct_htable htable_size [] ≡ (forget_table t, h₁.memory)) =
      ap (λ m. Values.construct_htable htable_size m) (sym plenty) ∙ c.agrees in
    let run' = values_from (map message rs) [] _ _ (forget_table t) h₁.memory run built in
    let ((t₂, sent, h₂), e₂, s₂) = serve-Served (map message rs) t h₁ g _ c.tidy c.owned run' in
    let ends = ok-injective _ _ (sym s₂.agrees ∙ run') in
    (
      (t₂, sent, h₂),
      e₂,
      (ap (λ r. r.1) ends, (λ q. ap (λ r. view r.0 q) ends ∙ same q), s₂.tidy, s₂.owned),
    )
