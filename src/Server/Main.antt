-- ===== src/Server/Main.antt =====
-- `main` of done/pps-launch-server.c around its loop. `prompts` are the results of `fscanf`: the address
-- and the port where both are converted. `bind_refused` says at which addresses `bind` fails.
use distributed_hash_table.Base.{
  ◌≡◌, refl, Bool, false, List, [], ◌∷◌, ◌++◌, Option, none, some, ℕ, ok, fault, no_end, Run,
  Memory, ◌>>=◌, map, All, arith,
}
use distributed_hash_table.Error.{err_none}
use distributed_hash_table.CString.{Bytes}
use distributed_hash_table.System.{Platform, SocketAddress, get_socket, bind_server}
use distributed_hash_table.Hashtable.{Htable, htable_size, construct_htable}
use distributed_hash_table.Hashtable.Table.{IsValid, view}
use distributed_hash_table.Hashtable.Construct.{construct_htable_lem}
use distributed_hash_table.Server.{serve}
use distributed_hash_table.Server.Trace.{
  Request, message, IsLegal, all_replies, store_after_all, serve-all_replies,
}

-- The `do` loop of the prompt; at the end of the input `fscanf` fails for ever.
unfoldable pub ask_address : List (Option (Bytes × ℕ)) → Run (Bytes × ℕ)
ask_address [] = fault no_end
ask_address (none ∷ prompts) = ask_address prompts
ask_address (some typed ∷ prompts) = ok typed

-- What a server does: it ends at once, or it answers what arrives.
pub data Service : Type 0 where
  returned_one : Service
  served : Htable → List (List Bytes) → Service

module _ (platform : Platform) where
  -- From the call of `bind_server` on.
  unfoldable pub bound_server :
      (SocketAddress → Bool) → Bytes × ℕ → List (Option Bytes) → Memory → Run (Service × Memory)
  bound_server bind_refused (ip, port) datagrams m =
      let (t, m₁) = construct_htable htable_size m in
      let go = serve t datagrams m₁ >>= λ (t', sent, m₂). ok (served t' sent, m₂) in
      elim (bind_server platform bind_refused (some ip) port) [
        | err_none ↦ go
        | _ ↦ ok (returned_one, m)
      ]

  -- `main`, with what the call of `socket` gives.
  unfoldable pub server_main :
      Option ℕ
      → List (Option (Bytes × ℕ))
      → (SocketAddress → Bool)
      → List (Option Bytes)
      → Memory
      → Run (Service × Memory)
  server_main socket prompts bind_refused datagrams m = elim (get_socket socket 0 false) [
    | none ↦ ok (returned_one, m)
    | some fd ↦ ask_address prompts >>= λ typed. bound_server bind_refused typed datagrams m
  ]

ask_address-typed :
    (wrong : List (Option (Bytes × ℕ))) (typed : Bytes × ℕ) (later : List (Option (Bytes × ℕ)))
    → All (λ p. p ≡ none) wrong
    → ask_address (wrong ++ some typed ∷ later) ≡ ok typed
unfolding ask_address
ask_address-typed [] typed later h = refl
ask_address-typed (none ∷ wrong) typed later h = ask_address-typed wrong typed later h.1
ask_address-typed (some p ∷ wrong) typed later h = absurd (cc)

-- A server that gets a socket and, after any number of answers that are no address, an address at which it
-- can be bound, answers all legal requests, in whatever order they arrive, as a map from keys to
-- values that is empty at first, if memory suffices. The table that it ends with stands for the map after
-- the puts.
pub server_main-all_replies :
    (platform : Platform) (fd : ℕ) (wrong later : List (Option (Bytes × ℕ))) (ip : Bytes) (port : ℕ)
    (bind_refused : SocketAddress → Bool) (rs : List Request)
    → All (λ p. p ≡ none) wrong
    → bind_server platform bind_refused (some ip) port ≡ err_none
    → All IsLegal rs
    → (t : Htable) × (server_main platform
          (some fd)
          (wrong ++ some (ip, port) ∷ later)
          bind_refused
          (map message rs)
          []
        ≡ ok (served t (all_replies (λ q. none) rs), []))
      × IsValid t
      × ((q : Bytes) → view t q ≡ store_after_all (λ q. none) rs q)
unfolding server_main bound_server get_socket construct_htable
server_main-all_replies platform fd wrong later ip port bind_refused rs h bound legal =
    let (valid, empty) = construct_htable_lem htable_size [] (omega arith) refl in
    let (t, run, valid', holds) =
      serve-all_replies rs (construct_htable htable_size []).0 (λ q. none) valid empty legal in
    (
      t,
      rw (ask_address-typed wrong (ip, port) later h, bound_server, bound, run) refl,
      valid',
      holds,
    )
