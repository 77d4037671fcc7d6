-- ===== src/Projet01/Server/Same.antt =====
-- The server of week 7 on the requests that it answers as done/pps-launch-server.c does.
use distributed_hash_table.Base.{
  ℕ, ◌+◌, ◌≤◌, ◌≡◌, ◌≢◌, le→ltb, refl, ◌∙◌, List, [], ◌∷◌, ◌++◌, Option, none, some, ok, length,
  length-append, map, All, take_all, arith,
}
use distributed_hash_table.Error.{err_none}
use distributed_hash_table.CString.{Bytes, IsText, strdup}
use distributed_hash_table.CString.Laws.{
  text_at-append, text_at_text, find_nul-append, find_nul_text,
}
use distributed_hash_table.Hashtable.{Htable, add_htable_value}
use distributed_hash_table.Hashtable.Table.{IsValid, view, get_htable_value-view}
use distributed_hash_table.Hashtable.Update.{add_htable_value-done}
use distributed_hash_table.Network.{max_msg_size}
use distributed_hash_table.Server.Trace.{
  Store, Request, get, put, check, silence, message, IsLegal, found_reply, store_after, replies,
  all_replies, store_after_all,
}
use distributed_hash_table.Projet01.Server.{
  get_htable_value, value_of_message, answer_get, handle, sockaddr_size, server_step, serve,
}

-- Gets, puts of values that are not empty, and failed `recvfrom`s.
abbrev pub IsOld : Request → Type 0
IsOld (get key) = Unit
IsOld (put key value) = value ≢ []
IsOld check = ⊥
IsOld silence = Unit

answer_get-found_reply :
    (t : Htable) (key : Bytes) (held : Option Bytes)
    → IsValid t
    → view t key ≡ held
    → answer_get t key [] ≡ ok (t, found_reply held ∷ [], [])
unfolding answer_get get_htable_value strdup
answer_get-found_reply t key none valid e = rw (get_htable_value-view t key [] valid, e) refl
answer_get-found_reply t key (some v) valid e = rw (get_htable_value-view t key [] valid, e) refl

-- A key alone, and a key with a value.
server_step_key :
    (t : Htable) (key : Bytes)
    → IsText key
    → length key ≤ max_msg_size
    → server_step t (some key) [] ≡ answer_get t key []
unfolding server_step handle value_of_message
server_step_key t key text short =
    rw
      (
        take_all max_msg_size key short,
        handle,
        value_of_message,
        find_nul_text key text,
        take_all max_msg_size key short,
        text_at_text key text,
      )
      refl

value_of_message-append :
    (key value : Bytes)
    → IsText key
    → IsText value
    → value ≢ []
    → value_of_message (key ++ 0 ∷ value) ≡ some value
unfolding value_of_message
value_of_message-append key [] h k some_value = absurd (some_value refl)
value_of_message-append key (c ∷ value) h k some_value =
    rw (value_of_message, find_nul-append key (c ∷ value) h, text_at_text (c ∷ value) k) refl

server_step_value :
    (t t' : Htable) (key value : Bytes)
    → IsText key
    → IsText value
    → value ≢ []
    → length key + 1 + length value ≤ max_msg_size
    → add_htable_value t (some key) (some value) [] ≡ ok (t', err_none, [])
    → server_step t (some (key ++ 0 ∷ value)) [] ≡ ok (t', [] ∷ [], [])
unfolding server_step handle
server_step_value t t' key value h k some_value fit run =
    let whole =
      take_all max_msg_size (key ++ 0 ∷ value) (omega (arith, length-append key (0 ∷ value))) in
    rw
      (
        whole,
        handle,
        value_of_message-append key value h k some_value,
        whole,
        text_at-append key value h,
        run,
      )
      refl

-- One request.
server_step-old :
    (t : Htable) (s : Store) (r : Request)
    → IsValid t
    → ((q : Bytes) → view t q ≡ s q)
    → IsLegal r
    → IsOld r
    → (t' : Htable) × (server_step t (message r) [] ≡ ok (t', replies s r, []))
      × IsValid t'
      × ((q : Bytes) → view t' q ≡ store_after s r q)
unfolding server_step
server_step-old t s (get key) valid same legal old = (
  t,
  server_step_key t key legal.0 legal.2 ∙ answer_get-found_reply t key (s key) valid (same key),
  valid,
  same,
)
server_step-old t s (put key value) valid same legal old =
    let (t', run, valid', reads) = add_htable_value-done t key value valid in
    (
      t',
      server_step_value t t' key value legal.0 legal.1 old legal.3 run,
      valid',
      λ q. reads q ∙ rw (same q),
    )
server_step-old t s check valid same legal old = absurd old
server_step-old t s silence valid same legal old = (t, refl, valid, same)

-- The loop over whatever gets and puts of values that are not empty, with legal keys and values, and failed
-- `recvfrom`s, from a valid table and with enough memory, where `addr_len`, which nothing sets before
-- the first round, holds at most the 16 bytes of an address: the server of week 7 answers each request
-- as the map from keys to values that the table stands for. The table stays valid, and stands for the
-- map after the puts.
pub serve-old :
    (rs : List Request) (addr_len : ℕ) (t : Htable) (s : Store)
    → addr_len ≤ sockaddr_size
    → IsValid t
    → ((q : Bytes) → view t q ≡ s q)
    → All IsLegal rs
    → All IsOld rs
    → (t' : Htable) × (serve addr_len t (map message rs) [] ≡ ok (t', all_replies s rs, []))
      × IsValid t'
      × ((q : Bytes) → view t' q ≡ store_after_all s rs q)
unfolding serve all_replies store_after_all
serve-old [] addr_len t s set valid same legal old = (t, refl, valid, same)
serve-old (r ∷ rs) addr_len t s set valid same legal old =
    let (t', run, valid', same') = server_step-old t s r valid same legal.0 old.0 in
    let (t'', later, valid'', same'') =
      serve-old rs sockaddr_size t' (store_after s r) (omega arith) valid' same' legal.1 old.1 in
    (t'', rw (serve, le→ltb sockaddr_size addr_len set, run, later) refl, valid'', same'')
