-- ===== src/Server/Trace.antt =====
-- A server that hears only from clients behaves as a map from keys to values.
use distributed_hash_table.Base.{
  ◌+◌, ◌≤◌, ◌≡◌, ◌≢◌, refl, ◌∙◌, ◌⊎◌, List, [], ◌∷◌, ◌++◌, Option, none, some, ok, length,
  if◌then◌else◌, map, All,
}
use distributed_hash_table.CString.{Bytes, IsText, str_eq, strdup}
use distributed_hash_table.Hashtable.{Htable}
use distributed_hash_table.Hashtable.Table.{IsValid, view, get_htable_value-view}
use distributed_hash_table.Network.{max_msg_size}
use distributed_hash_table.Hashtable.Update.{add_htable_value-done}
use distributed_hash_table.Server.{answer_get, answer_put, server_step, handle, serve}
use distributed_hash_table.Server.Protocol.{server_step_get, server_step_put}

-- What arrives: the requests that the clients make, the check of done/pps-list-nodes.c, and a failed
-- `recvfrom`.
pub data Request : Type 0 where
  get : Bytes → Request
  put : Bytes → Bytes → Request
  check silence : Request

-- The message of a request.
abbrev pub message : Request → Option Bytes
message (get key) = some key
message (put key value) = some (key ++ 0 ∷ value)
message check = some []
message silence = none

-- Keys and values are C strings that fit a message; a get has a key, and a put has a byte.
abbrev pub IsLegal : Request → Type 0
IsLegal (get key) = IsText key × (key ≢ []) × (length key ≤ max_msg_size)
IsLegal (put key value) =
    IsText key
    × IsText value
    × ((key ≢ []) ⊎ (value ≢ []))
    × (length key + 1 + length value ≤ max_msg_size)
IsLegal check = Unit
IsLegal silence = Unit

-- The map that a server is.
abbrev pub Store : Type 0
Store = Bytes → Option Bytes

-- The store after a request, and what is sent back.
abbrev pub store_after : Store → Request → Store
store_after s (put key value) q = if str_eq key q then some value else s q
store_after s (get key) q = s q
store_after s check q = s q
store_after s silence q = s q

abbrev pub found_reply : Option Bytes → Bytes
found_reply none = 0 ∷ []
found_reply (some value) = value

abbrev pub replies : Store → Request → List Bytes
replies s (get key) = found_reply (s key) ∷ []
replies s (put key value) = [] ∷ []
replies s check = [] ∷ []
replies s silence = []

-- What a round of the server does to the store.
pub record Serves (t : Htable) (s : Store) (r : Request) (t' : Htable) : Type 0 where
  pub valid : IsValid t'
  pub run : server_step t (message r) [] ≡ ok (t', replies s r, [])
  pub store : (q : Bytes) → view t' q ≡ store_after s r q

answer_get_lem :
    (t : Htable) (key : Bytes) (held : Option Bytes)
    → IsValid t
    → view t key ≡ held
    → answer_get t key [] ≡ ok (t, found_reply held ∷ [], [])
unfolding answer_get strdup
answer_get_lem t key none valid e = rw (get_htable_value-view t key [] valid, e, strdup)
answer_get_lem t key (some v) valid e = rw (get_htable_value-view t key [] valid, e, strdup)

server_step_check : (t : Htable) → server_step t (some []) [] ≡ ok (t, [] ∷ [], [])
unfolding server_step handle
server_step_check t = refl

pub server_step-Serves :
    (t : Htable) (s : Store) (r : Request)
    → IsValid t
    → ((q : Bytes) → view t q ≡ s q)
    → IsLegal r
    → (t' : Htable) × Serves t s r t'
unfolding server_step answer_put
server_step-Serves t s (get key) valid same legal = (
  t,
  record {
    valid = valid;
    run =
        server_step_get t key [] legal.0 legal.1 legal.2
        ∙ answer_get_lem t key (s key) valid (same key);
    store = same;
  },
)
server_step-Serves t s (put key value) valid same legal =
    let (t', run, valid', reads) = add_htable_value-done t key value valid in
    (
      t',
      record {
        valid = valid';
        run = server_step_put t key value [] legal.0 legal.1 legal.2 legal.3 ∙ rw run;
        store = λ q. reads q ∙ rw (same q);
      },
    )
server_step-Serves t s check valid same legal =
    (t, record { valid = valid; run = server_step_check t; store = same })
server_step-Serves t s silence valid same legal =
    (t, record { valid = valid; run = refl; store = same })

-- The store after requests, and all that is sent back.
unfoldable pub store_after_all : Store → List Request → Store
store_after_all s [] = s
store_after_all s (r ∷ rest) = store_after_all (store_after s r) rest

unfoldable pub all_replies : Store → List Request → List (List Bytes)
all_replies s [] = []
all_replies s (r ∷ rest) = replies s r ∷ all_replies (store_after s r) rest

-- Whatever legal requests arrive, in whatever order, a server with a valid table and enough memory
-- answers each as the map from keys to values that the table stands for: a get with the value last put
-- under the key, or with a NUL where there is none, a put and a check with the empty message. The table
-- stays valid, and stands for the map after the puts.
pub serve-all_replies :
    (rs : List Request) (t : Htable) (s : Store)
    → IsValid t
    → ((q : Bytes) → view t q ≡ s q)
    → All IsLegal rs
    → (t' : Htable) × (serve t (map message rs) [] ≡ ok (t', all_replies s rs, []))
      × IsValid t'
      × ((q : Bytes) → view t' q ≡ store_after_all s rs q)
unfolding serve all_replies store_after_all
serve-all_replies [] t s valid same legal = (t, refl, valid, same)
serve-all_replies (r ∷ rs) t s valid same legal =
    let (t', step) = server_step-Serves t s r valid same legal.0 in
    let (t'', run, valid'', same'') =
      serve-all_replies rs t' (store_after s r) step.valid step.store legal.1 in
    (t'', rw (step.run, run), valid'', same'')
