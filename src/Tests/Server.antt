-- ===== src/Tests/Server.antt =====
-- A server that hears a put and two gets.
use distributed_hash_table.Base.{
  ◌≡◌, ◌≢◌, refl, inl, [], ◌∷◌, List, some, none, false, ok, map, All, arith,
}
use distributed_hash_table.CString.{Bytes}
use distributed_hash_table.Hashtable.Construct.{construct_htable_lem}
use distributed_hash_table.Hashtable.{Htable}
use distributed_hash_table.Hashtable.Table.{IsValid, view}
use distributed_hash_table.Server.{serve}
use distributed_hash_table.Server.Trace.{
  Request, get, put, check, message, IsLegal, Store, all_replies, store_after_all,
  serve-all_replies,
}
use distributed_hash_table.Error.{err_none}
use distributed_hash_table.System.{bind_server, get_server_addr}
use distributed_hash_table.Server.Main.{served, server_main, server_main-all_replies}
use distributed_hash_table.Tests.Ring.{toy}
use distributed_hash_table.Tests.Table.{key_a, value_b, small_table, small_table-IsValid}

abbrev empty : Store
empty q = none

abbrev pub requests : List Request
requests = get key_a ∷ put key_a value_b ∷ check ∷ get key_a ∷ []

key_a-filled : key_a ≢ []
key_a-filled e = cc

pub requests-IsLegal : All IsLegal requests
requests-IsLegal = (
  (omega arith, key_a-filled, omega arith),
  (
    (omega arith, omega arith, inl key_a-filled, omega arith),
    (tt, ((omega arith, key_a-filled, omega arith), tt)),
  ),
)

pub small_table-empty : (q : Bytes) → view small_table q ≡ none
small_table-empty = (construct_htable_lem 4 [] (omega arith) refl).1

serve_example :
    (t : Htable) × (serve small_table (map message requests) []
      ≡ ok (t, all_replies empty requests, []))
    × IsValid t
    × ((q : Bytes) → view t q ≡ store_after_all empty requests q)
serve_example =
    serve-all_replies requests small_table empty small_table-IsValid small_table-empty
      requests-IsLegal

address_bound : bind_server toy (λ a. false) (some (b'a' ∷ [])) 5 ≡ err_none
unfolding bind_server get_server_addr
address_bound = refl

-- The first answer to the prompt is no address.
server_main_example :
    (t : Htable) × (server_main toy
        (some 3)
        (none ∷ some (b'a' ∷ [], 5) ∷ [])
        (λ a. false)
        (map message requests)
        []
      ≡ ok (served t (all_replies (λ q. none) requests), []))
    × IsValid t
    × ((q : Bytes) → view t q ≡ store_after_all (λ q. none) requests q)
server_main_example =
    server_main-all_replies toy 3 (none ∷ []) [] (b'a' ∷ []) 5 (λ a. false) requests (refl, tt)
      address_bound requests-IsLegal
