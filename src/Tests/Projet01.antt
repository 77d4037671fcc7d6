-- ===== src/Tests/Projet01.antt =====
-- The version of week 7 at small inputs.
use distributed_hash_table.Base.{◌≡◌, refl, [], ◌∷◌, List, some, ok, true, map, arith, inl}
use distributed_hash_table.CString.{Bytes, strdup, text_at, find_nul, str_eq}
use distributed_hash_table.Hashtable.{Htable, hash_function, construct_htable, get_htable_value}
use distributed_hash_table.Hashtable.Table.{IsValid, view}
use distributed_hash_table.Server.Trace.{
  Request, get, put, silence, message, all_replies, store_after_all,
}
use distributed_hash_table.Projet01.NodeList.{FileLine, get_nodes}
use distributed_hash_table.Projet01.NodeList.Reads.{addresses_of, get_nodes-addresses_of}
use distributed_hash_table.Projet01.NodeList.BadPort.{IsGood}
use distributed_hash_table.Projet01.Client.{Client}
use distributed_hash_table.Projet01.Network.{Exchange, reply_of}
use distributed_hash_table.Projet01.Network.First.{first_value}
use distributed_hash_table.Projet01.Server.{
  serve, server_step, handle, value_of_message, answer_get,
}
use distributed_hash_table.Projet01.Server as Old
use distributed_hash_table.Projet01.Server.Same.{serve-old}
use distributed_hash_table.Tests.Table.{key_a, value_b, small_table, small_table-IsValid}
use distributed_hash_table.Tests.Ring.{toy}

abbrev client : Client
client = record {
  name = b'c' ∷ [];
  nodes =
      record { sin_addr = b'a' ∷ []; sin_port = 0 ∷ 5 ∷ [] }
      ∷ record { sin_addr = b'b' ∷ []; sin_port = 0 ∷ 6 ∷ [] }
      ∷ [];
  socket = 4;
}

-- The first server does not have the key.
abbrev exchanges : List Exchange
exchanges =
    record { sent = some 1; received = some (0 ∷ []) }
    ∷ record { sent = some 1; received = some value_b }
    ∷ []

first_value_found : first_value client.nodes exchanges ≡ some value_b
unfolding first_value reply_of text_at
first_value_found = refl

abbrev good_line : FileLine
good_line = record { ip = b'a' ∷ []; port = 5; ended = true }

-- The port 40000.
abbrev bad_line : FileLine
bad_line = record { ip = b'b' ∷ []; port = 40000; ended = true }

good_line-IsGood : IsGood good_line
good_line-IsGood = record {
  short = omega arith;
  positive = omega arith;
  below = omega arith;
  ended = refl;
}

get_nodes-addresses_of_example :
    get_nodes toy (some (good_line ∷ [])) [] ≡ ok (some (addresses_of toy (good_line ∷ [])), [])
get_nodes-addresses_of_example =
    get_nodes-addresses_of toy (good_line ∷ []) (good_line-IsGood, tt) ((b'a' ∷ [], refl), tt)
      (omega arith)

abbrev requests : List Request
requests = put key_a value_b ∷ silence ∷ get key_a ∷ []

serve-old_example :
    (t' : Htable) × (serve 3 small_table (map message requests) []
      ≡ ok (t', all_replies (view small_table) requests, []))
    × IsValid t'
    × ((q : Bytes) → view t' q ≡ store_after_all (view small_table) requests q)
serve-old_example =
    serve-old requests 3 small_table (view small_table) (omega arith) small_table-IsValid
      (λ q. refl)
      (
        ((omega arith, tt), (omega arith, tt), inl (λ e. cc), omega arith),
        (tt, (((omega arith, tt), (λ e. cc), omega arith), tt)),
      )
      ((λ e. cc), (tt, (tt, tt)))

-- The put of an empty value is taken for a get.
empty_value_lost :
    server_step small_table (some (b'a' ∷ 0 ∷ [])) [] ≡ ok (small_table, (0 ∷ []) ∷ [], [])
unfolding server_step handle value_of_message answer_get Old.get_htable_value get_htable_value
    hash_function construct_htable find_nul text_at strdup str_eq
empty_value_lost = refl
