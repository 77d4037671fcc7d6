-- ===== src/Programs/PutGet.antt =====
-- pps-client-put and then pps-client-get, from their command lines to what they print.
use distributed_hash_table.Base.{
  ℕ, ◌+◌, ◌≤◌, ◌<◌, ◌≡◌, refl, sym, ap, ◌∙◌, List, [], ◌∷◌, Option, none, some, Memory, ok, All,
  length, arith,
}
use mathlib.Core.Path.{subst}
use mathlib.Core.Option.{some-injective}
use distributed_hash_table.CString.{Bytes}
use distributed_hash_table.Error.{err_none}
use distributed_hash_table.Hashtable.{Htable}
use distributed_hash_table.Hashtable.Table.{IsValid}
use distributed_hash_table.Args.{Args, total_servers, get_needed, put_needed}
use distributed_hash_table.Args.Bounds.{IsQuorum}
use distributed_hash_table.System.{Platform}
use distributed_hash_table.Node.{Node}
use distributed_hash_table.NodeList.{ServerLine, Qsort}
use distributed_hash_table.Startup.{started, client_init}
use distributed_hash_table.Startup.Admits.{client_init-Admitted}
use distributed_hash_table.Ring.Servers.{Server}
use distributed_hash_table.Ring.Select.{Answers}
use distributed_hash_table.Network.{Client, network_get, network_put, get_from_ring, put_to_ring}
use distributed_hash_table.Network.Get.{IsReady}
use distributed_hash_table.Cluster.Deliver.{IsPair}
use distributed_hash_table.Cluster.PutGet.{ReadsBack, network_get-network_put}
use distributed_hash_table.Programs.{Call, ok_text, ok_value, fetch, store, client_get, client_put}
use distributed_hash_table.Programs.Main.{
  client_of, run_client, get_behind, put_behind, get_main, put_main,
}

-- The options of a client that started are quorums.
started-IsQuorum :
    (platform : Platform) (qsort : Qsort) (servers : Option Bytes)
    (file : Option (List (Option ServerLine))) (args_req args_kind : ℕ) (name : Bytes)
    (argv : List Bytes) (m m' : Memory) (name' : Bytes) (nodes : List Node) (a : Args)
    (rest : List Bytes)
    → client_init platform qsort servers file args_req args_kind name argv m
      ≡ ok (started name' nodes (some a) rest, m')
    → 0 < args_kind
    → IsQuorum a
started-IsQuorum platform qsort servers file args_req args_kind name argv m m' name' nodes a rest h
      pos =
    let (content, _, admitted, _) =
      client_init-Admitted platform qsort servers file args_req args_kind name argv m m' name' nodes
        (some a) rest h pos in
    subst IsQuorum (sym (some-injective _ _ admitted.is)) admitted.quorum

module _ (platform : Platform) (fuel : ℕ) (name name' : Bytes) (nodes : List Node) (n r r' w w' : ℕ)
    (key : Bytes) (first second : Option ℕ) (replies : List (Option Bytes)) (m : Memory) where
  -- A put does not depend on the name and the read quorum, nor a get on the name and the write quorum.
  network_put-same :
      (value : Bytes)
      → network_put platform fuel
          (client_of name nodes (record { n = n; r = r; w = w }))
          (some key)
          (some value)
          first
          second
          replies
          m
        ≡ network_put platform fuel
            (client_of name' nodes (record { n = n; r = r'; w = w }))
            (some key)
            (some value)
            first
            second
            replies
            m
  unfolding network_put put_to_ring
  network_put-same value = refl

  network_get-same :
      network_get platform fuel
        (client_of name nodes (record { n = n; r = r; w = w }))
        (some key)
        none
        first
        replies
        m
      ≡ network_get platform fuel
          (client_of name' nodes (record { n = n; r = r; w = w' }))
          (some key)
          none
          first
          replies
          m
  unfolding network_get get_from_ring
  network_get-same = refl

-- The client with the name and the read quorum of the reader, and the write quorum of the writer.
abbrev pub client_of_both : Bytes → List Node → Args → Args → Client
client_of_both name nodes writer reader =
    client_of name nodes (record { n = reader.n; r = reader.r; w = writer.w })

-- The network during a program, with a socket.
abbrev pub call_with : ℕ → List (Option Bytes) → Call
call_with fd replies = record { first = some fd; second = none; replies = replies }

-- What the two programs print, from what the two operations end in.
module _ (platform : Platform) (qsort : Qsort) (fuel : ℕ) (servers : Option Bytes)
    (file : Option (List (Option ServerLine))) (name name' : Bytes) (argv : List Bytes)
    (nodes : List Node) (a : Args) (key : Bytes) (fd : ℕ) (replies : List (Option Bytes))
    (sent : List (Node × Bytes)) where
  put_main-ok :
      (value : Bytes)
      → client_init platform qsort servers file 2 (total_servers + put_needed) name argv []
        ≡ ok (started name' nodes (some a) (key ∷ value ∷ []), [])
      → network_put platform fuel
          (client_of name' nodes a)
          (some key)
          (some value)
          (some fd)
          none
          replies
          []
        ≡ ok (err_none, sent, [])
      → put_main platform qsort fuel servers file name argv (call_with fd replies) []
        ≡ ok (record { output = ok_text; status = 0 })
  unfolding put_main run_client put_behind client_put store
  put_main-ok value init done =
      rw (put_main, run_client, init) (rw (put_behind, client_put, store, done) refl)

  get_main-ok :
      (value : Bytes)
      → client_init platform qsort servers file 1 (total_servers + get_needed) name argv []
        ≡ ok (started name' nodes (some a) (key ∷ []), [])
      → network_get platform fuel (client_of name' nodes a) (some key) none (some fd) replies []
        ≡ ok (err_none, some value, sent, [])
      → get_main platform qsort fuel servers file name argv (call_with fd replies) []
        ≡ ok (record { output = ok_value value; status = 0 })
  unfolding get_main run_client get_behind client_get fetch
  get_main-ok value init got =
      rw (get_main, run_client, init) (rw (get_behind, client_get, fetch, got) refl)

-- Both programs start, with the same nodes and the same N, and each gets a socket; there is enough memory,
-- a ring with at least N distinct servers and a default address that `inet_pton` reads; the read quorum is
-- at most 127, and the key, which is not empty, and the value, which are the arguments left, are C strings
-- that fit a message together. N servers with valid tables and enough memory each hear what pps-client-put
-- sends, and answer; each then hears what pps-client-get sends, and answers. Then both send to the N
-- servers that the ring answers for the key, pps-client-put prints "OK", and pps-client-get prints "OK" and
-- the value that was put; both return 0.
pub put_main-get_main :
    (platform : Platform) (qsort : Qsort) (servers : Option Bytes)
    (file : Option (List (Option ServerLine))) (name name_w name_r : Bytes)
    (argv_put argv_get : List Bytes) (nodes : List Node) (writer reader : Args) (ss : List Server)
    (key value : Bytes) (fd fuel : ℕ) (ts : List Htable)
    → client_init platform qsort servers file 2 (total_servers + put_needed) name argv_put []
      ≡ ok (started name_w nodes (some writer) (key ∷ value ∷ []), [])
    → client_init platform qsort servers file 1 (total_servers + get_needed) name argv_get []
      ≡ ok (started name_r nodes (some reader) (key ∷ []), [])
    → writer.n ≡ reader.n
    → IsReady platform (client_of_both name_r nodes writer reader) ss
    → reader.r ≤ 127
    → IsPair key value
    → All IsValid ts
    → length ts ≡ reader.n
    → length ss ≤ fuel
    → (found : List Server) × Answers ss reader.n (platform.sha1 key) found
      × (b : ReadsBack platform
          (client_of_both name_r nodes writer reader)
          found
          key
          value
          fd
          fuel
          ts)
      × (put_main platform qsort fuel servers file name argv_put (call_with fd b.acks) []
          ≡ ok (record { output = ok_text; status = 0 }))
      × (get_main platform qsort fuel servers file name argv_get (call_with fd b.answers) []
          ≡ ok (record { output = ok_value value; status = 0 }))
put_main-get_main platform qsort servers file name name_w name_r argv_put argv_get nodes writer
      reader ss key value fd fuel ts put_starts get_starts same_n ready small p valid count f =
    let client = client_of_both name_r nodes writer reader in
    let w =
      started-IsQuorum platform qsort servers file 2 (total_servers + put_needed) name argv_put []
        [] name_w nodes writer (key ∷ value ∷ []) put_starts (omega arith) in
    let r =
      started-IsQuorum platform qsort servers file 1 (total_servers + get_needed) name argv_get []
        [] name_r nodes reader (key ∷ []) get_starts (omega arith) in
    let quorum : IsQuorum client.args = record {
      read_pos = r.read_pos;
      read_le = r.read_le;
      write_pos = w.write_pos;
      write_le = omega (arith, w.write_le, same_n);
    } in
    let (found, answers, b) =
      network_get-network_put platform client ss key value fd fuel ts ready quorum small p valid
        count f in
    let put_writer =
      network_put-same platform fuel name_w name_r nodes writer.n writer.r reader.r writer.w
        writer.w key (some fd) none b.acks [] value
      ∙ (ap
            (λ n.
              network_put platform fuel
                (client_of name_r nodes (record { n = n; r = reader.r; w = writer.w })) (some key)
                (some value) (some fd) none b.acks [])
            same_n
          ∙ b.put_done) in
    let get_reader =
      network_get-same platform fuel name_r name_r nodes reader.n reader.r reader.r reader.w
        writer.w key (some fd) none b.answers []
      ∙ b.got in
    (
      found,
      answers,
      b,
      put_main-ok platform qsort fuel servers file name name_w argv_put nodes writer key fd b.acks _
          value put_starts put_writer,
      get_main-ok platform qsort fuel servers file name name_r argv_get nodes reader key fd
          b.answers _ value get_starts get_reader,
    )
