-- ===== src/Projet02/Cluster/Put.antt =====
-- What the servers of week 10 hold after a put.
use distributed_hash_table.Base.{
  ℕ, suc, ◌+◌, ◌≤◌, ◌<◌, ◌≡◌, ◌≢◌, refl, ◌∙◌, ap, inl, inr, true, false, List, [], ◌∷◌, ◌++◌,
  Option, none, some, ok, length, if◌then◌else◌, All, arith, Bool-cases,
}
use distributed_hash_table.CString.{Bytes, IsText}
use distributed_hash_table.CString.Laws.{str_eq_refl}
use distributed_hash_table.Hashtable.{Htable}
use distributed_hash_table.Hashtable.Table.{IsValid, view}
use distributed_hash_table.System.{SocketAddress}
use distributed_hash_table.Server.Trace.{put, server_step-Serves}
use distributed_hash_table.Projet02.Server.{server_step}
use distributed_hash_table.Projet02.Server.Same.{server_step-server_step}
use distributed_hash_table.Projet02.Network.{Exchange, recvfrom_server, sent_all, reply_of}
use distributed_hash_table.Projet02.Network.Senders.{same_sockaddr-sin_port}
use distributed_hash_table.Projet02.Network.Quorum.{replies_of}
use distributed_hash_table.Projet02.Cluster.{Way, returning, deliver, deliver_all}
use distributed_hash_table.Network.{max_msg_size}

-- What the client hears of an answer.
unfoldable pub arriving : Way → Bytes → Option Bytes
arriving way answer = if way.reached then (if way.returned then some answer else none) else none

module _ (inet_ntop : Bytes → Bytes) where
  sent_all_refl : (n : ℕ) → sent_all (some n) n ≡ true
  unfolding sent_all
  sent_all_refl n = ground arith

  -- An answer from the node itself counts.
  reply_of-returning :
      (size : ℕ) (node : SocketAddress) (way : Way) (answer : Bytes)
      → reply_of inet_ntop size node
          (record { sent = some size; received = returning node way (answer ∷ []) })
        ≡ (if way.returned then some answer else none)
  unfolding reply_of recvfrom_server returning
  reply_of-returning size node way answer =
      let self = (same_sockaddr-sin_port inet_ntop node node).1 refl in
      elim (Bool-cases way.returned) [
        | inl back ↦ rw (sent_all_refl size, back, self) refl
        | inr lost ↦ rw (sent_all_refl size, lost) refl
      ]

  reply_of_silence :
      (size : ℕ) (node : SocketAddress)
      → reply_of inet_ntop size node (record { sent = some size; received = none }) ≡ none
  unfolding reply_of recvfrom_server
  reply_of_silence size node = rw (sent_all_refl size) refl

  arriving_heard :
      (way : Way) (answer : Bytes)
      → way.reached ≡ true
      → (if way.returned then some answer else none) ≡ arriving way answer
  unfolding arriving
  arriving_heard way answer heard = rw heard refl

  arriving_lost : (way : Way) (answer : Bytes) → way.reached ≡ false → none ≡ arriving way answer
  unfolding arriving
  arriving_lost way answer lost = rw lost refl

  -- One message that a server answers with `answer`.
  pub deliver-answer :
      (t t' : Htable) (node : SocketAddress) (msg answer : Bytes) (way : Way)
      → server_step t (some msg) [] ≡ ok (t', answer ∷ [], [])
      → (e : Exchange) × (deliver t node msg way ≡ ok (if way.reached then t' else t, e))
        × (reply_of inet_ntop (length msg) node e ≡ arriving way answer)
  unfolding deliver
  deliver-answer t t' node msg answer way run = elim (Bool-cases way.reached) [
    | inl heard ↦ (
      record { sent = some (length msg); received = returning node way (answer ∷ []) },
      rw (heard, run) refl,
      reply_of-returning (length msg) node way answer ∙ arriving_heard way answer heard,
    )
    | inr lost ↦ (
      record { sent = some (length msg); received = none },
      rw lost refl,
      reply_of_silence (length msg) node ∙ arriving_lost way answer lost,
    )
  ]

-- Where the client has heard an answer, the server holds the value.
abbrev pub HoldsIf : Bytes → Bytes → Option Bytes → Htable → Type 0
HoldsIf key value none t = Unit
HoldsIf key value (some answer) t = view t key ≡ some value

-- What a table gives for the key fits a datagram.
abbrev pub FitsValue : Option Bytes → Type 0
FitsValue none = Unit
FitsValue (some w) = length w < max_msg_size

abbrev pub IsServing : Bytes → Htable → Type 0
IsServing key t = IsValid t × FitsValue (view t key)

-- The same of all servers that the client has asked.
abbrev pub AllHold : Bytes → Bytes → List (Option Bytes) → List Htable → Type 0
AllHold key value [] [] = Unit
AllHold key value (r ∷ rs) (t ∷ ts) =
    IsServing key t × (HoldsIf key value r t × AllHold key value rs ts)
AllHold key value [] (t ∷ ts) = ⊥
AllHold key value (r ∷ rs) [] = ⊥

-- The key and the value of a put.
abbrev pub IsPair : Bytes → Bytes → Type 0
IsPair key value =
    IsText key × IsText value × (key ≢ []) × (length key + 1 + length value ≤ max_msg_size)

message-ne-nul : (key value : Bytes) → key ≢ [] → key ++ 0 ∷ value ≢ 0 ∷ []
message-ne-nul [] value n e = n refl
message-ne-nul (c ∷ []) value n e = cc
message-ne-nul (c ∷ d ∷ key) value n e = cc

module _ (inet_ntop : Bytes → Bytes) (key value : Bytes) (pair : IsPair key value) where
  server_step-put :
      (t : Htable)
      → IsValid t
      → (t' : Htable) × (server_step t (some (key ++ 0 ∷ value)) [] ≡ ok (t', [] ∷ [], []))
        × IsValid t'
        × (view t' key ≡ some value)
  server_step-put t valid =
      let (t', s) =
        server_step-Serves t (view t) (put key value) valid (λ q. refl)
          (pair.0, pair.1, inl pair.2, pair.3) in
      (
        t',
        server_step-server_step t (key ++ 0 ∷ value) [] (message-ne-nul key value pair.2) ∙ s.run,
        s.valid,
        s.store key ∙ rw (str_eq_refl key) refl,
      )

  -- What one put leaves at a server.
  put-HoldsIf :
      (t t' : Htable) (way : Way)
      → IsServing key t
      → IsValid t'
      → view t' key ≡ some value
      → IsServing key (if way.reached then t' else t)
        × HoldsIf key value (arriving way []) (if way.reached then t' else t)
  unfolding arriving
  put-HoldsIf t t' way serving valid holds = elim (Bool-cases way.reached) [
    | inl heard ↦
        let fits : FitsValue (view t' key) = rw holds (omega (arith, pair.3)) in
        elim (Bool-cases way.returned) [
          | inl back ↦ rw (heard, back) ((valid, fits), holds)
          | inr gone ↦ rw (heard, gone) ((valid, fits), tt)
        ]
    | inr lost ↦ rw lost (serving, tt)
  ]

  -- A put to all servers.
  pub deliver_all-put :
      (ts : List Htable) (nodes : List SocketAddress) (ways : List Way)
      → length ts ≤ length nodes
      → length ts ≤ length ways
      → All (IsServing key) ts
      → (ts' : List Htable) × (es : List Exchange) × (deliver_all ts nodes ways (key ++ 0 ∷ value)
          ≡ ok (ts', es))
        × (length ts' ≡ length ts)
        × AllHold key value
            (replies_of inet_ntop (length (key ++ 0 ∷ value)) (length ts) nodes es)
            ts'
  unfolding deliver_all replies_of
  deliver_all-put [] nodes ways room room' serving = ([], [], refl, refl, tt)
  deliver_all-put (t ∷ ts) [] ways room room' serving = absurd (omega (arith, room))
  deliver_all-put (t ∷ ts) (node ∷ nodes) [] room room' serving = absurd (omega (arith, room'))
  deliver_all-put (t ∷ ts) (node ∷ nodes) (way ∷ ways) room room' serving =
      let (t', run, valid, holds) = server_step-put t serving.0.0 in
      let (e, delivered, heard) =
        deliver-answer inet_ntop t t' node (key ++ 0 ∷ value) [] way run in
      let (ts', es, later, size, all) =
        deliver_all-put ts nodes ways (omega (arith, room)) (omega (arith, room')) serving.1 in
      let (own, held) = put-HoldsIf t t' way serving.0 valid holds in
      (
        (if way.reached then t' else t) ∷ ts',
        e ∷ es,
        rw (delivered, later) refl,
        ap suc size,
        (own, rw heard (held, all)),
      )
