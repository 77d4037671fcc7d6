-- ===== src/Projet02/Cluster/Get.antt =====
-- What a client of week 10 hears from servers of which some hold a value.
use distributed_hash_table.Base.{
  ℕ, suc, ◌+◌, ◌≤◌, ◌≡◌, ◌≢◌, refl, sym, ◌∙◌, inl, inr, List, [], ◌∷◌, Option, none, some, ok,
  length, if◌then◌else◌, All, arith, Bool-cases,
}
use distributed_hash_table.CString.{Bytes, IsText}
use distributed_hash_table.CString.Laws.{str_eq_ne, text_at_text}
use distributed_hash_table.Hashtable.{Htable}
use distributed_hash_table.Hashtable.Table.{IsValid, view}
use distributed_hash_table.System.{SocketAddress}
use distributed_hash_table.Network.Quorum.{tally, Fits}
use distributed_hash_table.Server.Trace.{get, found_reply, server_step-Serves}
use distributed_hash_table.Server.Protocol.{text-ne-nul}
use distributed_hash_table.Projet02.Server.{server_step}
use distributed_hash_table.Projet02.Server.Same.{server_step-server_step}
use distributed_hash_table.Projet02.Network.{Exchange}
use distributed_hash_table.Projet02.Network.Quorum.{replies_of, heard}
use distributed_hash_table.Projet02.Network.Put.{answered}
use distributed_hash_table.Projet02.Cluster.{Way, deliver_all}
use distributed_hash_table.Projet02.Cluster.Put.{
  arriving, deliver-answer, IsPair, FitsValue, HoldsIf, AllHold,
}

-- What an answer adds to the texts heard.
heard-step :
    (u : Bytes) (r : Option Bytes) (rs : List (Option Bytes))
    → tally u (heard (r ∷ rs)) ≤ suc (tally u (heard rs))
unfolding heard tally
heard-step u none rs = omega arith
heard-step u (some msg) rs = ground arith

-- A value adds nothing to another text.
heard-other :
    (u value : Bytes) (rs : List (Option Bytes))
    → IsText value
    → u ≢ value
    → tally u (heard (some value ∷ rs)) ≤ tally u (heard rs)
unfolding heard tally
heard-other u value rs text other =
    ground (arith, text_at_text value text, str_eq_ne value u (λ e. other (sym e)))

heard-value :
    (u value : Bytes) (way : Way) (rs : List (Option Bytes))
    → IsText value
    → u ≢ value
    → tally u (heard (arriving way value ∷ rs)) ≤ tally u (heard rs)
unfolding heard arriving
heard-value u value way rs text other = elim (Bool-cases way.reached) [
  | inl came ↦ elim (Bool-cases way.returned) [
    | inl back ↦ rw (came, back) (heard-other u value rs text other)
    | inr gone ↦ rw (came, gone) (omega arith)
  ]
  | inr lost ↦ rw lost (omega arith)
]

-- The answer to a get fits the client's buffer.
arriving-Fits :
    (way : Way) (held : Option Bytes) → FitsValue held → Fits (arriving way (found_reply held))
unfolding arriving
arriving-Fits way none fits = elim (Bool-cases way.reached) [
  | inl came ↦ elim (Bool-cases way.returned) [
    | inl back ↦ rw (came, back) (omega arith)
    | inr gone ↦ rw (came, gone) tt
  ]
  | inr lost ↦ rw lost tt
]
arriving-Fits way (some w) fits = elim (Bool-cases way.reached) [
  | inl came ↦ elim (Bool-cases way.returned) [
    | inl back ↦ rw (came, back) fits
    | inr gone ↦ rw (came, gone) tt
  ]
  | inr lost ↦ rw lost tt
]

module _ (inet_ntop : Bytes → Bytes) (key value : Bytes) (pair : IsPair key value) where
  server_step-get :
      (t : Htable)
      → IsValid t
      → (t' : Htable) × (server_step t (some key) [] ≡ ok (t', found_reply (view t key) ∷ [], []))
  server_step-get t valid =
      let (t', s) =
        server_step-Serves t (view t) (get key) valid (λ q. refl)
          (pair.0, pair.2, omega (arith, pair.3)) in
      (t', server_step-server_step t key [] (text-ne-nul key pair.0) ∙ s.run)

  -- One answer, where `r` is what the server answered to the put.
  tally-HoldsIf :
      (u : Bytes) (way : Way) (r : Option Bytes) (t : Htable) (rs acks : List (Option Bytes))
      (n : ℕ)
      → u ≢ value
      → HoldsIf key value r t
      → tally u (heard rs) + answered acks ≤ n
      → tally u (heard (arriving way (found_reply (view t key)) ∷ rs)) + answered (r ∷ acks) ≤ suc n
  unfolding answered
  tally-HoldsIf u way none t rs acks n other holds bound =
      omega (arith, bound, heard-step u (arriving way (found_reply (view t key))) rs)
  tally-HoldsIf u way (some a) t rs acks n other holds bound =
      rw holds (omega (arith, bound, heard-value u value way rs pair.1 other))

  -- A get from all servers: a text that is not the value comes from servers that have not answered the
  -- put.
  pub deliver_all-get :
      (u : Bytes) (acks : List (Option Bytes)) (ts : List Htable) (nodes : List SocketAddress)
      (ways : List Way)
      → u ≢ value
      → length ts ≤ length nodes
      → length ts ≤ length ways
      → AllHold key value acks ts
      → (ts' : List Htable) × (es : List Exchange) × (deliver_all ts nodes ways key ≡ ok (ts', es))
        × All Fits (replies_of inet_ntop (length key) (length ts) nodes es)
        × (tally u (heard (replies_of inet_ntop (length key) (length ts) nodes es)) + answered acks
            ≤ length ts)
  unfolding deliver_all replies_of heard answered tally
  deliver_all-get u [] [] nodes ways other room room' holds = ([], [], refl, tt, omega arith)
  deliver_all-get u [] (t ∷ ts) nodes ways other room room' holds = absurd holds
  deliver_all-get u (r ∷ rs) [] nodes ways other room room' holds = absurd holds
  deliver_all-get u (r ∷ rs) (t ∷ ts) [] ways other room room' holds = absurd (omega (arith, room))
  deliver_all-get u (r ∷ rs) (t ∷ ts) (node ∷ nodes) [] other room room' holds =
      absurd (omega (arith, room'))
  deliver_all-get u (r ∷ rs) (t ∷ ts) (node ∷ nodes) (way ∷ ways) other room room' holds =
      let (t', run) = server_step-get t holds.0.0 in
      let (e, delivered, came) =
        deliver-answer inet_ntop t t' node key (found_reply (view t key)) way run in
      let (ts', es, later, fits, bound) =
        deliver_all-get u rs ts nodes ways other (omega (arith, room)) (omega (arith, room'))
          holds.1.1 in
      let all = replies_of inet_ntop (length key) (length ts) nodes es in
      (
        (if way.reached then t' else t) ∷ ts',
        e ∷ es,
        rw (delivered, later) refl,
        (rw came (arriving-Fits way (view t key) holds.0.1), fits),
        rw came (tally-HoldsIf u way r t all rs (length ts) other holds.1.0 bound),
      )
