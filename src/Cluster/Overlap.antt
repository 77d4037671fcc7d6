-- ===== src/Cluster/Overlap.antt =====
-- A get behind a put, where messages are lost and reordered: the quorums overlap.
use distributed_hash_table.Base.{
  ℕ, suc, ◌+◌, ◌≤◌, ◌<◌, ◌≡◌, ◌≢◌, refl, ◌∙◌, Bool, true, false, List, [], ◌∷◌, ◌++◌, Option, none,
  some, ok, map, All, length, arith, inl, if◌then◌else◌,
}
use distributed_hash_table.CString.{Bytes, IsText, text_at, str_eq}
use distributed_hash_table.CString.Laws.{str_eq_iff, str_eq_refl, text_at_text}
use distributed_hash_table.Hashtable.{Htable}
use distributed_hash_table.Hashtable.Table.{IsValid, view}
use distributed_hash_table.Network.{max_msg_size}
use distributed_hash_table.Network.Quorum.{tally, Fits}
use distributed_hash_table.Server.Trace.{get, put, found_reply, server_step-Serves}
use distributed_hash_table.Cluster.Deliver.{IsPair}
use distributed_hash_table.Cluster.Lossy.{deliver_some, carried}

-- A server with a valid table, whose value under the key leaves room for a NUL in a message.
pub record IsPeer (key : Bytes) (t : Htable) : Type 0 where
  pub valid : IsValid t
  pub short : length (found_reply (view t key)) < max_msg_size

abbrev is_value : Bytes → Option Bytes → Bool
is_value value none = false
is_value value (some v) = str_eq v value

-- How many servers have something else under the key, or nothing.
unfoldable pub stale : Bytes → Bytes → List Htable → ℕ
stale key value [] = 0
stale key value (t ∷ ts) =
    if is_value value (view t key) then stale key value ts else suc (stale key value ts)

stale-length : (key value : Bytes) (ts : List Htable) → stale key value ts ≤ length ts
unfolding stale
stale-length key value [] = omega arith
stale-length key value (t ∷ ts) = ground (arith, stale-length key value ts)

-- A message under the key.
reply-carried :
    (q value : Bytes) (o : Option Bytes)
    → IsText value
    → q ≢ value
    → carried q (found_reply o ∷ []) ≤ (if is_value value o then 0 else 1)
unfolding carried tally
reply-carried q value none h ne = ground arith
reply-carried q value (some v) h ne =
    ground (arith, str_eq_iff v value, str_eq_iff (text_at v) q, text_at_text value h)

module _ (key value : Bytes) (p : IsPair key value) where
  -- Each reply to a put comes from a server that has the value.
  pub deliver_some-put :
      (hear : List Bool) (ts : List Htable)
      → All (IsPeer key) ts
      → (ts' : List Htable) × (acks : List Bytes) × (deliver_some hear ts (key ++ 0 ∷ value)
          ≡ ok (ts', acks))
        × All (IsPeer key) ts'
        × (stale key value ts' + length acks ≤ length ts)
  unfolding deliver_some stale
  deliver_some-put hear [] h = ([], [], refl, tt, omega arith)
  deliver_some-put [] (t ∷ ts) h =
      (t ∷ ts, [], refl, h, omega (arith, stale-length key value (t ∷ ts)))
  deliver_some-put (true ∷ hear) (t ∷ ts) h =
      let (t', s) =
        server_step-Serves t (view t) (put key value) h.0.valid (λ q. refl)
          (p.key_text, p.value_text, inl p.filled, p.short) in
      let (ts', acks, run, peers, few) = deliver_some-put hear ts h.1 in
      let held : view t' key ≡ some value = s.store key ∙ rw (str_eq_refl key) refl in
      (
        t' ∷ ts',
        [] ∷ acks,
        rw (s.run, run) refl,
        (record { valid = s.valid; short = rw held (omega (arith, p.short)) }, peers),
        rw (held, str_eq_refl value) (omega (arith, few)),
      )
  deliver_some-put (false ∷ hear) (t ∷ ts) h =
      let (ts', acks, run, peers, few) = deliver_some-put hear ts h.1 in
      (t ∷ ts', acks, rw run refl, (h.0, peers), ground (arith, few))

  -- A text other than the value is carried by replies of stale servers only.
  pub deliver_some-get :
      (hear : List Bool) (ts : List Htable)
      → All (IsPeer key) ts
      → (ts' : List Htable) × (answers : List Bytes) × (deliver_some hear ts key
          ≡ ok (ts', answers))
        × All Fits (map some answers)
        × ((q : Bytes) → q ≢ value → carried q answers ≤ stale key value ts)
  unfolding deliver_some stale carried tally
  deliver_some-get hear [] h = ([], [], refl, tt, λ q ne. omega arith)
  deliver_some-get [] (t ∷ ts) h = (t ∷ ts, [], refl, tt, λ q ne. omega arith)
  deliver_some-get (true ∷ hear) (t ∷ ts) h =
      let (t', s) =
        server_step-Serves t (view t) (get key) h.0.valid (λ q. refl)
          (p.key_text, p.filled, omega (arith, p.short)) in
      let (ts', answers, run, fit, few) = deliver_some-get hear ts h.1 in
      (
        t' ∷ ts',
        found_reply (view t key) ∷ answers,
        rw (s.run, run) refl,
        (h.0.short, fit),
        λ q ne. ground (arith, few q ne, reply-carried q value (view t key) p.value_text ne),
      )
  deliver_some-get (false ∷ hear) (t ∷ ts) h =
      let (ts', answers, run, fit, few) = deliver_some-get hear ts h.1 in
      (t ∷ ts', answers, rw run refl, fit, λ q ne. ground (arith, few q ne))
