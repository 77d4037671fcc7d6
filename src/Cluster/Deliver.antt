-- ===== src/Cluster/Deliver.antt =====
-- One message, handled by each of several servers.
use distributed_hash_table.Base.{
  ℕ, zero, suc, ◌+◌, ◌≤◌, ◌<◌, ◌≡◌, ◌≢◌, refl, ◌∙◌, List, [], ◌∷◌, ◌++◌, Option, some, ok, Run,
  ◌>>=◌, map, All, length, replicate, arith, inl, false,
}
use distributed_hash_table.CString.{Bytes, IsText}
use distributed_hash_table.CString.Laws.{str_eq_iff, str_eq_refl, text_at_text}
use distributed_hash_table.Hashtable.{Htable}
use distributed_hash_table.Hashtable.Table.{IsValid, view}
use distributed_hash_table.Network.{max_msg_size, is_missing}
use distributed_hash_table.Network.Quorum.{texts, tally}
use distributed_hash_table.Network.Put.{arrivals}
use distributed_hash_table.Server.{server_step}
use distributed_hash_table.Server.Trace.{get, put, server_step-Serves}

-- The tables after the servers have handled the message, and what the client receives.
unfoldable pub deliver : List Htable → Bytes → Run (List Htable × List (Option Bytes))
deliver [] msg = ok ([], [])
deliver (t ∷ ts) msg = server_step t (some msg) [] >>= λ (t', sent, _).
    deliver ts msg >>= λ (ts', replies). ok (t' ∷ ts', map some sent ++ replies)

-- The table is valid and has the value under the key.
pub record Holds (key value : Bytes) (t : Htable) : Type 0 where
  pub valid : IsValid t
  pub held : view t key ≡ some value

-- A key and a value for a put.
pub record IsPair (key value : Bytes) : Type 0 where
  pub key_text : IsText key
  pub filled : key ≢ []
  pub value_text : IsText value
  pub short : length key + 1 + length value ≤ max_msg_size

module _ (key value : Bytes) (p : IsPair key value) where
  pub deliver-put :
      (ts : List Htable)
      → All IsValid ts
      → (ts' : List Htable) × (deliver ts (key ++ 0 ∷ value)
          ≡ ok (ts', replicate (length ts) (some [])))
        × All (Holds key value) ts'
        × (length ts' ≡ length ts)
  unfolding deliver
  deliver-put [] h = ([], refl, tt, refl)
  deliver-put (t ∷ ts) h =
      let (t', s) =
        server_step-Serves t (view t) (put key value) h.0 (λ q. refl)
          (p.key_text, p.value_text, inl p.filled, p.short) in
      let (ts', run, holds, len) = deliver-put ts h.1 in
      (
        t' ∷ ts',
        rw (s.run, run) refl,
        (record { valid = s.valid; held = s.store key ∙ rw (str_eq_refl key) refl }, holds),
        rw len refl,
      )

  pub deliver-get :
      (ts : List Htable)
      → All (Holds key value) ts
      → (ts' : List Htable) × (deliver ts key ≡ ok (ts', replicate (length ts) (some value)))
        × All (Holds key value) ts'
  unfolding deliver
  deliver-get [] h = ([], refl, tt)
  deliver-get (t ∷ ts) h =
      let (t', s) =
        server_step-Serves t (view t) (get key) h.0.valid (λ q. refl)
          (p.key_text, p.filled, omega (arith, p.short)) in
      let (ts', run, holds) = deliver-get ts h.1 in
      (
        t' ∷ ts',
        rw (s.run, h.0.held, run) refl,
        (record { valid = s.valid; held = s.store key ∙ h.0.held }, holds),
      )

pub arrivals-replicate : (n : ℕ) (msg : Bytes) → arrivals n (replicate n (some msg)) ≡ n
unfolding arrivals
arrivals-replicate zero msg = refl
arrivals-replicate (suc n) msg = rw (arrivals-replicate n msg) refl

is_missing_text : (s : Bytes) → IsText s → is_missing s ≡ false
is_missing_text [] h = refl
is_missing_text (c ∷ []) h = ground (arith, h.0)
is_missing_text (c ∷ d ∷ s) h = refl

pub texts-replicate :
    (n : ℕ) (value : Bytes) → IsText value → texts n (replicate n (some value)) ≡ replicate n value
unfolding texts
texts-replicate zero value h = refl
texts-replicate (suc n) value h =
    rw (is_missing_text value h, texts-replicate n value h, text_at_text value h) refl

pub tally-replicate : (n : ℕ) (value : Bytes) → tally value (replicate n value) ≡ n
unfolding tally
tally-replicate zero value = refl
tally-replicate (suc n) value = rw (str_eq_refl value, tally-replicate n value) refl

-- Only the text that came is counted.
pub tally-replicate_pos : (n : ℕ) (value v : Bytes) → 0 < tally v (replicate n value) → v ≡ value
unfolding tally
tally-replicate_pos zero value v h = absurd (omega (arith, h))
tally-replicate_pos (suc n) value v h =
    ground (arith, h, str_eq_iff value v, tally-replicate_pos n value v)
