-- ===== src/Programs/Cat.antt =====
-- The concatenation of values by pps-client-cat.c.
use distributed_hash_table.Base.{
  ℕ, ◌+◌, ◌-◌, ◌≤◌, ◌≡◌, ◌≢◌, refl, ◌∙◌, List, [], ◌∷◌, ◌++◌, some, ok, arith, length,
  length-append, All, take_all, ◌>>=◌,
}
use mathlib.Core.List.{append_assoc, append-nil}
use distributed_hash_table.CString.{Bytes}
use distributed_hash_table.System.{Platform}
use distributed_hash_table.Network.{Client, max_msg_size}
use distributed_hash_table.Programs.{Call, put_text, fetch, store, cat_loop, cat_put, client_cat}

-- A key, the call of its get, and the value that comes.
pub record Source : Type 0 where
  pub key : Bytes
  pub call : Call
  pub value : Bytes

-- The values, one behind the other.
unfoldable pub joined : List Source → Bytes
joined [] = []
joined (s ∷ ss) = s.value ++ joined ss

-- The command line, and the calls that it leads to.
abbrev pub keys_of : List Source → Bytes → List Bytes
keys_of [] target = target ∷ []
keys_of (s ∷ ss) target = s.key ∷ keys_of ss target

abbrev pub calls_of : List Source → Call → List Call
calls_of [] last = last ∷ []
calls_of (s ∷ ss) last = s.call ∷ calls_of ss last

module _ (platform : Platform) (fuel : ℕ) (client : Client) where
  -- The get succeeds with the value.
  abbrev pub IsFetched : Source → Type 0
  IsFetched s = fetch platform fuel client s.key s.call [] ≡ ok (some s.value, [])

  cat_loop_step :
      (key second : Bytes) (argv : List Bytes) (text v : Bytes) (call : Call) (calls : List Call)
      → fetch platform fuel client key call [] ≡ ok (some v, [])
      → length text + length v ≤ max_msg_size
      → cat_loop platform fuel client (key ∷ second ∷ argv) text (call ∷ calls) []
        ≡ cat_loop platform fuel client (second ∷ argv) (text ++ v) calls []
  unfolding cat_loop
  cat_loop_step key second argv text v call calls got short =
      rw (cat_loop, got, take_all (max_msg_size - length text) v (omega (arith, short))) refl

  cat_loop-joined :
      (ss : List Source) (target text : Bytes) (last : Call)
      → All IsFetched ss
      → length text + length (joined ss) ≤ max_msg_size
      → cat_loop platform fuel client (keys_of ss target) text (calls_of ss last) []
        ≡ ok (text ++ joined ss, target ∷ [], last ∷ [], [])
  unfolding joined cat_loop
  cat_loop-joined [] target text last h short = rw (append-nil text) refl
  cat_loop-joined (s ∷ []) target text last h short =
      cat_loop_step s.key target [] text s.value s.call (last ∷ []) h.0
        (omega (arith, short, length-append s.value []))
      ∙ rw (append-nil s.value) refl
  cat_loop-joined (s ∷ s' ∷ ss) target text last h short =
      let sizes = length-append s.value (joined (s' ∷ ss)) in
      let sizes' = length-append text s.value in
      cat_loop_step s.key s'.key (keys_of ss target) text s.value s.call (calls_of (s' ∷ ss) last)
        h.0 (omega arith)
      ∙ (cat_loop-joined (s' ∷ ss) target (text ++ s.value) last h.1 (omega arith)
          ∙ simp append_assoc)

  cat_put_lem :
      (text target : Bytes) (last : Call)
      → text ≢ []
      → target ≢ []
      → cat_put platform fuel client text (target ∷ []) (last ∷ []) [] ≡ (
          store platform fuel client target text last [] >>= λ (e, _).
          ok (record { output = put_text e; status = 0 }))
  unfolding cat_put
  cat_put_lem [] target last n n' = absurd (n refl)
  cat_put_lem (c ∷ text) [] last n n' = absurd (n' refl)
  cat_put_lem (c ∷ text) (d ∷ target) last n n' = refl

  -- When the gets of all keys but the last succeed, with values that are not all empty and fit a
  -- message together, pps-client-cat puts their concatenation, in the order of the keys, under the last
  -- key, which is not empty, and prints the outcome of that put.
  pub client_cat-joined :
      (ss : List Source) (target : Bytes) (last : Call)
      → All IsFetched ss
      → joined ss ≢ []
      → target ≢ []
      → length (joined ss) ≤ max_msg_size
      → client_cat platform fuel client (keys_of ss target) (calls_of ss last) [] ≡ (
          store platform fuel client target (joined ss) last [] >>= λ (e, _).
          ok (record { output = put_text e; status = 0 }))
  unfolding client_cat
  client_cat-joined ss target last h some_byte named short =
      rw (client_cat, cat_loop-joined ss target [] last h (omega (arith, short)))
        (cat_put_lem (joined ss) target last some_byte named)
