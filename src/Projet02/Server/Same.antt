-- ===== src/Projet02/Server/Same.antt =====
-- The server of week 10 and that of done/pps-launch-server.c, on the same requests.
use distributed_hash_table.Base.{
  ℕ, suc, ◌≡◌, ◌≢◌, refl, List, [], ◌∷◌, Option, none, some, Memory, Run, ok, fault, ◌>>=◌, All,
  take, drop, ap, ◌==◌, inl, inr, Bool-cases, ==_iff, ◌+◌, ◌≤◌, ◌∙◌, ltb, le→ltb, Bool, true, false,
  length, if◌then◌else◌, out_of_bounds, arith,
}
use distributed_hash_table.CString.{Bytes, text_at, find_nul}
use distributed_hash_table.Hashtable.{Htable}
use distributed_hash_table.Network.{max_msg_size}
use distributed_hash_table.Server as Final
use distributed_hash_table.Projet02.Server.{
  value_part, answer_get, answer_put, answer_key, handle, sockaddr_size, server_step, serve,
}

-- Anything but a dump-node request.
abbrev pub IsOrdinary : Option Bytes → Type 0
IsOrdinary none = Unit
IsOrdinary (some msg) = msg ≢ 0 ∷ []

-- What the last two branches give, of the two versions of `val` and `val_len`.
answer_value :
    (t : Htable) (key : Bytes) (same : Bool) (val : Bytes) (m : Memory)
    → answer_key t key (some (if same then ([], 1) else (val, length val))) m
      ≡ Final.answer_key t key
          (some (
            if same
            then record { text = []; len = 1 }
            else record { text = val; len = length val }))
          m
unfolding answer_key Final.answer_key answer_get answer_put Final.answer_get Final.answer_put
answer_value t key true val m = refl
answer_value t key false val m = refl

answer_key-value_part :
    (t : Htable) (key msg : Bytes) (rest : Option Bytes) (m : Memory)
    → find_nul msg ≡ rest
    → answer_key t key (value_part msg) m ≡ Final.answer_key t key (Final.value_part msg) m
unfolding answer_key Final.answer_key answer_get Final.answer_get value_part Final.value_part
answer_key-value_part t key msg none m e = rw (value_part, Final.value_part, e) refl
answer_key-value_part t key msg (some rest) m e =
    rw (value_part, Final.value_part, e)
      (answer_value t key (length (text_at msg) + 1 == length msg) (text_at (drop 1 rest)) m)

handle-handle :
    (t : Htable) (msg : Bytes) (m : Memory) → msg ≢ 0 ∷ [] → handle t msg m ≡ Final.handle t msg m
unfolding handle Final.handle
handle-handle t [] m n = refl
handle-handle t (c ∷ []) m n = elim (Bool-cases (c == 0)) [
  | inl nul ↦ absurd (n (ap (λ b. b ∷ []) ((==_iff c 0).0 nul)))
  | inr other ↦
      rw (handle, Final.handle, other)
        (answer_key-value_part t (text_at (c ∷ [])) (c ∷ []) _ m refl)
]
handle-handle t (c ∷ d ∷ msg) m n =
    answer_key-value_part t (text_at (c ∷ d ∷ msg)) (c ∷ d ∷ msg) _ m refl

take_nul : (n : ℕ) (msg : Bytes) → take (suc (suc n)) msg ≡ 0 ∷ [] → msg ≡ 0 ∷ []
take_nul n [] h = h
take_nul n (c ∷ []) h = h
take_nul n (c ∷ d ∷ msg) h = absurd (cc)

bind-same {ℓ κ} :
    {X : Type ℓ} {Y : Type κ} (r : Run X) (f g : X → Run Y)
    → ((x : X) → f x ≡ g x)
    → (r >>= f) ≡ (r >>= g)
bind-same (ok x) f g h = h x
bind-same (fault why) f g h = refl

-- A message that is no dump-node request.
pub server_step-server_step :
    (t : Htable) (msg : Bytes) (m : Memory)
    → msg ≢ 0 ∷ []
    → server_step t (some msg) m ≡ Final.server_step t (some msg) m
unfolding server_step Final.server_step
server_step-server_step t msg m n =
    handle-handle t (take max_msg_size msg) m (λ e. n (take_nul 65505 msg e))

serve_from :
    (addr_len : ℕ) (t : Htable) (datagrams : List (Option Bytes)) (m : Memory)
    → addr_len ≤ sockaddr_size
    → All IsOrdinary datagrams
    → serve addr_len t datagrams m ≡ Final.serve t datagrams m
unfolding serve Final.serve server_step Final.server_step
serve_from addr_len t [] m set h = refl
serve_from addr_len t (none ∷ later) m set h =
    rw
      (
        serve,
        le→ltb sockaddr_size addr_len set,
        serve_from sockaddr_size t later m (omega arith) h.1,
      )
      refl
serve_from addr_len t (some msg ∷ later) m set h =
    rw
      (
        serve,
        le→ltb sockaddr_size addr_len set,
        handle-handle t (take max_msg_size msg) m (λ e. h.0 (take_nul 65505 msg e)),
      )
      (bind-same (Final.handle t (take max_msg_size msg) m)
        (λ x. serve sockaddr_size x.0 later x.2 >>= λ y. ok (y.0, x.1 ∷ y.1, y.2))
        (λ x. Final.serve x.0 later x.2 >>= λ y. ok (y.0, x.1 ∷ y.1, y.2))
        (λ x. rw (serve_from sockaddr_size x.0 later x.2 (omega arith) h.1) refl))

-- The server of week 10 on whatever arrives but dump-node requests, with any table and any memory: where
-- `addr_len`, which nothing sets before the first round, holds more than the 16 bytes of an address,
-- `memset` writes behind it; else the server sends the same answers as the final server, reaches the
-- same faults, and is left with the same table.
pub serve-serve :
    (addr_len : ℕ) (t : Htable) (datagram : Option Bytes) (later : List (Option Bytes)) (m : Memory)
    → All IsOrdinary (datagram ∷ later)
    → serve addr_len t (datagram ∷ later) m ≡ (
        if ltb sockaddr_size addr_len
        then fault out_of_bounds
        else Final.serve t (datagram ∷ later) m)
unfolding serve
serve-serve addr_len t datagram later m h = elim (Bool-cases (ltb sockaddr_size addr_len)) [
  | inl long ↦ rw (serve, long) refl
  | inr short ↦ serve_from addr_len t (datagram ∷ later) m (ground (arith, short)) h ∙ rw short refl
]
