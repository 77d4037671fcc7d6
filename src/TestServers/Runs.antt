-- ===== src/TestServers/Runs.antt =====
-- The puts of done/test-servers.c come to an end.
use distributed_hash_table.Base.{
  ℕ, zero, suc, ◌+◌, ◌/◌, ◌≤◌, ◌<◌, ◌≡◌, refl, ap, Bool, true, false, List, [], ◌∷◌, Option, none,
  some, ok, if◌then◌else◌, length, le→ltb, arith,
}
use distributed_hash_table.Error.{ErrorCode}
use distributed_hash_table.CString.{Bytes, text_at}
use distributed_hash_table.System.{Platform}
use distributed_hash_table.Network.{Client, max_msg_size, create_socket, network_put}
use distributed_hash_table.Node.{Node}
use distributed_hash_table.Network.Get.{IsReady}
use distributed_hash_table.Network.Put.{network_put_lem}
use distributed_hash_table.Ring.Servers.{Server}
use distributed_hash_table.TestServers.{
  bytes_of, key_of, test_value, Trial, Round, with_quorum, is_success, put_test, run_tests,
}

length-bytes_of : (k n : ℕ) → length (bytes_of k n) ≡ k
unfolding bytes_of
length-bytes_of zero n = refl
length-bytes_of (suc k) n = omega (arith, length-bytes_of k (n / 256))

length-text_at : (s : Bytes) → length (text_at s) ≤ length s
unfolding text_at
length-text_at [] = omega arith
length-text_at (c ∷ s) = ground (arith, length-text_at s)

length-key_of : (i : ℕ) → length (key_of i) ≤ 8
unfolding key_of
length-key_of i = omega (arith, length-bytes_of 8 i, length-text_at (bytes_of 8 i))

-- The puts that succeeded, counted.
unfoldable pub successes_in : List Bool → ℕ
successes_in [] = 0
successes_in (true ∷ outcomes) = suc (successes_in outcomes)
successes_in (false ∷ outcomes) = successes_in outcomes

module _ (platform : Platform) (fuel : ℕ) (client : Client) (network : ℕ → ℕ → Trial) where
  -- The outcomes of the puts with the write quorum `w`, from number `i` on.
  unfoldable pub AreOutcomes : ℕ → ℕ → List Bool → Type 0
  AreOutcomes w i [] = Unit
  AreOutcomes w i (outcome ∷ outcomes) =
      (put_test platform fuel client network w i [] ≡ ok (outcome, []))
      × AreOutcomes w (i + 1) outcomes

  -- The round of the write quorum `w`: `left` puts from number `i` on.
  pub record IsRound (left i w : ℕ) (round : Round) : Type 0 where
    pub quorum : round.quorum ≡ w
    pub tried : length round.outcomes ≡ left
    pub counted : round.successes ≡ successes_in round.outcomes
    pub put : AreOutcomes w i round.outcomes

module _ (platform : Platform) (fuel : ℕ) (client : Client) (ss : List Server)
    (network : ℕ → ℕ → Trial) (ready : IsReady platform client ss) (f : length ss ≤ fuel) where
  with_quorum-IsReady : (w : ℕ) → IsReady platform (with_quorum client w) ss
  unfolding with_quorum
  with_quorum-IsReady w = record {
    home = ready.home;
    known = ready.known;
    ring = ready.ring;
    some_server = ready.some_server;
    asked = ready.asked;
    room = ready.room;
    enough = ready.enough;
  }

  network_put-ends :
      (c : Client) (key value : Bytes) (first second : Option ℕ) (replies : List (Option Bytes))
      → IsReady platform c ss
      → length key ≤ max_msg_size
      → length value ≤ max_msg_size
      → 0 < c.args.w
      → (code : ErrorCode) × (sent : List (Node × Bytes)) × (network_put platform fuel c
            (some key)
            (some value)
            first
            second
            replies
            []
          ≡ ok (code, sent, []))
  unfolding network_put
  network_put-ends c key value (some fd) second replies is short short' pos =
      let (found, run, answers) =
        network_put_lem platform c ss key value fd fuel second replies is short short' pos f in
      (_, _, run)
  network_put-ends c key value none second replies is short short' pos = (
    create_socket second,
    [],
    rw (le→ltb max_msg_size (length key) short, le→ltb max_msg_size (length value) short') refl,
  )

  put_test-ends :
      (w i : ℕ)
      → 0 < w
      → (success : Bool) × (put_test platform fuel client network w i [] ≡ ok (success, []))
  unfolding put_test with_quorum
  put_test-ends w i pos =
      let trial = network w i in
      let (code, sent, run) =
        network_put-ends (with_quorum client w) (key_of i) test_value trial.first trial.second
          trial.replies (with_quorum-IsReady w) (omega (arith, length-key_of i)) (omega arith)
          pos in
      (is_success code, rw run refl)

  count_one :
      (success : Bool) (outcomes : List Bool) (n : ℕ)
      → n ≡ successes_in outcomes
      → (if success then suc n else n) ≡ successes_in (success ∷ outcomes)
  unfolding successes_in
  count_one true outcomes n e = ap suc e
  count_one false outcomes n e = e

  pub run_tests-IsRound :
      (left i w : ℕ)
      → 0 < w
      → (round : Round) × (run_tests platform fuel client network left i w [] ≡ ok (round, []))
        × IsRound platform fuel client network left i w round
  unfolding run_tests successes_in AreOutcomes
  run_tests-IsRound zero i w pos = (
    record { quorum = w; successes = 0; outcomes = [] },
    refl,
    record { quorum = refl; tried = refl; counted = refl; put = tt },
  )
  run_tests-IsRound (suc left) i w pos =
      let (success, first) = put_test-ends w i pos in
      let (round, later, is) = run_tests-IsRound left (i + 1) w pos in
      (
        record {
          quorum = w;
          successes = if success then suc round.successes else round.successes;
          outcomes = success ∷ round.outcomes;
        },
        rw (first, later) refl,
        record {
          quorum = refl;
          tried = ap suc is.tried;
          counted = count_one success round.outcomes round.successes is.counted;
          put = (first, is.put);
        },
      )
