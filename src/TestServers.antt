-- ===== src/TestServers.antt =====
-- done/test-servers.c: puts for every write quorum from 1 to N, until no put succeeds for three of them in
-- a row. The results of the calls of each put are given by its write quorum and its number.
pub mod Durations
pub mod Runs
pub mod Stops
use distributed_hash_table.Base.{
  ℕ, zero, suc, ◌+◌, ◌-◌, ◌*◌, ◌/◌, ◌%◌, ◌^◌, Bool, true, false, List, [], ◌∷◌, Option, some, ltb,
  ◌==◌, if◌then◌else◌, Memory, Run, ok, ◌>>=◌,
}
use distributed_hash_table.Error.{ErrorCode, err_none}
use distributed_hash_table.CString.{Bytes, text_at}
use distributed_hash_table.System.{Platform}
use distributed_hash_table.Network.{Client, network_put}

-- `struct timespec`.
pub record Timespec : Type 0 where
  pub tv_sec : ℕ
  pub tv_nsec : ℕ

-- `print_time`: the seconds, and the nanoseconds in nine digits, of two times of a clock that does not go
-- back. The loop adds 10 ^ 9 once at most, since the nanoseconds are below it.
unfoldable pub print_time : Timespec → Timespec → ℕ × ℕ
print_time start end_ = (
  end_.tv_sec - start.tv_sec,
  if ltb end_.tv_nsec start.tv_nsec
      then end_.tv_nsec + 10 ^ 9 - start.tv_nsec
      else end_.tv_nsec - start.tv_nsec,
)

-- The bytes of a `size_t`, low byte first.
unfoldable pub bytes_of : ℕ → ℕ → Bytes
bytes_of zero n = []
bytes_of (suc k) n = (n % 256) ∷ bytes_of k (n / 256)

-- `(char *) &i`, read as a string.
unfoldable pub key_of : ℕ → Bytes
key_of i = text_at (bytes_of 8 i)

-- "this is a SourceCode test".
abbrev pub test_value : Bytes
test_value =
    116 ∷ 104 ∷ 105 ∷ 115 ∷ 32 ∷ 105 ∷ 115 ∷ 32 ∷ 97 ∷ 32 ∷ 83 ∷ 111 ∷ 117 ∷ 114 ∷ 99 ∷ 101 ∷ 67
    ∷ 111 ∷ 100 ∷ 101 ∷ 32 ∷ 116 ∷ 101 ∷ 115 ∷ 116 ∷ []

-- What the calls of one put give.
pub record Trial : Type 0 where
  pub first : Option ℕ
  pub second : Option ℕ
  pub replies : List (Option Bytes)

-- One pass of the outer loop: the W printed at its start, SUCCESS or FAILURE for each put, and the number
-- of successes.
pub record Round : Type 0 where
  pub quorum : ℕ
  pub successes : ℕ
  pub outcomes : List Bool

-- `client.args->W = w`.
unfoldable pub with_quorum : Client → ℕ → Client
with_quorum client w = record client {
  args = record { n = client.args.n; r = client.args.r; w = w };
}

unfoldable pub is_success : ErrorCode → Bool
is_success err_none = true
is_success code = false

module _ (platform : Platform) (fuel : ℕ) (client : Client) (network : ℕ → ℕ → Trial) where
  -- One put.
  unfoldable pub put_test : ℕ → ℕ → Memory → Run (Bool × Memory)
  put_test w i m =
      let trial = network w i in
      network_put platform fuel (with_quorum client w) (some (key_of i)) (some test_value)
        trial.first trial.second trial.replies m
      >>= λ (code, sent, m'). ok (is_success code, m')

  -- The inner loop: the puts left, and the number of the next.
  unfoldable pub run_tests : ℕ → ℕ → ℕ → Memory → Run (Round × Memory)
  run_tests zero i w m = ok (record { quorum = w; successes = 0; outcomes = [] }, m)
  run_tests (suc left) i w m = put_test w i m >>= λ (success, m₁).
      run_tests left (i + 1) w m₁ >>= λ (round, m₂). ok (
        record {
          quorum = w;
          successes = if success then suc round.successes else round.successes;
          outcomes = success ∷ round.outcomes;
        },
        m₂,
      )

  -- The outer loop: the write quorums left, the next one, and `zeros_in_a_row`. The rounds, and whether
  -- the loop was aborted.
  unfoldable pub measure : ℕ → ℕ → ℕ → ℕ → Memory → Run (List Round × Bool × Memory)
  measure tests zero w in_a_row m = ok ([], false, m)
  measure tests (suc left) w in_a_row m = run_tests tests 0 w m >>= λ (round, m₁).
      let in_a_row' = if round.successes == 0 then suc in_a_row else 0 in
      let later = measure tests left (w + 1) in_a_row' m₁ >>= λ (rounds, aborted, m₂).
      ok (round ∷ rounds, aborted, m₂) in
      if in_a_row' == 3 then ok (round ∷ [], true, m₁) else later

  -- From the loop over `client.args->W` on.
  unfoldable pub test_servers : ℕ → Memory → Run (List Round × Bool × Memory)
  test_servers tests m = measure tests client.args.n 1 0 m
