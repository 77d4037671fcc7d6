-- ===== src/TestServers/Stops.antt =====
-- When done/test-servers.c stops.
use distributed_hash_table.Base.{
  ℕ, zero, suc, ◌+◌, ◌≤◌, ◌<◌, ◌≡◌, refl, ◌⊎◌, inl, inr, Bool, true, false, List, [], ◌∷◌, ok, ◌==◌,
  ==_iff, Bool-cases, if◌then◌else◌, take, length, arith,
}
use distributed_hash_table.System.{Platform}
use distributed_hash_table.Network.{Client}
use distributed_hash_table.Network.Get.{IsReady}
use distributed_hash_table.Ring.Servers.{Server}
use distributed_hash_table.TestServers.{Trial, Round, measure, test_servers}
use distributed_hash_table.TestServers.Runs.{IsRound, run_tests-IsRound}

-- How many rounds without a success there are in a row at the end.
unfoldable pub failures_at_end : ℕ → List Round → ℕ
failures_at_end in_a_row [] = in_a_row
failures_at_end in_a_row (round ∷ rounds) =
    failures_at_end (if round.successes == 0 then suc in_a_row else 0) rounds

module _ (platform : Platform) (fuel : ℕ) (client : Client) (network : ℕ → ℕ → Trial)
    (tests : ℕ) where
  -- One round of `tests` puts for each write quorum from `w` on, in order.
  unfoldable pub AreRounds : ℕ → List Round → Type 0
  AreRounds w [] = Unit
  AreRounds w (round ∷ rounds) =
      IsRound platform fuel client network tests 0 w round × AreRounds (w + 1) rounds

  -- How the outer loop ends, with `left` rounds to go from the write quorum `w` on: it is aborted behind the third
  -- round in a row without a success, and else all rounds are there; before its end there are no
  -- three such rounds in a row.
  pub record Ended (left w in_a_row : ℕ) (rounds : List Round) (aborted : Bool) : Type 0 where
    pub rounds_of : AreRounds w rounds
    pub ends :
        ((aborted ≡ true) × (failures_at_end in_a_row rounds ≡ 3) × (length rounds ≤ left))
        ⊎ ((aborted ≡ false) × (failures_at_end in_a_row rounds < 3) × (length rounds ≡ left))
    pub before : (k : ℕ) → k < length rounds → failures_at_end in_a_row (take k rounds) < 3

  Ended-none : (w in_a_row : ℕ) → in_a_row < 3 → Ended 0 w in_a_row [] false
  unfolding failures_at_end AreRounds
  Ended-none w in_a_row few = record {
    rounds_of = tt;
    ends = inr (refl, few, refl);
    before = λ k lt. absurd (omega (arith, lt));
  }

  Ended-third :
      (left w in_a_row : ℕ) (round : Round)
      → IsRound platform fuel client network tests 0 w round
      → in_a_row < 3
      → (round.successes == 0) ≡ true
      → (suc in_a_row == 3) ≡ true
      → Ended (suc left) w in_a_row (round ∷ []) true
  unfolding failures_at_end AreRounds
  Ended-third left w in_a_row round is few failed third = record {
    rounds_of = (is, tt);
    ends = inl (refl, rw failed ((==_iff (suc in_a_row) 3).0 third), omega arith);
    before = first;
  }
    where
      first : (k : ℕ) → k < 1 → failures_at_end in_a_row (take k (round ∷ [])) < 3
      first zero lt = few
      first (suc k) lt = absurd (omega (arith, lt))

  Ended-cons :
      (left w in_a_row : ℕ) (round : Round) (rounds : List Round) (aborted : Bool)
      → IsRound platform fuel client network tests 0 w round
      → in_a_row < 3
      → Ended left (w + 1) (if round.successes == 0 then suc in_a_row else 0) rounds aborted
      → Ended (suc left) w in_a_row (round ∷ rounds) aborted
  unfolding failures_at_end AreRounds
  Ended-cons left w in_a_row round rounds aborted is few e = record {
    rounds_of = (is, e.rounds_of);
    ends = elim e.ends [
      | inl (a, b, c) ↦ inl (a, b, omega (arith, c))
      | inr (a, b, c) ↦ inr (a, b, omega (arith, c))
    ];
    before = later;
  }
    where
      later :
          (k : ℕ) → k < suc (length rounds) → failures_at_end in_a_row (take k (round ∷ rounds)) < 3
      later zero lt = few
      later (suc k) lt = e.before k (omega (arith, lt))

module _ (platform : Platform) (fuel : ℕ) (client : Client) (ss : List Server)
    (network : ℕ → ℕ → Trial) (ready : IsReady platform client ss) (f : length ss ≤ fuel) where
  -- How the outer loop ends, with `left` rounds to go.
  measure-ends :
      (tests left w in_a_row : ℕ)
      → 0 < w
      → in_a_row < 3
      → (rounds : List Round) × (aborted : Bool) × (measure platform fuel client network tests left
            w in_a_row []
          ≡ ok (rounds, aborted, []))
        × Ended platform fuel client network tests left w in_a_row rounds aborted
  unfolding measure failures_at_end
  measure-ends tests zero w in_a_row pos few =
      ([], false, refl, Ended-none platform fuel client network tests w in_a_row few)
  measure-ends tests (suc left) w in_a_row pos few =
      let (round, run, is) =
        run_tests-IsRound platform fuel client ss network ready f tests 0 w pos in
      elim (Bool-cases (round.successes == 0)) [
        | inl failed ↦ elim (Bool-cases (suc in_a_row == 3)) [
          | inl third ↦ (
            round ∷ [],
            true,
            rw (run, failed, third) refl,
            Ended-third platform fuel client network tests left w in_a_row round is few failed
                third,
          )
          | inr more ↦
              let (rounds, aborted, later, ended) =
                measure-ends tests left (w + 1) (suc in_a_row) (omega arith)
                  (ground (arith, more)) in
              (
                round ∷ rounds,
                aborted,
                rw (run, failed, more, later) refl,
                Ended-cons platform fuel client network tests left w in_a_row round rounds aborted
                    is few (rw failed ended),
              )
        ]
        | inr succeeded ↦
            let (rounds, aborted, later, ended) =
              measure-ends tests left (w + 1) 0 (omega arith) (omega arith) in
            (
              round ∷ rounds,
              aborted,
              rw (run, succeeded, later) refl,
              Ended-cons platform fuel client network tests left w in_a_row round rounds aborted is
                  few (rw succeeded ended),
            )
      ]

-- With enough memory, a ring with at least N distinct servers and a default address that `inet_pton`
-- reads, test-servers ends, whatever the sockets and the servers answer. Its rounds are those of the write
-- quorums 1, 2 and so on, in order: each makes the asked number of puts, in order, with its quorum, has
-- of each whether `network_put` gave ERR_NONE, and has the number of the successes. If the loop is aborted, the
-- last three of its rounds, and no three in a row before them, are without a success; else there is a
-- round for every write quorum from 1 to N, and no three in a row are without a success.
pub test_servers-Ended :
    (platform : Platform) (fuel : ℕ) (client : Client) (ss : List Server) (network : ℕ → ℕ → Trial)
    (tests : ℕ)
    → IsReady platform client ss
    → length ss ≤ fuel
    → (rounds : List Round) × (aborted : Bool) × (test_servers platform fuel client network tests []
        ≡ ok (rounds, aborted, []))
      × Ended platform fuel client network tests client.args.n 1 0 rounds aborted
unfolding test_servers
test_servers-Ended platform fuel client ss network tests ready f =
    measure-ends platform fuel client ss network ready f tests client.args.n 1 0 (omega arith)
      (omega arith)
