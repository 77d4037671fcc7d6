-- ===== src/Tests/Measure.antt =====
-- A measurement without any answer, and a duration of 200 milliseconds.
use distributed_hash_table.Base.{ℕ, ◌≡◌, refl, Bool, List, [], some, none, ok, arith}
use distributed_hash_table.TestServers.{Timespec, print_time, Trial, Round, test_servers}
use distributed_hash_table.TestServers.Stops.{Ended, test_servers-Ended}
use distributed_hash_table.Tests.Network.{client, client-IsReady}
use distributed_hash_table.Tests.Ring.{toy, three}

abbrev start : Timespec
start = record { tv_sec = 1; tv_nsec = 900000000 }

abbrev finish : Timespec
finish = record { tv_sec = 2; tv_nsec = 100000000 }

abbrev silent : ℕ → ℕ → Trial
silent w i = record { first = some 5; second = none; replies = [] }

test_servers_example :
    (rounds : List Round) × (aborted : Bool) × (test_servers toy 3 client silent 2 []
      ≡ ok (rounds, aborted, []))
    × Ended toy 3 client silent 2 2 1 0 rounds aborted
test_servers_example = test_servers-Ended toy 3 client three silent 2 client-IsReady (omega arith)

-- 0.2 seconds are printed as 1.2 seconds.
print_time_run : print_time start finish ≡ (1, 200000000)
unfolding print_time
print_time_run = refl
