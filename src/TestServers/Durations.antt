-- ===== src/TestServers/Durations.antt =====
-- What done/test-servers.c prints of a duration.
use distributed_hash_table.Base.{◌+◌, ◌-◌, ◌*◌, ◌^◌, ◌≤◌, ◌<◌, ◌≡◌, ltb, if◌then◌else◌, arith}
use distributed_hash_table.TestServers.{Timespec, print_time}

-- A duration is printed exactly if the nanoseconds of its end are not below those of its start, and one
-- second too long otherwise.
pub print_time_late :
    (start finish : Timespec)
    → start.tv_sec * 10 ^ 9 + start.tv_nsec ≤ finish.tv_sec * 10 ^ 9 + finish.tv_nsec
    → start.tv_nsec < 10 ^ 9
    → finish.tv_nsec < 10 ^ 9
    → (print_time start finish).0 * 10 ^ 9 + (print_time start finish).1
      ≡ finish.tv_sec * 10 ^ 9
        + finish.tv_nsec
        - (start.tv_sec * 10 ^ 9 + start.tv_nsec)
        + (if ltb finish.tv_nsec start.tv_nsec then 10 ^ 9 else 0)
unfolding print_time
print_time_late start finish order small small' = ground arith
