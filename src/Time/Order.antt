-- ===== src/Time/Order.antt =====
-- src/time/time_sync.cpp: in which order the timestamps of the hybrid clock stand.
use qc_database.Prelude.{ℕ, ◌+◌, ◌-◌, ◌/◌, ◌^◌, ◌<◌, ◌≤◌, ◌≡◌, arith, true}
use qc_database.Std.Method.{returns, at_rest}
use qc_database.Time.{
  HybridLogicalClock, clock_lt, TimeService, now_logical, increment_logical_clock,
  update_logical_clock, merge_clock, generate_timestamp, nanoseconds,
}

-- The clock that a service has given last.
abbrev pub last_clock : TimeService → HybridLogicalClock
last_clock s = record { physical_time = s.last_physical_time; logical_time = s.logical_time }

-- now_logical of the hybrid clock always moves on: whatever the physical clock reads, the timestamp
-- is above the last one of the service and becomes the last one. The logical time is below its
-- greatest value.
pub now_logical-above :
    (now : ℕ) (s : TimeService)
    → s.enable_hybrid_logical_clock ≡ true
    → s.logical_time + 1 < 2 ^ 64
    → (t : TimeService) × (now_logical now (at_rest s) ≡ returns (last_clock t, at_rest t))
      × (clock_lt (last_clock s) (last_clock t) ≡ true)
unfolding now_logical increment_logical_clock
now_logical-above now s on small =
    ((increment_logical_clock now s).1, rw on (ground arith), ground arith)

-- update_logical_clock of the hybrid clock returns a timestamp above the received one, if the
-- received physical time is no more than max_clock_drift ahead and no logical time is at its greatest
-- value.
pub update_logical_clock-above :
    (now : ℕ) (received : HybridLogicalClock) (s : TimeService)
    → s.enable_hybrid_logical_clock ≡ true
    → s.logical_time + 1 < 2 ^ 64
    → received.logical_time + 1 < 2 ^ 64
    → (received.physical_time - now) / nanoseconds ≤ s.max_clock_drift
    → (t : TimeService) × (update_logical_clock now received (at_rest s)
        ≡ returns (last_clock t, at_rest t))
      × (clock_lt received (last_clock t) ≡ true)
unfolding update_logical_clock merge_clock
update_logical_clock-above now received s on small small' near =
    ((merge_clock now received s).1, rw on (ground arith), ground arith)

-- An update can set the clock back: when both the local physical clock and the received one are
-- behind the last timestamp, the timestamp that update_logical_clock returns is below it.
pub update_logical_clock-backwards :
    (now : ℕ) (received : HybridLogicalClock) (s : TimeService)
    → s.enable_hybrid_logical_clock ≡ true
    → now < s.last_physical_time
    → received.physical_time < s.last_physical_time
    → (t : TimeService) × (update_logical_clock now received (at_rest s)
        ≡ returns (last_clock t, at_rest t))
      × (clock_lt (last_clock t) (last_clock s) ≡ true)
unfolding update_logical_clock merge_clock
update_logical_clock-backwards now received s on behind behind' =
    ((merge_clock now received s).1, rw on (ground arith), ground arith)

-- generate_timestamp always moves on: whatever now_logical returned, the new timestamp is above the
-- latest one. The latest one's logical time is below its greatest value.
pub generate_timestamp-above :
    (latest stamp : HybridLogicalClock)
    → latest.logical_time + 1 < 2 ^ 64
    → clock_lt latest (generate_timestamp latest stamp) ≡ true
unfolding generate_timestamp
generate_timestamp-above latest stamp small = ground arith
