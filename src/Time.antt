-- ===== src/Time.antt =====
-- src/time/time_sync.cpp, include/cache/time/time_sync.h: the hybrid logical clock of
-- DefaultTimeService and the timestamps of TimestampOrdering. A physical time is a count of
-- nanoseconds; `now` is what now_synchronized reads, the system's clock and the local offset.
pub mod Order
use qc_database.Prelude.{
  ℕ, ◌+◌, ◌-◌, ◌*◌, ◌/◌, ◌%◌, ◌^◌, Bool, true, false, not, ◌&&◌, ◌||◌, ltb, ◌==◌, if◌then◌else◌,
}
use qc_database.Std.Method.{Outcome, returns, undefined, Guarded, Method, with_unique, ◌>>=◌, pure}

pub record HybridLogicalClock : Type 0 where
  pub physical_time : ℕ
  pub logical_time : ℕ

-- operator<, operator== and operator<=
abbrev pub clock_lt : HybridLogicalClock → HybridLogicalClock → Bool
clock_lt a b =
    if not (a.physical_time == b.physical_time)
    then ltb a.physical_time b.physical_time
    else ltb a.logical_time b.logical_time

abbrev pub clock_beq : HybridLogicalClock → HybridLogicalClock → Bool
clock_beq a b = a.physical_time == b.physical_time && a.logical_time == b.logical_time

abbrev pub clock_le : HybridLogicalClock → HybridLogicalClock → Bool
clock_le a b = clock_lt a b || clock_beq a b

-- The fields that the clock uses; the drift is in milliseconds.
pub record TimeService : Type 0 where
  pub enable_hybrid_logical_clock : Bool
  pub max_clock_drift : ℕ
  pub logical_time : ℕ
  pub last_physical_time : ℕ

-- A uint64_t that is one more
abbrev pub next_logical : ℕ → ℕ
next_logical l = (l + 1) % 2 ^ 64

abbrev pub max_of : ℕ → ℕ → ℕ
max_of a b = if ltb a b then b else a

abbrev stamped : ℕ → ℕ → TimeService → HybridLogicalClock × TimeService
stamped physical logical s = (
  record { physical_time = physical; logical_time = logical },
  record s { logical_time = logical; last_physical_time = physical },
)

unfoldable pub increment_logical_clock : ℕ → TimeService → HybridLogicalClock × TimeService
increment_logical_clock now s =
    if ltb s.last_physical_time now
    then stamped now 0 s
    else stamped s.last_physical_time (next_logical s.logical_time) s

unfoldable pub now_logical : ℕ → Method TimeService HybridLogicalClock
now_logical now = with_unique λ g.
    if g.value.enable_hybrid_logical_clock
    then (let (c, s) = increment_logical_clock now g.value in returns (c, record g { value = s }))
    else returns (record { physical_time = now; logical_time = 0 }, g)

abbrev pub nanoseconds : ℕ
nanoseconds = 1000000

-- The rules of the update, from a received clock.
unfoldable pub merge_clock : ℕ → HybridLogicalClock → TimeService → HybridLogicalClock × TimeService
merge_clock now received s =
    if ltb received.physical_time now
    then stamped now (next_logical (max_of s.logical_time received.logical_time)) s
    else if now == received.physical_time
    then stamped now (next_logical (max_of s.logical_time received.logical_time)) s
    else if ltb s.max_clock_drift ((received.physical_time - now) / nanoseconds)
    then stamped now (next_logical received.logical_time) s
    else stamped received.physical_time (next_logical received.logical_time) s

-- Without the hybrid clock the call goes on to now_logical, under the mutex that it has locked.
unfoldable pub update_logical_clock : ℕ → HybridLogicalClock → Method TimeService HybridLogicalClock
update_logical_clock now received = with_unique λ g.
    if g.value.enable_hybrid_logical_clock
    then (let (c, s) = merge_clock now received g.value in returns (c, record g { value = s }))
    else now_logical now g

-- generate_timestamp of a TimestampOrdering whose latest timestamp is given, from what now_logical
-- returned.
unfoldable pub generate_timestamp : HybridLogicalClock → HybridLogicalClock → HybridLogicalClock
generate_timestamp latest stamp =
    if clock_le stamp latest
    then record {
      physical_time = latest.physical_time;
      logical_time = next_logical latest.logical_time;
    }
    else stamp
