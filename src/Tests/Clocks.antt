-- ===== src/Tests/Clocks.antt =====
-- src/time/time_sync.cpp at small inputs.
use qc_database.Prelude.{◌≡◌, refl, true, arith}
use qc_database.Std.Method.{returns, at_rest}
use qc_database.Time.{HybridLogicalClock, clock_lt, TimeService, update_logical_clock}
use qc_database.Time.Order.{last_clock, update_logical_clock-above}

abbrev service : TimeService
service = record {
  enable_hybrid_logical_clock = true;
  max_clock_drift = 100;
  logical_time = 3;
  last_physical_time = 500;
}

abbrev earlier : HybridLogicalClock
earlier = record { physical_time = 450; logical_time = 9 }

update_logical_clock-above_example :
    (t : TimeService) × (update_logical_clock 600 earlier (at_rest service)
      ≡ returns (last_clock t, at_rest t))
    × (clock_lt earlier (last_clock t) ≡ true)
update_logical_clock-above_example =
    update_logical_clock-above 600 earlier service refl (omega arith) (omega arith) (omega arith)
