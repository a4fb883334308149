-- ===== src/Snapshots/Tests.antt =====
-- A plan every six hours, anchored at 03:00 UTC: 21:00 is one of its hours.
use oddk.Base.{◌≡◌, ◌↔◌, ◌+◌, ◌%◌, refl, true, none, arith, Memᴰ}
use oddk.Snapshots.Plan.{Plan, runs_at_hour, IsScheduled, runs_at_hour-residue}

abbrev six_hourly : Plan
six_hourly = record { utc_hour = 3; interval_hours = 6; paused_at = none }

six_hourly-IsScheduled : IsScheduled six_hourly
six_hourly-IsScheduled = record {
  hour = omega arith;
  interval = Memᴰ.tail (Memᴰ.tail (Memᴰ.tail (Memᴰ.tail (Memᴰ.head refl))));
}

runs_at_hour-residue_example :
    ((runs_at_hour six_hourly 21 ≡ true) ↔ (21 % 6 ≡ 3 % 6))
    × (runs_at_hour six_hourly 21 ≡ true → runs_at_hour six_hourly ((21 + 6) % 24) ≡ true)
runs_at_hour-residue_example =
    runs_at_hour-residue six_hourly six_hourly-IsScheduled 21 (omega arith)
