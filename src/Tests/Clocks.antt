-- ===== src/Tests/Clocks.antt =====
-- The clock domain crosser.
use mcsim.Common.{ℕ, ◌*◌, ◌+◌, ◌≤◌, ◌<◌, ◌≡◌, refl, true, some, arith}
use mcsim.ClockDomain.{ClockDomainCrosser, new, update, catch_up}
use mcsim.ClockDomain.Ratio.{run, run_rate}

run_rate_example :
    (after : ClockDomainCrosser) × (calls : ℕ) × (run 7 (new 3 5 true) ≡ some (after, calls))
    × (7 * 3 ≤ calls * 5)
    × (calls * 5 < 7 * 3 + 5)
run_rate_example = run_rate 3 5 7 (omega arith) (omega arith)

-- Five calls for seven updates at three fifths of the rate.
seven_updates :
    run 7 (new 3 5 true) ≡ some (record (new 3 5 true) { counter1 = 6; counter2 = 10 }, 5)
unfolding run new update catch_up
seven_updates = refl
