-- ===== src/Tests/Marks.antt =====
-- The policy that marks requestors.
use mcsim.Common.{ℕ, ◌≡◌, refl, ok, arith, false, List, [], ◌∷◌, empty_map}
use mcsim.RequestScheduler.{BankTable, schedule_fr}
use mcsim.RequestScheduler.Blacklist.{schedule_bliss, is_marked}
use mcsim.RequestScheduler.Blacklist.Agreeing.{schedule_bliss-schedule_fr}
use mcsim.RequestScheduler.Blacklist.Streak.{state, count_times, count_times-marks}
use mcsim.Tests.Sample.{shared_queue}

abbrev rows : BankTable
rows = empty_map

abbrev no_marks : List ℕ
no_marks = 0 ∷ 0 ∷ 0 ∷ 0 ∷ 0 ∷ 0 ∷ 0 ∷ 0 ∷ []

unmarked : is_marked no_marks 1 ≡ ok false
unfolding is_marked
unmarked = refl

unmarked_zero : is_marked no_marks 0 ≡ ok false
unfolding is_marked
unmarked_zero = refl

schedule_bliss-schedule_fr_example :
    schedule_bliss no_marks rows shared_queue false false ≡ schedule_fr rows shared_queue
schedule_bliss-schedule_fr_example =
    schedule_bliss-schedule_fr no_marks rows shared_queue false (omega arith)
      ((unmarked_zero, refl), ((unmarked, refl), tt))

count_times-marks_example :
    count_times 6 (state no_marks 4 0 1) 3 ≡ ok (state (0 ∷ 0 ∷ 0 ∷ 1 ∷ 0 ∷ 0 ∷ 0 ∷ 0 ∷ []) 3 2 1)
count_times-marks_example = count_times-marks 3 1 no_marks 4 0 5 refl (omega arith)
