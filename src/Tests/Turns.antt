-- ===== src/Tests/Turns.antt =====
-- The request policies that take turns, and the one that takes the oldest request.
use mcsim.Common.{
  some, All, if_rule, get_elem?, get_or, sym, ◌∙◌, ◌==◌, ℕ, zero, suc, ◌≡◌, refl, ap, Bool, true,
  none, List, [], ◌∷◌, Outcome, ok, undefined_behaviour, length, arith, insert, empty_map, ◌⊎◌,
}
use mcsim.Packet.{Request}
use mcsim.RequestQueue.{RequestQueue}
use mcsim.RequestQueue.Removal.{scheduled}
use mcsim.CommandGenerator.{CommandGenerator, new_close, close_generate}
use mcsim.RequestScheduler.{BankTable}
use mcsim.RequestScheduler.Selection.{IsConsistent}
use mcsim.RequestScheduler.Slots.{SlotScheduler, slot_schedule, load}
use mcsim.RequestScheduler.Slots
use mcsim.RequestScheduler.Slots.Choice.{running}
use mcsim.RequestScheduler.Slots.Wait.{Slotted, ServedWithin, slot_schedule-ServedWithin}
use mcsim.RequestScheduler.Slots.OutOfRange.{slot_schedule_past}
use mcsim.RequestScheduler.RoundRobin.{round_robin_schedule}
use mcsim.RequestScheduler.RoundRobin.Single.{TakesTurn, StaysIdle, round_robin_schedule-TakesTurn}
use mcsim.RequestScheduler.RoundRobin.Several.{
  second_turn, first_turn, round_robin_schedule_wrong_queue,
}
use mcsim.RequestScheduler.Oldest.{visit_requestors, fcfs_request_schedule}
use mcsim.RequestScheduler.Oldest.Earliest.{Waiting, check_of}
use mcsim.RequestScheduler.Oldest.Visit.{Answers, AllIdle, Oldest, after, visit_requestors-Oldest}
use mcsim.RequestScheduler.Oldest.Stale.{fcfs_request_schedule-stale}
use mcsim.RequestScheduler.Direct.Rounds.{AllConsistent}
use mcsim.RequestScheduler.Direct.Sweep.{OneOfEach, serve_queue-OneOfEach}
use mcsim.Tests.Sample.{shared_queue, read_of}

-- `isSchedulable` with the close-page generator.
abbrev by_close : CommandGenerator → Request → Bool → Outcome (Bool × CommandGenerator)
by_close g r open_row = ok (true, close_generate g r)

abbrev generator : CommandGenerator
generator = new_close 8

-- Eight requestors, of which 1 and 3 have requests waiting.
abbrev eight : RequestQueue
eight = record shared_queue {
  per_requestor_enable = true;
  general_buffer = [];
  requestor_buffer =
      insert (insert empty_map 1 (read_of 1 64 2 7 5 ∷ [])) 3 (read_of 3 128 2 9 3 ∷ []);
  requestor_order = 0 ∷ 1 ∷ 2 ∷ 3 ∷ 4 ∷ 5 ∷ 6 ∷ 7 ∷ [];
}

-- In every cycle requestor 1 sends one more read.
busy : ℕ → List (List Request)
busy zero = []
busy (suc n) = (read_of 1 64 2 7 n ∷ []) ∷ busy n

length-busy : (n : ℕ) → length (busy n) ≡ n
unfolding busy
length-busy zero = refl
length-busy (suc n) = ap suc (length-busy n)

abbrev start : Slotted CommandGenerator
start = record { policy = Slots.new; generator = generator; queues = eight ∷ [] }

new_running : load Slots.new ≡ running 0 0 1
unfolding load Slots.new
new_running = refl

slot_schedule-ServedWithin_example : ServedWithin by_close (busy 376) start 3 (read_of 3 128 2 9 3)
slot_schedule-ServedWithin_example =
    slot_schedule-ServedWithin by_close (busy 376) start 0 0 1 3 3 (read_of 3 128 2 9 3)
      (λ g r. (close_generate g r, refl)) new_running (omega arith) (omega arith) (omega arith)
      (record {
        queue = eight;
        others = [];
        rest = [];
        read = refl;
        front = record { named = refl; waits = refl };
        enough = omega arith;
      })
      (length-busy 376)

-- Two requestors that have nothing waiting.
abbrev two_idle : RequestQueue
two_idle = record shared_queue {
  per_requestor_enable = true;
  general_buffer = [];
  requestor_order = 4 ∷ 6 ∷ [];
}

slot_schedule_past_example :
    slot_schedule by_close Slots.new generator (two_idle ∷ []) ≡ undefined_behaviour
slot_schedule_past_example =
    slot_schedule_past by_close Slots.new 0 1 generator two_idle [] new_running (omega arith)
      (omega arith) (omega arith) (λ k id named. refl)

round_robin_schedule-TakesTurn_example :
    TakesTurn by_close 42 5 generator eight ⊎ StaysIdle by_close 42 5 generator eight
round_robin_schedule-TakesTurn_example =
    round_robin_schedule-TakesTurn by_close 42 5 generator eight
      (λ g r. (true, close_generate g r, refl)) refl (omega arith)

abbrev other_queue : RequestQueue
other_queue = record shared_queue { general_buffer = read_of 2 192 4 1 8 ∷ [] }

round_robin_schedule_wrong_queue_example :
    round_robin_schedule by_close
      (second_turn 42 (0 ∷ 0 ∷ []))
      generator
      (other_queue ∷ shared_queue ∷ [])
    ≡ ok (
      first_turn 42 (0 ∷ 0 ∷ []),
      close_generate generator (read_of 0 64 2 7 5),
      record other_queue { general_buffer = [] } ∷ scheduled shared_queue 0 ∷ [],
    )
round_robin_schedule_wrong_queue_example =
    round_robin_schedule_wrong_queue by_close 42 (0 ∷ 0 ∷ []) generator
      (close_generate generator (read_of 0 64 2 7 5)) other_queue shared_queue (read_of 2 192 4 1 8)
      (read_of 0 64 2 7 5) (read_of 1 128 2 9 3 ∷ []) [] (record { general = refl; oldest = refl })
      refl refl (record { general = refl; oldest = refl }) refl

abbrev closed_rows : BankTable
closed_rows = empty_map

by_close-Answers : Answers by_close
by_close-Answers g r open_row = (true, close_generate g r, refl)

-- In this queue only requestors 1 and 3 have requests.
eight-IsConsistent : (v : Waiting eight) → IsConsistent v.r
eight-IsConsistent v = let waits = v.front.waits in ground arith

visit_requestors-Oldest_example :
    ((o : Oldest by_close closed_rows generator eight) × (visit_requestors by_close closed_rows
          generator eight
          (none, 0)
        ≡ ok (check_of o.chosen, after by_close o)))
    ⊎ (AllIdle by_close eight
        × (visit_requestors by_close closed_rows generator eight (none, 0)
            ≡ ok ((none, 0), (closed_rows, generator, eight))))
visit_requestors-Oldest_example =
    visit_requestors-Oldest by_close closed_rows generator eight 0 by_close-Answers
      eight-IsConsistent

abbrev third_waits : Waiting eight
third_waits = record {
  place = 3;
  id = 3;
  r = read_of 3 128 2 9 3;
  rest = [];
  front = record { named = refl; waits = refl };
}

fcfs_request_schedule-stale_example :
    fcfs_request_schedule by_close closed_rows generator (eight ∷ two_idle ∷ []) 0
    ≡ undefined_behaviour
fcfs_request_schedule-stale_example =
    fcfs_request_schedule-stale by_close closed_rows generator eight two_idle [] 0 by_close-Answers
      refl third_waits eight-IsConsistent refl (λ k id named. refl)

eight-place : (j id : ℕ) → get_elem? eight.requestor_order j ≡ some id → id ≡ j
eight-place j id e = ground arith

eight-AllConsistent : AllConsistent eight
eight-AllConsistent id =
    if_rule (λ o. All IsConsistent (get_or o [])) (id == 3) (λ _. (refl, tt))
      (λ _. if_rule (λ o. All IsConsistent (get_or o [])) (id == 1) (λ _. (refl, tt)) (λ _. tt))

serve_queue-OneOfEach_example : OneOfEach by_close 2 closed_rows generator eight
serve_queue-OneOfEach_example =
    serve_queue-OneOfEach by_close 2 closed_rows generator eight
      (λ g r open_row. (close_generate g r, refl)) refl (omega arith)
      (λ j k id e f. sym (eight-place j id e) ∙ eight-place k id f) eight-AllConsistent
