-- ===== src/RequestScheduler/Slots.antt =====
-- system/PMC/RequestScheduler_PMC.h: a request in each time slot of 47 cycles, the eight requestors in
-- turn. Whether a request can be scheduled is the virtual `isSchedulable`, a parameter, with
-- the state it changes. Trace output is left out.
pub mod Choice
pub mod Wait
pub mod OutOfRange
use mcsim.Common.{
  ℕ, zero, suc, ◌+◌, ◌-◌, Bool, true, false, Option, none, some, List, [], ◌∷◌, length, get_elem?,
  set, ltb, ◌==◌, if◌then◌else◌, Outcome, ok, undefined_behaviour, aborted, ◌>>=◌, ◌>>◌, defined,
  require, u64,
}
use mcsim.Packet.{Request}
use mcsim.RequestQueue.{RequestQueue, get_size, get_requestor_request, remove_request}
use mcsim.RequestScheduler.Rotation.{next_turn}

-- The fields of `RequestScheduler_PMC`, and the base class's clock.
pub record SlotScheduler : Type 0 where
  pub requestor_index : ℕ
  pub slot_counter : ℕ
  pub schedule_slot : List ℕ
  pub time_slot : List ℕ
  pub clock_cycle : ℕ

unfoldable pub new : SlotScheduler
new = record {
  requestor_index = 0;
  slot_counter = 0;
  schedule_slot = [];
  time_slot = [];
  clock_cycle = 1;
}

abbrev pub eight_slots : List ℕ
eight_slots = 0 ∷ 1 ∷ 2 ∷ 3 ∷ 4 ∷ 5 ∷ 6 ∷ 7 ∷ []

abbrev pub slot_lengths : List ℕ
slot_lengths = 47 ∷ 47 ∷ 47 ∷ 47 ∷ 47 ∷ 47 ∷ 47 ∷ 47 ∷ []

-- The tables are set in the first cycle.
unfoldable pub load : SlotScheduler → SlotScheduler
load s =
    if s.clock_cycle == 1
    then record s { schedule_slot = eight_slots; time_slot = slot_lengths }
    else s

-- `step` of the base class
unfoldable pub step : SlotScheduler → SlotScheduler
step s = record s { clock_cycle = u64 (s.clock_cycle + 1) }

-- `requestorIndex++`, with the wrap at the end of the slots.
abbrev pub advance : SlotScheduler → SlotScheduler
advance s = record s { requestor_index = next_turn (length s.schedule_slot) s.requestor_index }

-- `getRequest(slot, 0)` where `getSize(true, slot)` is not 0.
unfoldable pub candidate : RequestQueue → ℕ → Outcome (Option Request × RequestQueue)
candidate q slot = do
  size ← get_size q true slot
  if ltb 0 size then get_requestor_request q slot 0 else ok (none, q)

module _ {G : Type 0} (is_schedulable : G → Request → Bool → Outcome (Bool × G)) where
  -- A request is passed on, or else the program aborts.
  unfoldable pub grant :
      SlotScheduler → G → ℕ → Request → RequestQueue → Outcome (SlotScheduler × G × RequestQueue)
  grant s g slot r q = do
    answer ← is_schedulable g r false
    require answer.0
    q' ← remove_request q
    cycles ← defined (get_elem? s.time_slot slot)
    ok (advance (record s { slot_counter = cycles - 1 }), answer.1, q')

  -- The loop over the slots, with `n` rounds left.
  unfoldable pub slot_loop :
      ℕ → SlotScheduler → G → RequestQueue → Outcome (SlotScheduler × G × RequestQueue)
  unfolding grant candidate
  slot_loop zero s g q = ok (s, g, q)
  slot_loop (suc n) s g q = do
    slot ← defined (get_elem? s.schedule_slot s.requestor_index)
    found ← candidate q slot
    elim found.0 [ none ↦ slot_loop n (advance s) g found.1 | some r ↦ grant s g slot r found.1 ]

  -- What the end of a slot does with the first queue.
  unfoldable pub open_slot :
      SlotScheduler → G → List RequestQueue → Outcome (SlotScheduler × G × List RequestQueue)
  open_slot s g queues = do
    q ← defined (get_elem? queues 0)
    done ← slot_loop (length s.schedule_slot) s g q
    ok (done.0, done.1, set queues 0 done.2)

  -- `requestSchedule`
  unfoldable pub slot_schedule :
      SlotScheduler → G → List RequestQueue → Outcome (SlotScheduler × G × List RequestQueue)
  unfolding load open_slot
  slot_schedule s g queues =
      if (load s).slot_counter == 0
      then open_slot (load s) g queues
      else ok (record (load s) { slot_counter = (load s).slot_counter - 1 }, g, queues)
