-- ===== src/RequestScheduler/RoundRobin.antt =====
-- generalScheduler/RequestScheduler_RR.h: a request in each time slot of 42 cycles, the queues in turn and
-- the requestors of each in turn. Whether a request can be scheduled is the virtual
-- `isSchedulable`, a parameter, with the state it changes. `fixedPrioirty` is false
-- from the constructor on, and the code that it guards is left out.
pub mod Single
pub mod Several
pub mod Limited
use mcsim.Common.{
  ℕ, zero, suc, ◌+◌, ◌-◌, Bool, true, false, Option, none, some, List, [], ◌∷◌, length, get_elem?,
  set, ltb, ◌==◌, if◌then◌else◌, Outcome, ok, undefined_behaviour, ◌>>=◌, defined,
}
use mcsim.Packet.{Request}
use mcsim.RequestQueue.{
  RequestQueue, get_size, get_queue_size, get_request, get_requestor_request, remove_request,
}
use mcsim.RequestScheduler.Rotation.{next_turn}
use mcsim.RequestScheduler.Slots.{candidate}

pub record RoundRobin : Type 0 where
  pub slot_counter : ℕ
  pub time_slot : ℕ
  pub queue_index : ℕ
  pub queue_requestor_index : List ℕ

abbrev zeros : ℕ → List ℕ
zeros zero = []
zeros (suc n) = 0 ∷ zeros n

-- The constructor, for a number of queues.
unfoldable pub new : ℕ → RoundRobin
new queues = record {
  slot_counter = 0;
  time_slot = 42;
  queue_index = 0;
  queue_requestor_index = zeros queues;
}

-- `queueRequestorIndex[queueIndex]++`, with the wrap at the number of requestors.
abbrev pub advance_requestor : RoundRobin → ℕ → ℕ → RoundRobin
advance_requestor s size place = record s {
  queue_requestor_index = set s.queue_requestor_index s.queue_index (next_turn size place);
}

-- What a round leaves; `found` tells whether `scheduledRequest` is set.
pub record Turn (G : Type 0) : Type 0 where
  pub policy : RoundRobin
  pub generator : G
  pub queues : List RequestQueue
  pub found : Bool

-- `requestQueue[index]->removeRequest()`
unfoldable pub remove_from : List RequestQueue → ℕ → Outcome (List RequestQueue)
remove_from queues index = do
  q ← defined (get_elem? queues index)
  q' ← remove_request q
  ok (set queues index q')

module _ {G : Type 0} (is_schedulable : G → Request → Bool → Outcome (Bool × G)) where
  -- A requestor's request; the removal is from the queue at `index`, which is not the one that was read
  -- where `queueIndex` is another.
  unfoldable pub take_requestor :
      RoundRobin → G → List RequestQueue → ℕ → ℕ → ℕ → Request → Outcome (Turn G)
  unfolding remove_from
  take_requestor s g queues index size place r = do
    answer ← is_schedulable g r false
    if answer.0
        then (do
          queues' ← remove_from queues index
          ok (record {
            policy = advance_requestor s size place;
            generator = answer.1;
            queues = queues';
            found = true;
          }))
        else ok (record { policy = s; generator = answer.1; queues = queues; found = true })

  -- The loop over the requestors of the queue at `queueIndex`, with `n` rounds left.
  unfoldable pub requestor_loop :
      ℕ → RoundRobin → G → List RequestQueue → ℕ → RequestQueue → Outcome (Turn G)
  unfolding take_requestor
  requestor_loop zero s g queues index q =
      ok (record { policy = s; generator = g; queues = queues; found = false })
  requestor_loop (suc n) s g queues index q = do
    place ← defined (get_elem? s.queue_requestor_index s.queue_index)
    looked ← candidate q place
    let queues' = set queues s.queue_index looked.1
    elim looked.0 [
      | none ↦
          requestor_loop n (advance_requestor s (get_queue_size q) place) g queues' index looked.1
      | some r ↦ take_requestor s g queues' index (get_queue_size q) place r
    ]

  -- The oldest request of a queue that all requestors share.
  unfoldable pub take_general :
      RoundRobin → G → List RequestQueue → ℕ → RequestQueue → Outcome (Turn G)
  unfolding remove_from
  take_general s g queues index q = do
    got ← get_request q 0
    r ← defined got.0
    answer ← is_schedulable g r false
    queues' ←
        if answer.0
        then remove_from (set queues s.queue_index got.1) index
        else ok (set queues s.queue_index got.1)
    ok (record { policy = s; generator = answer.1; queues = queues'; found = true })

  unfoldable pub visit_queue :
      RoundRobin → G → List RequestQueue → ℕ → RequestQueue → Outcome (Turn G)
  unfolding requestor_loop take_general
  visit_queue s g queues index q =
      if q.per_requestor_enable
      then requestor_loop (get_queue_size q) s g queues index q
      else if ltb 0 (length q.general_buffer)
      then take_general s g queues index q
      else ok (record { policy = s; generator = g; queues = queues; found = false })

  abbrev pub next_queue : RoundRobin → ℕ → RoundRobin
  next_queue s count = record s { queue_index = next_turn count s.queue_index }

  -- The loop over the queues from `index` on, with `n` rounds left.
  unfoldable pub queues_loop :
      ℕ → RoundRobin → G → List RequestQueue → ℕ → Outcome (RoundRobin × G × List RequestQueue)
  unfolding visit_queue
  queues_loop zero s g queues index = ok (s, g, queues)
  queues_loop (suc n) s g queues index = do
    q ← defined (get_elem? queues s.queue_index)
    turn ← visit_queue s g queues index q
    let s' = next_queue turn.policy (length queues)
    let rest = queues_loop n s' turn.generator turn.queues (index + 1)
    if turn.found
        then ok (record s' { slot_counter = s.time_slot - 1 }, turn.generator, turn.queues)
        else rest

  -- `requestSchedule`
  unfoldable pub round_robin_schedule :
      RoundRobin → G → List RequestQueue → Outcome (RoundRobin × G × List RequestQueue)
  round_robin_schedule s g queues =
      if s.slot_counter == 0
      then queues_loop (length queues) s g queues 0
      else ok (record s { slot_counter = s.slot_counter - 1 }, g, queues)
