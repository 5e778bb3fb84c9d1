-- ===== src/RequestScheduler/RoundRobin/Several.antt =====
-- generalScheduler/RequestScheduler_RR.h with two queues that all requestors share.
use mcsim.Common.{
  if_true, if_false, ap, ◌∙◌, ℕ, ◌-◌, ◌≡◌, refl, Bool, true, false, List, [], ◌∷◌, ok, Outcome,
  ltb-suc, length, get_elem?, ltb,
}
use mcsim.Packet.{Request}
use mcsim.RequestQueue.{RequestQueue}
use mcsim.RequestQueue.Removal.{scheduled, get_request_found}
use mcsim.RequestQueue.Turns.{remove_request_oldest}
use mcsim.RequestScheduler.RoundRobin.{
  RoundRobin, take_general, visit_queue, queues_loop, round_robin_schedule, remove_from,
}

-- A slot begins, and it is the turn of the second queue of two.
abbrev pub second_turn : ℕ → List ℕ → RoundRobin
second_turn slot places = record {
  slot_counter = 0;
  time_slot = slot;
  queue_index = 1;
  queue_requestor_index = places;
}

abbrev pub first_turn : ℕ → List ℕ → RoundRobin
first_turn slot places = record {
  slot_counter = slot - 1;
  time_slot = slot;
  queue_index = 0;
  queue_requestor_index = places;
}

-- A queue for all requestors with `r` as its oldest request.
pub record Shared (q : RequestQueue) (r : Request) (rest : List Request) : Type 0 where
  pub general : q.per_requestor_enable ≡ false
  pub oldest : q.general_buffer ≡ r ∷ rest

module _ {G : Type 0} (is_schedulable : G → Request → Bool → Outcome (Bool × G)) where
  visit_second :
      (slot : ℕ) (places : List ℕ) (g g' : G) (first second : RequestQueue) (lost r : Request)
      (rest others : List Request)
      → Shared first lost others
      → first.scheduled_requestor ≡ false
      → first.scheduled_index ≡ 0
      → Shared second r rest
      → is_schedulable g r false ≡ ok (true, g')
      → visit_queue is_schedulable (second_turn slot places) g (first ∷ second ∷ []) 0 second
        ≡ ok (record {
          policy = second_turn slot places;
          generator = g';
          queues = record first { general_buffer = others } ∷ scheduled second 0 ∷ [];
          found = true;
        })
  unfolding visit_queue take_general remove_from
  visit_second slot places g g' first second lost r rest others f m z s e =
      if_false second.per_requestor_enable _ _ s.general
      ∙ if_true (ltb 0 (length second.general_buffer)) _ _
          (ap (λ l. ltb 0 (length l)) s.oldest ∙ ltb-suc (length rest))
      ∙ rw (get_request_found second 0 r (ap (λ l. get_elem? l 0) s.oldest))
          (rw e (rw (remove_request_oldest first lost others m z f.oldest) refl))

  -- Two queues that all requestors share, where it is the turn of the second when a slot begins, and the
  -- last read of the first queue was of its oldest request. The oldest request of the second queue
  -- goes to the command generator and stays in its queue, and the oldest request of the first queue leaves
  -- it without having gone anywhere.
  pub round_robin_schedule_wrong_queue :
      (slot : ℕ) (places : List ℕ) (g g' : G) (first second : RequestQueue) (lost r : Request)
      (rest others : List Request)
      → Shared first lost others
      → first.scheduled_requestor ≡ false
      → first.scheduled_index ≡ 0
      → Shared second r rest
      → is_schedulable g r false ≡ ok (true, g')
      → round_robin_schedule is_schedulable (second_turn slot places) g (first ∷ second ∷ [])
        ≡ ok (
          first_turn slot places,
          g',
          record first { general_buffer = others } ∷ scheduled second 0 ∷ [],
        )
  unfolding round_robin_schedule queues_loop
  round_robin_schedule_wrong_queue slot places g g' first second lost r rest others f m z s e =
      rw (visit_second slot places g g' first second lost r rest others f m z s e) refl
