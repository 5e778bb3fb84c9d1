-- ===== src/RequestScheduler/Slots/OutOfRange.antt =====
-- The scheduler of system/PMC/RequestScheduler_PMC.h with fewer requestors than slots.
use mcsim.Common.{
  not_ltb→le, ℕ, zero, suc, ◌<◌, ◌≤◌, ◌≡◌, refl, Bool, none, List, [], ◌∷◌, Outcome,
  undefined_behaviour, arith, length, get_elem?, get_elem?-in_range, Bool-cases, inl, inr, ltb,
  ltb→lt,
}
use mcsim.Packet.{Request}
use mcsim.RequestQueue.{RequestQueue, get_size, requestor_size}
use mcsim.RequestScheduler.Rotation.{next_turn, turns, turns-lt, next_turn-lt, turns-next_turn}
use mcsim.RequestScheduler.Slots.{
  SlotScheduler, load, candidate, slot_loop, open_slot, slot_schedule,
}
use mcsim.RequestScheduler.Slots.Choice.{running, IsIdle, candidate_idle, slot_at}

get_elem?-past {ℓ} : {A : Type ℓ} (l : List A) (i : ℕ) → length l ≤ i → get_elem? l i ≡ none
get_elem?-past [] i h = refl
get_elem?-past (x ∷ l) zero h = absurd (omega arith)
get_elem?-past (x ∷ l) (suc i) h = get_elem?-past l i (omega arith)

requestor_size_past :
    (q : RequestQueue) (ids : List ℕ) (i : ℕ)
    → 0 < length ids
    → length ids ≤ i
    → requestor_size q ids i ≡ undefined_behaviour
requestor_size_past q [] i some_id h = absurd (omega arith)
requestor_size_past q (k ∷ ks) i some_id h = rw (get_elem?-past (k ∷ ks) i h) refl

candidate_past :
    (q : RequestQueue) (i : ℕ)
    → 0 < length q.requestor_order
    → length q.requestor_order ≤ i
    → candidate q i ≡ undefined_behaviour
unfolding candidate get_size
candidate_past q i some_id h = rw (requestor_size_past q q.requestor_order i some_id h) refl

module _ {G : Type 0} (is_schedulable : G → Request → Bool → Outcome (Bool × G)) where
  loop_past :
      (n i c t : ℕ) (g : G) (q : RequestQueue)
      → i < 8
      → 0 < length q.requestor_order
      → length q.requestor_order < 8
      → ((k : ℕ) → IsIdle q k)
      → turns 8 i (length q.requestor_order) < n
      → slot_loop is_schedulable n (running i c t) g q ≡ undefined_behaviour
  unfolding slot_loop
  loop_past zero i c t g q hi some_id few idle near = absurd (omega arith)
  loop_past (suc n) i c t g q hi some_id few idle near =
      elim (Bool-cases (ltb i (length q.requestor_order))) [
        | inr past ↦ rw (slot_at i hi, candidate_past q i some_id (not_ltb→le _ _ past)) refl
        | inl within ↦
            let (id, named) = get_elem?-in_range q.requestor_order i (ltb→lt _ _ within) in
            rw (slot_at i hi, candidate_idle q i id named (idle i id named))
              (loop_past n (next_turn 8 i) c t g q (next_turn-lt 8 i hi) some_id few idle (
                omega (
                  arith,
                  turns-next_turn 8 i (length q.requestor_order) hi few
                      (λ e. absurd (omega (arith, ltb→lt _ _ within, e))),
                )))
      ]

  -- The policy's tables are set or about to be, and a slot begins. The first queue has at least one
  -- requestor and fewer than eight, and no request is waiting: then the call reads the order of
  -- the requestors past its end.
  pub slot_schedule_past :
      (s : SlotScheduler) (i t : ℕ) (g : G) (q : RequestQueue) (qs : List RequestQueue)
      → load s ≡ running i 0 t
      → i < 8
      → 0 < length q.requestor_order
      → length q.requestor_order < 8
      → ((k : ℕ) → IsIdle q k)
      → slot_schedule is_schedulable s g (q ∷ qs) ≡ undefined_behaviour
  unfolding slot_schedule open_slot
  slot_schedule_past s i t g q qs e hi some_id few idle =
      rw (e, loop_past 8 i 0 t g q hi some_id few idle (turns-lt 8 i _ hi few)) refl
