-- ===== src/CommandScheduler/ReadyFifo/Fresh.antt =====
-- What the first loop of system/DCmc/CommandScheduler_DCmc.h adds to the ready commands, told of the policy as it is
-- before the loop.
use mcsim.Common.{
  ℕ, zero, suc, ◌+◌, ◌≤◌, ◌≡◌, refl, ap, ap₂, ◌∙◌, Bool, true, false, not, ◌&&◌, Option, none, some,
  List, [], ◌∷◌, ◌++◌, Map, get_elem?, if◌then◌else◌, arith,
}
use mcsim.Packet.{BusPacket, type_index}
use mcsim.CommandQueue.{CommandQueue}
use mcsim.CommandScheduler.{CommandScheduler, elapsed, timers_for}
use mcsim.CommandScheduler.CasFirst.Scan.{looked_at}
use mcsim.CommandScheduler.ReadyFifo.{ReadyFifo, Entry}

abbrev pub is_kind : Bool → Option Bool → Bool
is_kind want none = false
is_kind want (some kind) = if want then kind else not kind

abbrev pub add_if : Bool → BusPacket → ℕ → List Entry
add_if b c k = if b then (c, k) ∷ [] else []

module _ {D : Type 0} (critical : Map Bool) (want : Bool) (s : CommandScheduler D) where
  -- What the front command of the queue at `k` adds to the ready commands of critical requestors, or to the others.
  abbrev pub fresh_command : ℕ → CommandQueue → Option BusPacket → List Entry
  fresh_command k q none = []
  fresh_command k q (some c) =
      add_if
        (elapsed (timers_for s k q c.requestor_id (type_index c.bus_packet_type))
          && is_kind want (critical c.requestor_id))
        c k

  -- A queue that has a ready command already adds none.
  abbrev pub fresh_at : ℕ → Option Bool → Option CommandQueue → List Entry
  fresh_at k (some false) (some q) = fresh_command k q (looked_at q)
  fresh_at k _ _ = []

-- The entries that `n` queues from `k` on add, as the policy is before the collection.
abbrev pub fresh : {D : Type 0} → Map Bool → Bool → ReadyFifo D → ℕ → ℕ → List Entry
fresh critical want f zero k = []
fresh critical want f (suc n) k =
    fresh_at critical want f.scheduler k (get_elem? f.queue_pending k)
      (get_elem? f.scheduler.command_queue k)
    ++ fresh critical want f n (k + 1)

-- From `k` on the flags and the queues are the same, and so are the timers.
pub record SameFrom {D : Type 0} (k : ℕ) (f g : ReadyFifo D) : Type 0 where
  pub flags : (j : ℕ) → k ≤ j → get_elem? g.queue_pending j ≡ get_elem? f.queue_pending j
  pub queues :
      (j : ℕ)
      → k ≤ j
      → get_elem? g.scheduler.command_queue j ≡ get_elem? f.scheduler.command_queue j
  pub rest : g.scheduler ≡ record (f.scheduler) { command_queue = g.scheduler.command_queue }

module _ {D : Type 0} (critical : Map Bool) (want : Bool) where
  fresh_command-queues :
      (s : CommandScheduler D) (qs : List CommandQueue) (k : ℕ) (q : CommandQueue)
      (o : Option BusPacket)
      → fresh_command critical want (record s { command_queue = qs }) k q o
        ≡ fresh_command critical want s k q o
  fresh_command-queues s qs k q none = refl
  fresh_command-queues s qs k q (some c) = refl

  fresh_at-queues :
      (s : CommandScheduler D) (qs : List CommandQueue) (k : ℕ) (b : Option Bool)
      (o : Option CommandQueue)
      → fresh_at critical want (record s { command_queue = qs }) k b o
        ≡ fresh_at critical want s k b o
  fresh_at-queues s qs k (some false) (some q) = fresh_command-queues s qs k q (looked_at q)
  fresh_at-queues s qs k none o = refl
  fresh_at-queues s qs k (some true) o = refl
  fresh_at-queues s qs k (some false) none = refl

  pub fresh-same :
      (f g : ReadyFifo D) (n k : ℕ)
      → SameFrom k f g
      → fresh critical want g n k ≡ fresh critical want f n k
  fresh-same f g zero k h = refl
  fresh-same f g (suc n) k h =
      let here : fresh_at critical want g.scheduler k (get_elem? g.queue_pending k)
            (get_elem? g.scheduler.command_queue k)
          ≡ fresh_at critical want f.scheduler k (get_elem? f.queue_pending k)
              (get_elem? f.scheduler.command_queue k) =
        ap
          (λ s.
            fresh_at critical want s k (get_elem? g.queue_pending k)
              (get_elem? g.scheduler.command_queue k))
          h.rest
        ∙ fresh_at-queues f.scheduler g.scheduler.command_queue k _ _
        ∙ ap₂ (λ b o. fresh_at critical want f.scheduler k b o) (h.flags k (omega arith))
            (h.queues k (omega arith)) in
      ap₂ (λ (a b : List Entry). a ++ b) here
        (fresh-same f g n (k + 1) (record {
          flags = λ j l. h.flags j (omega arith);
          queues = λ j l. h.queues j (omega arith);
          rest = h.rest;
        }))
