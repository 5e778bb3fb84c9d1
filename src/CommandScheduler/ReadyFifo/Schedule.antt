-- ===== src/CommandScheduler/ReadyFifo/Schedule.antt =====
-- A call of the policy of system/DCmc/CommandScheduler_DCmc.h, whole.
use mcsim.Common.{
  ℕ, ◌≡◌, Bool, true, false, Option, none, some, List, [], ◌∷◌, ◌++◌, Map, ok, Outcome, length, set,
  ◌⊎◌, All,
}
use mcsim.Packet.{BusPacket}
use mcsim.CommandQueue.{CommandQueue, remove_command}
use mcsim.CommandScheduler.{CommandScheduler, Device, is_issuable, send_command}
use mcsim.CommandScheduler.ReadyFifo.{Entry, ReadyFifo, collect, send_ready, ready_schedule}
use mcsim.CommandScheduler.ReadyFifo.Fresh.{fresh}
use mcsim.CommandScheduler.ReadyFifo.Order.{ArePassed, Sends}
use mcsim.CommandScheduler.ReadyFifo.Collect.{IsPaired}

abbrev marked_holding : CommandQueue → Bool → List BusPacket → List BusPacket → CommandQueue
marked_holding q mark high low = record q {
  scheduled_queue = mark;
  hrt_buffer = high;
  srt_buffer = low;
}

-- A removal where the marked buffer is not empty.
record Removed (q : CommandQueue) : Type 0 where
  queue : CommandQueue
  result : remove_command q ≡ ok queue
  same_kind : queue.per_requestor_enable ≡ q.per_requestor_enable

module _ {D : Type 0} (device : Device D) where
  -- The command went out from the front of its queue.
  record SentFront (s : CommandScheduler D) (c : BusPacket) (k : ℕ) : Type 0 where
    next : CommandScheduler D
    queue : CommandQueue
    result : send_command device s c k false ≡ ok next
    queues : next.command_queue ≡ set s.command_queue k queue
    general : queue.per_requestor_enable ≡ false
    received : next.memory_device ≡ device.receive_from_bus s.memory_device c

  -- A ready command is sent, and the others stay paired.
  pub record Issued (f : ReadyFifo D) (e : Entry) (m : Outcome (Option BusPacket × ReadyFifo D))
      : Type 0 where
    pub next : ReadyFifo D
    pub result : m ≡ ok (some e.0, next)
    pub paired : IsPaired next
    pub received :
        next.scheduler.memory_device ≡ device.receive_from_bus f.scheduler.memory_device e.0
    pub same_cmd : next.cmd_fifo ≡ f.cmd_fifo
    pub same_srt : next.srt_fifo ≡ f.srt_fifo

  -- What the second part of the call looks at: the entries of `srtFIFO` where `cmdFIFO` is empty.
  abbrev pub FromSrt :
      CommandScheduler D → List Entry → Option BusPacket → (left : List Entry) → Type 0
  FromSrt s fifo sent left =
      ((sent ≡ none) × (left ≡ fifo) × All (λ x. is_issuable device s x.0 ≡ false) fifo)
      ⊎ ((e : Entry) × (before : List Entry) × (after : List Entry) × (sent ≡ some e.0)
          × (fifo ≡ before ++ e ∷ after)
          × (left ≡ before ++ after)
          × (is_issuable device s e.0 ≡ true)
          × All (λ x. is_issuable device s x.0 ≡ false) before)

  abbrev pub FromCmd :
      CommandScheduler D → List Entry → Option BusPacket → (left : List Entry) → Type 0
  FromCmd s fifo sent left =
      ((sent ≡ none) × (left ≡ fifo) × ArePassed device s false fifo)
      ⊎ ((e : Entry) × (sent ≡ some e.0) × Sends device s false fifo e left)

  abbrev pub IsChosen : ReadyFifo D → List Entry → Option BusPacket → ReadyFifo D → Type 0
  IsChosen f [] sent next =
      FromSrt f.scheduler f.srt_fifo sent next.srt_fifo × (next.cmd_fifo ≡ f.cmd_fifo)
  IsChosen f (e ∷ es) sent next =
      FromCmd f.scheduler (e ∷ es) sent next.cmd_fifo × (next.srt_fifo ≡ f.srt_fifo)

  -- The second part of the call.
  record SendsReady (f : ReadyFifo D) (fifo : List Entry) : Type 0 where
    sent : Option BusPacket
    next : ReadyFifo D
    result : send_ready device f fifo ≡ ok (sent, next)
    paired : IsPaired next
    chosen : IsChosen f fifo sent next

  -- A call of the policy.
  pub record Scheduled (critical : Map Bool) (f : ReadyFifo D) : Type 0 where
    pub ready : ReadyFifo D
    pub collected : collect critical (length f.scheduler.command_queue) f 0 ≡ ok ready
    pub ready_paired : IsPaired ready
    pub sent : Option BusPacket
    pub next : ReadyFifo D
    pub result : ready_schedule device critical f ≡ ok (sent, next)
    pub paired : IsPaired next
    pub cmd_collected :
        ready.cmd_fifo ≡ f.cmd_fifo ++ fresh critical true f (length f.scheduler.command_queue) 0
    pub srt_collected :
        ready.srt_fifo ≡ f.srt_fifo ++ fresh critical false f (length f.scheduler.command_queue) 0
    pub chosen : IsChosen ready ready.cmd_fifo sent next
