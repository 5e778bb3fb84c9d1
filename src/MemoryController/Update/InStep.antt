-- ===== src/MemoryController/Update/InStep.antt =====
-- The counters and the packets of the write data that src/MemoryController.cpp holds back.
use mcsim.Common.{
  ℕ, suc, ◌+◌, ◌≡◌, refl, sym, ap, ◌∙◌, subst, Option, none, some, List, [], ◌∷◌, map, length,
  length-append, if_rule, ok, >>=-eq-ok, ok-injective, defined, arith, sub_u32, ◌==◌, get_elem?,
}
use mcsim.Packet.{BusPacket, wr, wra}
use mcsim.CommandQueue.{CommandQueue}
use mcsim.CommandScheduler.{CommandScheduler, Device}
use mcsim.CommandScheduler
use mcsim.MemoryController.State.{MemoryController}
use mcsim.MemoryController.Decode.{decode_queue}
use mcsim.MemoryController.Enqueue.{enqueue_buffer, enqueue_command, counted, command_levels}
use mcsim.MemoryController.Update.{
  Constraints, push_write_data, outgoing_type, outgoing_command, due_data, Policies, Channel,
  send_due, finish_cycle, update,
}

-- There is one counter for each packet.
abbrev pub InStep : MemoryController → Type 0
InStep m = length m.send_data_counter ≡ length m.send_data_buffer

length-map : (f : ℕ → ℕ) (xs : List ℕ) → length (map f xs) ≡ length xs
length-map f [] = refl
length-map f (x ∷ xs) = ap suc (length-map f xs)

-- With one counter for each packet, taking the data that is due is defined, and keeps it so.
pub due_data-InStep :
    (ns : List ℕ) (ps : List BusPacket)
    → length ns ≡ length ps
    → (out : Option BusPacket) × (ns' : List ℕ) × (ps' : List BusPacket) × (due_data ns ps
        ≡ ok (out, ns', ps'))
      × (length ns' ≡ length ps')
unfolding due_data
due_data-InStep [] ps e = (none, [], ps, refl, e)
due_data-InStep (n ∷ ns) [] e = absurd (omega (arith, e))
due_data-InStep (n ∷ ns) (p ∷ ps) e =
    if_rule
      (λ o.
        (out : Option BusPacket) × (ns' : List ℕ) × (ps' : List BusPacket) × (o
          ≡ ok (out, ns', ps'))
        × (length ns' ≡ length ps'))
      (n == 0) (λ _. (some p, _, ps, refl, length-map (λ k. sub_u32 k 1) ns ∙ omega (arith, e)))
      (λ _. (none, _, p ∷ ps, refl, length-map (λ k. sub_u32 k 1) (n ∷ ns) ∙ e))

-- The write data is not touched, nor what it is served from.
pub record SameData (m m' : MemoryController) : Type 0 where
  pub counters : m'.send_data_counter ≡ m.send_data_counter
  pub packets : m'.send_data_buffer ≡ m.send_data_buffer
  pub width : m'.data_bus_width ≡ m.data_bus_width
  pub writes : m'.pending_write_request ≡ m.pending_write_request
  pub clock : m'.clock_cycle ≡ m.clock_cycle

SameData-InStep : {m m' : MemoryController} → SameData m m' → InStep m → InStep m'
SameData-InStep s e = ap length s.counters ∙ e ∙ sym (ap length s.packets)

counted-SameData : (m : MemoryController) (c : BusPacket) → SameData m (counted m c)
unfolding counted
counted-SameData m c = record {
  counters = refl;
  packets = refl;
  width = refl;
  writes = refl;
  clock = refl;
}

enqueue_command-SameData :
    (m : MemoryController) (qs : List CommandQueue) (c : BusPacket)
    (out : MemoryController × List CommandQueue)
    → enqueue_command m qs c ≡ ok out
    → SameData m out.0
unfolding enqueue_command
enqueue_command-SameData m qs c out e =
    let (k, _, e1) = >>=-eq-ok (decode_queue m.mem_table (command_levels c) m.cmd_map) _ e in
    let (q, _, e2) = >>=-eq-ok (defined (get_elem? qs k)) _ e1 in
    subst (λ (x : MemoryController × List CommandQueue). SameData m x.0) (ok-injective _ _ e2)
      (counted-SameData m c)

pub enqueue_buffer-SameData :
    (cs : List BusPacket) (m : MemoryController) (qs : List CommandQueue)
    (out : MemoryController × List CommandQueue)
    → enqueue_buffer m qs cs ≡ ok out
    → SameData m out.0
unfolding enqueue_buffer
enqueue_buffer-SameData [] m qs out e =
    subst (λ (x : MemoryController × List CommandQueue). SameData m x.0) (ok-injective _ _ e)
      (record { counters = refl; packets = refl; width = refl; writes = refl; clock = refl })
enqueue_buffer-SameData (c ∷ cs) m qs out e =
    let (one, e1, e2) = >>=-eq-ok (enqueue_command m qs c) _ e in
    let s = enqueue_command-SameData m qs c one e1 in
    let t = enqueue_buffer-SameData cs one.0 one.1 out e2 in
    record {
      counters = t.counters ∙ s.counters;
      packets = t.packets ∙ s.packets;
      width = t.width ∙ s.width;
      writes = t.writes ∙ s.writes;
      clock = t.clock ∙ s.clock;
    }

push_write_data-InStep :
    (t : Constraints) (m : MemoryController) (c : BusPacket)
    → InStep m
    → InStep (push_write_data t m c)
unfolding push_write_data
push_write_data-InStep t m c e =
    length-append m.send_data_counter _
    ∙ ap (λ n. n + 1) e
    ∙ sym (length-append m.send_data_buffer _)

outgoing_command-InStep :
    (t : Constraints) (m : MemoryController) (o : Option BusPacket)
    → InStep m
    → InStep (outgoing_command t m o)
unfolding outgoing_command
outgoing_command-InStep t m none e = e
outgoing_command-InStep t m (some c) e =
    elim c.bus_packet_type as (λ x. InStep (outgoing_type t m c x)) [
      | wr ↦ push_write_data-InStep t m c e
      | wra ↦ push_write_data-InStep t m c e
      | _ ↦ e
    ]

module _ {D R : Type 0} (device : Device D) (policies : Policies D R) (t : Constraints) where
  finish_cycle-InStep :
      (ch : Channel D R) (ch' : Channel D R)
      → finish_cycle device policies t ch ≡ ok ch'
      → InStep ch.controller
      → InStep ch'.controller
  unfolding finish_cycle
  finish_cycle-InStep ch ch' e h =
      let (out, ns, ps, d, l) =
        due_data-InStep ch.controller.send_data_counter ch.controller.send_data_buffer h in
      let (due, e1, e2) =
        >>=-eq-ok (due_data ch.controller.send_data_counter ch.controller.send_data_buffer) _ e in
      let (s, _, e3) =
        >>=-eq-ok (CommandScheduler.tick (send_due device policies t ch due.0).scheduler) _ e2 in
      subst (λ (x : Channel D R). InStep x.controller) (ok-injective _ _ e3)
        (ap (λ (x : Option BusPacket × List ℕ × List BusPacket). length x.1)
            (ok-injective _ _ (sym e1 ∙ d))
          ∙ l
          ∙ sym (
              ap (λ (x : Option BusPacket × List ℕ × List BusPacket). length x.2)
                (ok-injective _ _ (sym e1 ∙ d))))

  -- A cycle of the controller that ends normally keeps one counter for each packet of write data
  -- that is held back, if there was one before.
  pub update-InStep :
      (ch : Channel D R) (ch' : Channel D R)
      → update device policies t ch ≡ ok ch'
      → InStep ch.controller
      → InStep ch'.controller
  unfolding update
  update-InStep ch ch' e h =
      let m = ch.controller in
      let (sch, _, e1) =
        >>=-eq-ok
          (policies.request_schedule ch.request_scheduler ch.generator m.request_queue
            ch.scheduler.command_queue)
          _ e in
      let (queued, b, e2) =
        >>=-eq-ok
          (enqueue_buffer (record m { request_queue = sch.request_queues }) sch.command_queues
            sch.generator.command_buffer)
          _ e1 in
      let (refreshed, _, e3) =
        >>=-eq-ok
          (CommandScheduler.refresh device (record (ch.scheduler) { command_queue = queued.1 })) _
          e2 in
      let (out, _, e4) = >>=-eq-ok (policies.command_schedule refreshed) _ e3 in
      finish_cycle-InStep _ ch' e4 (
        outgoing_command-InStep t queued.0 out.0 (
          SameData-InStep
            (enqueue_buffer-SameData sch.generator.command_buffer _ sch.command_queues queued b) h))
