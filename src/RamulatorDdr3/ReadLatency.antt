-- ===== src/RamulatorDdr3/ReadLatency.antt =====
-- The read latency of the DDR3 device of src/Ramulator_DDR3.h, over the queues of src/MemoryDevice.cpp.
use mcsim.Common.{
  ℕ, ◌+◌, ◌≤◌, ◌≡◌, refl, sym, ap, ◌∙◌, true, false, Bool-cases, Option, none, some, List, [], ◌∷◌,
  ◌++◌, map, length, append_assoc, append-nil, All, Outcome, ok, ◌>>=◌, arith, ◌⊎◌, inl, inr,
  if◌then◌else◌, ◌==◌, u32,
}
use mcsim.Packet.{BusPacket, type_index}
use mcsim.MemoryDevice.{MemoryDevice, update, is_read, data_for, generate_data}
use mcsim.MemoryDevice.DelayLine.{
  somes, counters, counters-append-some, counters-append-none, somes-append-some, somes-append-none,
  due-window, first_slot,
}
use mcsim.RamulatorDdr3.Commands.{Command}
use mcsim.RamulatorDdr3.{SpeedEntry, Dram, convert_addr, convert_cmd, receive_from_bus}

-- A packet that is not posted: data, or a command that the library has.
abbrev pub Sendable : BusPacket → Type 0
Sendable p =
    (p.post_command ≡ false)
    × (((type_index p.bus_packet_type == 15) ≡ true)
        ⊎ ((c : Command) × (convert_cmd p.bus_packet_type ≡ ok c)))

abbrev pub reads : List BusPacket → List BusPacket
reads [] = []
reads (p ∷ ps) = let rest = reads ps in if is_read p.bus_packet_type then p ∷ rest else rest

abbrev pub slot_for : List BusPacket → Option BusPacket
slot_for [] = none
slot_for (p ∷ _) = some (data_for p)

-- The data that a cycle's packets call for.
abbrev pub slot : List BusPacket → Option BusPacket
slot ps = slot_for (reads ps)

enter-counters :
    (w : List (Option BusPacket)) (rs : List BusPacket) (l : ℕ)
    → length rs ≤ 1
    → length w + 1 ≡ l
    → counters 1 w ++ map (λ _. l) rs ≡ counters 1 (w ++ slot_for rs ∷ [])
enter-counters w [] l h e = append-nil _ ∙ sym (counters-append-none 1 w)
enter-counters w (r ∷ []) l h e =
    ap (λ n. counters 1 w ++ n ∷ []) (sym e) ∙ sym (counters-append-some 1 w (data_for r))
enter-counters w (r ∷ r' ∷ rs) l h e = absurd (omega arith)

enter-somes :
    (w : List (Option BusPacket)) (rs : List BusPacket)
    → length rs ≤ 1
    → somes w ++ map data_for rs ≡ somes (w ++ slot_for rs ∷ [])
enter-somes w [] h = append-nil _ ∙ sym (somes-append-none w)
enter-somes w (r ∷ []) h = sym (somes-append-some w (data_for r))
enter-somes w (r ∷ r' ∷ rs) h = absurd (omega arith)

-- Packets that can be sent, one read at most.
abbrev pub OneRead : List BusPacket → Type 0
OneRead ps = All Sendable ps × (length (reads ps) ≤ 1)

module _ {S : Type 0} (dram : Dram S) (s : SpeedEntry) where
  -- The packets of one cycle, in order.
  unfoldable pub receive_packets : MemoryDevice S → List BusPacket → Outcome (MemoryDevice S)
  receive_packets d [] = ok d
  receive_packets d (p ∷ ps) = do d' ← receive_from_bus dram s d p; receive_packets d' ps

  -- A cycle of `MemorySystem::update` at the device: the controller's packets come, then `update`.
  unfoldable pub cycle :
      MemoryDevice S → List BusPacket → Outcome (MemoryDevice S × Option BusPacket)
  cycle d ps = do d' ← receive_packets d ps; update (receive_from_bus dram s) d'

  unfoldable pub run :
      MemoryDevice S → List (List BusPacket) → Outcome (MemoryDevice S × List (Option BusPacket))
  run d [] = ok (d, [])
  run d (ps ∷ inputs) = do one ← cycle d ps; rest ← run one.0 inputs; ok (rest.0, one.1 ∷ rest.1)

  -- The device's read data is that of the window, and no command is posted.
  pub record Holds (d : MemoryDevice S) (window : List (Option BusPacket)) : Type 0 where
    pub cycles : d.data_cycles ≡ counters 1 window
    pub pending : d.pending_read_data ≡ somes window
    pub posted : d.post_buffer ≡ []

  generate_data-data_cycles :
      (d : MemoryDevice S) (p : BusPacket) (ps : List BusPacket) (l : ℕ × ℕ)
      → (generate_data l.0 l.1 d p).data_cycles ++ map (λ _. l.0 + l.1) (reads ps)
        ≡ d.data_cycles ++ map (λ _. l.0 + l.1) (reads (p ∷ ps))
  unfolding generate_data
  generate_data-data_cycles d p ps l = elim (Bool-cases (is_read p.bus_packet_type)) [
    | inl t ↦ rw t (append_assoc d.data_cycles _ _)
    | inr f ↦ rw f refl
  ]

  generate_data-pending_read_data :
      (d : MemoryDevice S) (p : BusPacket) (ps : List BusPacket) (l : ℕ × ℕ)
      → (generate_data l.0 l.1 d p).pending_read_data ++ map data_for (reads ps)
        ≡ d.pending_read_data ++ map data_for (reads (p ∷ ps))
  unfolding generate_data
  generate_data-pending_read_data d p ps l = elim (Bool-cases (is_read p.bus_packet_type)) [
    | inl t ↦ rw t (append_assoc d.pending_read_data _ _)
    | inr f ↦ rw f refl
  ]

  generate_data-post_buffer :
      (d : MemoryDevice S) (p : BusPacket) (l : ℕ × ℕ)
      → (generate_data l.0 l.1 d p).post_buffer ≡ d.post_buffer
  unfolding generate_data
  generate_data-post_buffer d p l = elim (Bool-cases (is_read p.bus_packet_type)) [
    | inl t ↦ rw t refl
    | inr f ↦ rw f refl
  ]

  record Received (d : MemoryDevice S) (ps : List BusPacket) : Type 0 where
    after : MemoryDevice S
    runs : receive_packets d ps ≡ ok after
    cycles : after.data_cycles ≡ d.data_cycles ++ map (λ _. s.n_cl + s.n_bl) (reads ps)
    pending : after.pending_read_data ≡ d.pending_read_data ++ map data_for (reads ps)
    posted : after.post_buffer ≡ d.post_buffer

  sent :
      (d : MemoryDevice S) (p : BusPacket)
      → Sendable p
      → (c : S) × (receive_from_bus dram s d p
          ≡ ok (generate_data s.n_cl s.n_bl (record d { channel = c }) p))
  unfolding receive_from_bus
  sent d p (h, k) = elim (Bool-cases (type_index p.bus_packet_type == 15)) [
    | inl t ↦ (d.channel, rw h (rw t refl))
    | inr f ↦ elim k [
      | inl t ↦ absurd (cc (sym t ∙ f))
      | inr e ↦
          (dram.update d.channel e.0 (convert_addr p) d.clock_cycle, rw h (rw f (rw e.1 refl)))
    ]
  ]

  receive_packets-Received :
      (d : MemoryDevice S) (ps : List BusPacket) → All Sendable ps → Received d ps
  unfolding receive_packets generate_data
  receive_packets-Received d [] h = record {
    after = d;
    runs = refl;
    cycles = sym (append-nil _);
    pending = sym (append-nil _);
    posted = refl;
  }
  receive_packets-Received d (p ∷ ps) h =
      let one = sent d p h.0 in
      let d' = generate_data s.n_cl s.n_bl (record d { channel = one.0 }) p in
      let rest = receive_packets-Received d' ps h.1 in
      record {
        after = rest.after;
        runs = rw one.1 rest.runs;
        cycles = rest.cycles ∙ generate_data-data_cycles _ p ps (s.n_cl, s.n_bl);
        pending = rest.pending ∙ generate_data-pending_read_data _ p ps (s.n_cl, s.n_bl);
        posted = rest.posted ∙ generate_data-post_buffer _ p (s.n_cl, s.n_bl);
      }

  -- One slot comes in at the end of the window and one goes out at its front.
  record Shifted (d : MemoryDevice S) (window : List (Option BusPacket)) (ps : List BusPacket)
      : Type 0 where
    after : MemoryDevice S
    out : Option BusPacket
    window' : List (Option BusPacket)
    runs : cycle d ps ≡ ok (after, out)
    shifts : out ∷ window' ≡ window ++ slot ps ∷ []
    holds : Holds after window'
    as_long : length window' ≡ length window

  -- `update`, for the window with the new slot.
  update-window :
      (d : MemoryDevice S) (x : Option BusPacket) (w : List (Option BusPacket))
      → d.data_cycles ≡ counters 1 (x ∷ w)
      → d.pending_read_data ≡ somes (x ∷ w)
      → d.post_buffer ≡ []
      → update (receive_from_bus dram s) d
        ≡ ok (
          record d {
            data_cycles = counters 1 w;
            pending_read_data = somes w;
            clock_cycle = u32 (d.clock_cycle + 1);
          },
          x,
        )
  unfolding update
  update-window d x w c p b = rw c (rw p (rw (due-window x w) (rw b refl)))

  cycle-Shifted :
      (d : MemoryDevice S) (w : List (Option BusPacket)) (ps : List BusPacket)
      → Holds d w
      → length w + 1 ≡ s.n_cl + s.n_bl
      → OneRead ps
      → Shifted d w ps
  unfolding cycle
  cycle-Shifted d w ps h l (sendable, one) =
      let got = receive_packets-Received d ps sendable in
      let (x, w', e, n) = first_slot w (slot ps) in
      let cycles : (got.after).data_cycles ≡ counters 1 (x ∷ w') =
        got.cycles
        ∙ ap (λ c. c ++ map (λ _. s.n_cl + s.n_bl) (reads ps)) h.cycles
        ∙ enter-counters w (reads ps) (s.n_cl + s.n_bl) one l
        ∙ ap (counters 1) e in
      let pending : (got.after).pending_read_data ≡ somes (x ∷ w') =
        got.pending
        ∙ ap (λ c. c ++ map data_for (reads ps)) h.pending
        ∙ enter-somes w (reads ps) one
        ∙ ap somes e in
      record {
        after = record (got.after) {
          data_cycles = counters 1 w';
          pending_read_data = somes w';
          clock_cycle = u32 ((got.after).clock_cycle + 1);
        };
        out = x;
        window' = w';
        runs = rw got.runs (update-window got.after x w' cycles pending (got.posted ∙ h.posted));
        shifts = sym e;
        holds = record { cycles = refl; pending = refl; posted = got.posted ∙ h.posted };
        as_long = n;
      }

  -- Let the device's read data be that of a window with one slot fewer than `tRL + tBus` cycles, and let the
  -- packets of each cycle to come be data or commands of the library, none of them posted and one
  -- read at most among them. Then every cycle ends normally, and what the controller receives, a slot
  -- for each cycle, followed by the window at the end, is the window at the start followed by the slots
  -- of the reads: each read is answered exactly once, in order, `tRL + tBus` updates after it came,
  -- its own cycle's included.
  pub run-delay_line :
      (d : MemoryDevice S) (w : List (Option BusPacket)) (inputs : List (List BusPacket))
      → Holds d w
      → length w + 1 ≡ s.n_cl + s.n_bl
      → All OneRead inputs
      → (d' : MemoryDevice S) × (outs : List (Option BusPacket)) × (w' : List (Option BusPacket))
        × (run d inputs ≡ ok (d', outs))
        × Holds d' w'
        × (length w' ≡ length w)
        × (outs ++ w' ≡ w ++ map slot inputs)
  unfolding run
  run-delay_line d w [] h l a = (d, [], w, refl, h, refl, sym (append-nil w))
  run-delay_line d w (ps ∷ inputs) h l a =
      let one = cycle-Shifted d w ps h l a.0 in
      let (d', outs, w', runs, holds, same, whole) =
        run-delay_line one.after one.window' inputs one.holds (omega (arith, one.as_long)) a.1 in
      (
        d',
        one.out ∷ outs,
        w',
        rw one.runs (rw runs refl),
        holds,
        same ∙ one.as_long,
        ap (λ k. one.out ∷ k) whole
            ∙ ap (λ k. k ++ map slot inputs) one.shifts
            ∙ append_assoc w (slot ps ∷ []) (map slot inputs),
      )
