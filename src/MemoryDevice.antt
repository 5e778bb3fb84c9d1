-- ===== src/MemoryDevice.antt =====
-- src/MemoryDevice.h and src/MemoryDevice.cpp: the base class of the memory devices, with the read data on
-- its way to the controller and the posted commands. The state of the DRAM library's object is a
-- type parameter; what the subclass does with a packet, `receiveFromBus`, is an argument of `update`.
pub mod DelayLine
use mcsim.Common.{
  ℕ, ◌+◌, ◌-◌, Bool, true, false, Option, none, some, List, [], ◌∷◌, ◌++◌, map, u32, ltb,
  if◌then◌else◌, ◌==◌, Outcome, ok, undefined_behaviour, ◌>>=◌,
}
use mcsim.Packet.{BusPacketType, rd, rda, data_packet, BusPacket, new_packet}

pub record MemoryDevice (S : Type 0) : Type 0 where
  pub channel : S
  pub clock_cycle : ℕ
  pub data_cycles : List ℕ
  pub pending_read_data : List BusPacket
  pub post_buffer : List BusPacket
  pub post_counter : List ℕ

abbrev pub new : {S : Type 0} → S → MemoryDevice S
new channel = record {
  channel = channel;
  clock_cycle = 0;
  data_cycles = [];
  pending_read_data = [];
  post_buffer = [];
  post_counter = [];
}

-- `if (n > 0) n--`
abbrev pub count_down : ℕ → ℕ
count_down n = if ltb 0 n then n - 1 else n

front_due :
    List ℕ → BusPacket → List BusPacket → Outcome (Option BusPacket × List ℕ × List BusPacket)
front_due [] p ps = undefined_behaviour
front_due (n ∷ ns) p ps = if n == 0 then ok (some p, ns, ps) else ok (none, n ∷ ns, p ∷ ps)

-- The first half of `update`: the data that `receiveData` is called with, if any, and what is left.
unfoldable pub due : List ℕ → List BusPacket → Outcome (Option BusPacket × List ℕ × List BusPacket)
unfolding front_due
due cycles [] = ok (none, cycles, [])
due cycles (p ∷ ps) = front_due (map count_down cycles) p ps

-- The loop over the posted commands, by the buffer's size.
count_posted : List BusPacket → List ℕ → Outcome (List ℕ)
count_posted [] counters = ok counters
count_posted (p ∷ ps) [] = undefined_behaviour
count_posted (p ∷ ps) (c ∷ cs) = do rest ← count_posted ps cs; ok (count_down c ∷ rest)

-- `v.erase(v.begin())`
drop_front {ℓ} : {A : Type ℓ} → List A → Outcome (List A)
drop_front [] = undefined_behaviour
drop_front (x ∷ xs) = ok xs

module _ {S : Type 0} (receive : MemoryDevice S → BusPacket → Outcome (MemoryDevice S)) where
  front_posted : MemoryDevice S → BusPacket → List ℕ → Outcome (MemoryDevice S)
  unfolding drop_front
  front_posted d p [] = undefined_behaviour
  front_posted d p (c ∷ cs) =
      if c == 0
      then (do
        d' ← receive d p
        counters ← drop_front d'.post_counter
        buffer ← drop_front d'.post_buffer
        ok (record d' { post_counter = counters; post_buffer = buffer }))
      else ok d

  -- The second half of `update`.
  post : MemoryDevice S → List BusPacket → Outcome (MemoryDevice S)
  unfolding front_posted count_posted
  post d [] = ok d
  post d (p ∷ ps) = do
    counters ← count_posted (p ∷ ps) d.post_counter
    front_posted (record d { post_counter = counters }) p counters

  -- `update`: the device, and the packet that the controller's `receiveData` is called with.
  unfoldable pub update : MemoryDevice S → Outcome (MemoryDevice S × Option BusPacket)
  unfolding post
  update d = do
    out ← due d.data_cycles d.pending_read_data
    d' ← post (record d { data_cycles = out.1; pending_read_data = out.2 }) d.post_buffer
    ok (record d' { clock_cycle = u32 (d'.clock_cycle + 1) }, out.0)

-- The packet that goes back for a read command.
abbrev pub data_for : BusPacket → BusPacket
data_for c = new_packet data_packet c.requestor_id c.address 0 0 0 0 0 c.arrive_time

abbrev pub is_read : BusPacketType → Bool
is_read rd = true
is_read rda = true
is_read _ = false

-- `generateData`, for the latencies `tRL` and `tBus`; what is written is not kept.
unfoldable pub generate_data :
    {S : Type 0} (t_rl t_bus : ℕ) → MemoryDevice S → BusPacket → MemoryDevice S
generate_data t_rl t_bus d c =
    if is_read c.bus_packet_type
    then record d {
      pending_read_data = d.pending_read_data ++ data_for c ∷ [];
      data_cycles = d.data_cycles ++ (t_rl + t_bus) ∷ [];
    }
    else d
