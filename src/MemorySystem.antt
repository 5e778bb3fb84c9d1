-- ===== src/MemorySystem.antt =====
-- src/MemorySystem.cpp and src/MultiChannelMemorySystem.cpp: a channel is a memory controller with its
-- device, and the system calls its channels at the memory's clock. The loading of the DRAM library's
-- tables, the output and the functions that nothing calls are left out.
pub mod Channels
use mcsim.Common.{
  ℕ, zero, suc, ◌+◌, ◌%◌, Bool, Option, none, some, List, [], ◌∷◌, ◌++◌, get_elem?, set, length,
  u32, u64, ltb, not, if◌then◌else◌, ◌==◌, Outcome, ok, aborted, undefined_behaviour, ◌>>=◌, ◌>>◌,
  defined, defined_if,
}
use mcsim.Packet.{BusPacket, Request}
use mcsim.ClockDomain.{ClockDomainCrosser}
use mcsim.ClockDomain
use mcsim.CommandScheduler.{CommandScheduler, Device}
use mcsim.MemoryController.State.{MemoryController, receive_data}
use mcsim.MemoryController.Enqueue.{add_request}
use mcsim.MemoryController.Update.{Channel, Constraints, Policies}
use mcsim.MemoryController.Update

abbrev pub called {ℓ} : {A : Type ℓ} → Option A → List A
called none = []
called (some r) = r ∷ []

-- What the channels of a system share: the device's behaviour (`update_device` with the packet that it
-- passes to `receiveData`), the policies, the timing and the address mapping.
pub record Parts (D R : Type 0) : Type 0 where
  pub device : Device D
  pub update_device : D → Outcome (D × Option BusPacket)
  pub policies : Policies D R
  pub constraints : Constraints
  pub address_mapping : Request → Outcome Request

module _ {D R : Type 0} (parts : Parts D R) where
  receive : Channel D R → Option BusPacket → Channel D R
  receive ch none = ch
  receive ch (some p) =
      let (m, done) = receive_data ch.controller p in
      record ch { controller = m; called_back = ch.called_back ++ called done }

  -- `MemorySystem::update`, but for its own cycle count, which nothing reads.
  unfoldable pub update_channel : Channel D R → Outcome (Channel D R)
  unfolding receive
  update_channel ch = do
    ch' ← Update.update parts.device parts.policies parts.constraints ch
    out ← parts.update_device ch'.scheduler.memory_device
    ok (receive (record ch' { scheduler = record (ch'.scheduler) { memory_device = out.0 } }) out.1)

  -- `MemorySystem::addRequest`
  unfoldable pub add_to_channel :
      Channel D R → (requestor_id address : ℕ) → Bool → (size : ℕ) → Outcome (Channel D R)
  add_to_channel ch requestor_id address r_w size = do
    m ← add_request parts.address_mapping ch.controller requestor_id address r_w size
    ok (record ch { controller = m })

pub record MultiChannel (D R : Type 0) : Type 0 where
  pub channels : List (Channel D R)
  pub number_channels : ℕ
  pub clock_domain_crosser : ClockDomainCrosser
  pub clock_cycle : ℕ

-- `findChannelNumber`; the remainder by 0 is undefined.
unfoldable pub find_channel_number : (number_channels requestor_id : ℕ) → Outcome ℕ
find_channel_number n requestor_id =
    if n == 1
    then ok 0
    else (if n == 0
        then undefined_behaviour
        else (let channel_number = requestor_id % n in
            if ltb channel_number n then ok channel_number else aborted))

module _ {D R : Type 0} (parts : Parts D R) where
  -- `addRequest`
  unfoldable pub add :
      MultiChannel D R → (requestor_id address : ℕ) → Bool → (size : ℕ) → Outcome (MultiChannel D R)
  add ms requestor_id address r_w size = do
    i ← find_channel_number ms.number_channels requestor_id
    ch ← defined (get_elem? ms.channels i)
    ch' ← add_to_channel parts ch requestor_id address r_w size
    ok (record ms { channels = set ms.channels i ch' })

  -- The loop of `actual_update`.
  unfoldable pub update_channels : List (Channel D R) → Outcome (List (Channel D R))
  update_channels [] = ok []
  update_channels (ch ∷ chs) = do
    ch' ← update_channel parts ch
    rest ← update_channels chs
    ok (ch' ∷ rest)

  -- `actual_update`
  unfoldable pub actual_update : MultiChannel D R → Outcome (MultiChannel D R)
  actual_update ms = do
    chs ← update_channels ms.channels
    ok (record ms { channels = chs; clock_cycle = u64 (ms.clock_cycle + 1) })

  -- The calls of the crosser.
  unfoldable pub times : ℕ → MultiChannel D R → Outcome (MultiChannel D R)
  times zero ms = ok ms
  times (suc n) ms = do ms' ← actual_update ms; times n ms'

  -- `update`; none where the crosser's loop does not end.
  unfoldable pub update : MultiChannel D R → Option (Outcome (MultiChannel D R))
  update ms = crossed (ClockDomain.update ms.clock_domain_crosser)
    where
      crossed : Option (ClockDomainCrosser × ℕ) → Option (Outcome (MultiChannel D R))
      crossed none = none
      crossed (some (x, n)) = some (times n (record ms { clock_domain_crosser = x }))
