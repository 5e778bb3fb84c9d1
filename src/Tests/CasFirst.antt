-- ===== src/Tests/CasFirst.antt =====
-- The command policies that send CAS commands first, and in the order in which they get ready.
use mcsim.Common.{
  Bool, Map, some, Map, ℕ, zero, suc, ◌≡◌, refl, sym, ap, ◌∙◌, true, false, none, some,
  some-injective, List, [], ◌∷◌, map, ok, get_elem?, empty_map, ◌⊎◌,
}
use mcsim.Packet.{BusPacket, new_packet, act, rda}
use mcsim.CommandQueue.{CommandQueue}
use mcsim.CommandScheduler.{CommandScheduler}
use mcsim.CommandScheduler.CasFirst.{cas_first_schedule}
use mcsim.CommandScheduler.CasFirst.Scan.{marked, looked_at, with_queues}
use mcsim.CommandScheduler.CasFirst.Choice.{Found, chosen}
use mcsim.CommandScheduler.CasFirst.Sent.{OwnBanks, Sent, cas_first_schedule-Sent}
use mcsim.CommandScheduler.ReadyFifo
use mcsim.CommandScheduler.ReadyFifo.{ReadyFifo}
use mcsim.Tests.Controller.{three_apart, one_queue}

abbrev bank_queue : List BusPacket → CommandQueue
bank_queue commands = record {
  per_requestor_enable = false;
  scheduled_queue = true;
  requestor_map = [];
  requestor_buffer = empty_map;
  hrt_buffer = [];
  srt_buffer = commands;
}

-- An activation of bank 0 that came first, and a read of bank 1.
abbrev activation : BusPacket
activation = new_packet act 0 64 0 7 0 0 0 2

abbrev read_command : BusPacket
read_command = new_packet rda 1 128 0 9 1 0 0 5

abbrev queues_of_two : CommandScheduler (Unit {0})
queues_of_two = record one_queue {
  command_queue = bank_queue (activation ∷ []) ∷ bank_queue (read_command ∷ []) ∷ [];
}

bank_of :
    (p q : CommandQueue) (d c : BusPacket)
    → looked_at p ≡ some d
    → some p ≡ some q
    → looked_at q ≡ some c
    → c.bank ≡ d.bank
bank_of p q d c g e f =
    let same : p ≡ q = some-injective _ _ e in
    let front : d ≡ c = some-injective _ _ (sym g ∙ ap looked_at same ∙ f) in
    ap (λ (x : BusPacket). x.bank) (sym front)

queues_of_two-OwnBanks : OwnBanks three_apart queues_of_two
queues_of_two-OwnBanks = record { general = general; own = own }
  where
    general :
        (k : ℕ) (q : CommandQueue)
        → get_elem? queues_of_two.command_queue k ≡ some q
        → q.per_requestor_enable ≡ false
    general zero q e =
        ap (λ (x : CommandQueue). x.per_requestor_enable) (sym (some-injective _ _ e))
    general (suc zero) q e =
        ap (λ (x : CommandQueue). x.per_requestor_enable) (sym (some-injective _ _ e))
    general (suc (suc k)) q e = cc

    own :
        (k : ℕ) (q : CommandQueue) (c : BusPacket)
        → get_elem? queues_of_two.command_queue k ≡ some q
        → looked_at q ≡ some c
        → c.bank ≡ k
    own zero q c e f = bank_of (bank_queue (activation ∷ [])) q activation c refl e f
    own (suc zero) q c e f = bank_of (bank_queue (read_command ∷ [])) q read_command c refl e f
    own (suc (suc k)) q c e f = cc

cas_first_schedule-Sent_example :
    (f : Found three_apart queues_of_two) × (((chosen three_apart queues_of_two f ≡ none)
        × (cas_first_schedule three_apart queues_of_two
            ≡ ok (none, with_queues queues_of_two (map marked queues_of_two.command_queue))))
      ⊎ ((c : BusPacket) × (chosen three_apart queues_of_two f ≡ some c)
          × Sent three_apart queues_of_two c))
cas_first_schedule-Sent_example =
    cas_first_schedule-Sent three_apart queues_of_two queues_of_two-OwnBanks

nothing_ready : ReadyFifo (Unit {0})
nothing_ready = ReadyFifo.new queues_of_two

abbrev all_critical : Map Bool
all_critical id = some true
