-- ===== src/RefreshMachine.antt =====
-- src/RefreshMachine.h: when the banks are refreshed, with which commands, and which banks are
-- blocked meanwhile. The mechanism is a string constant of the constructor, here an argument; the
-- fields that the constructor leaves unset are arguments too.
pub mod Rounds
use mcsim.Common.{
  ℕ, zero, suc, ◌+◌, ◌/◌, Bool, true, false, not, ◌&&◌, Option, none, some, List, [], ◌∷◌, ◌++◌,
  Map, insert, find_or, empty_map, ltb, u32, sub_u32, if◌then◌else◌, Outcome, ok,
  undefined_behaviour, aborted, ◌>>=◌, ◌>>◌, defined, ◌==◌, length,
}
use mcsim.Packet.{BusPacketType, act, pre, prea, ref, refpb, type_index, BusPacket, new_packet}
use mcsim.CommandQueue.{CommandQueue, get_size, get_command, front}

pub data Mechanism : Type 0 where
  no_refresh distributed per_bank : Mechanism

pub record RefreshMachine : Type 0 where
  pub command_buffer : List BusPacket
  pub is_refreshing_bank : Map Bool
  pub ranks : ℕ
  pub banks : ℕ
  pub t_refi : ℕ
  pub t_rfcpb : ℕ
  pub t_rfc : ℕ
  pub t_rcd : ℕ
  pub refresh_mechanism : Mechanism
  pub is_refreshing : Bool
  pub is_interval : Bool
  pub round_robin : ℕ
  pub targetbank : Bool
  pub flag : Bool
  pub bank_release : ℕ
  pub interval_pb : ℕ
  pub globe_refresh_countdown : ℕ
  pub refresh_counting : ℕ

unfoldable pub new :
    (ranks banks t_refi t_rfcpb t_rfc t_rcd : ℕ)
    → Mechanism
    → (bank_release refresh_counting : ℕ) → RefreshMachine
new ranks banks t_refi t_rfcpb t_rfc t_rcd mechanism bank_release refresh_counting = record {
  command_buffer = [];
  is_refreshing_bank = empty_map;
  ranks = ranks;
  banks = banks;
  t_refi = t_refi;
  t_rfcpb = t_rfcpb;
  t_rfc = t_rfc;
  t_rcd = t_rcd;
  refresh_mechanism = mechanism;
  is_refreshing = false;
  is_interval = false;
  round_robin = 0;
  targetbank = false;
  flag = false;
  bank_release = bank_release;
  interval_pb = u32 (t_refi / 8);
  globe_refresh_countdown = u32 (t_refi / 8);
  refresh_counting = refresh_counting;
}

-- `isRefreshingBank[bank]`: a missing entry reads as false.
unfoldable pub busy_bank : RefreshMachine → ℕ → Bool
busy_bank m bank = find_or m.is_refreshing_bank bank false

-- A loop that writes one value for the banks from `bank` on, `n` of them.
mark_banks : Bool → Map Bool → ℕ → ℕ → Map Bool
mark_banks b busy bank zero = busy
mark_banks b busy bank (suc n) = mark_banks b (insert busy bank b) (bank + 1) n

release_banks : RefreshMachine → Mechanism → Map Bool
unfolding mark_banks
release_banks m no_refresh = m.is_refreshing_bank
release_banks m per_bank = insert m.is_refreshing_bank m.bank_release false
release_banks m distributed = mark_banks false m.is_refreshing_bank 0 m.banks

or_else : Option BusPacket → Option BusPacket → Option BusPacket
or_else none o = o
or_else (some c) o = some c

-- `refresh`: the command that it offers, if any, and the machine.
unfoldable pub refresh : RefreshMachine → Option BusPacket × RefreshMachine
unfolding release_banks or_else
refresh m =
    let offered = if m.flag then none else front m.command_buffer in
    if m.refresh_counting == 0 && m.flag
    then (
      or_else (front m.command_buffer) offered,
      record m {
        flag = false;
        is_interval = false;
        is_refreshing = false;
        is_refreshing_bank = release_banks m m.refresh_mechanism;
      },
    )
    else (offered, m)

start_count : RefreshMachine → BusPacketType → BusPacket → RefreshMachine
start_count m refpb c = record m {
  bank_release = c.bank;
  refresh_counting = u32 m.t_rfcpb;
  flag = true;
}
start_count m ref c = record m {
  bank_release = c.bank;
  refresh_counting = u32 m.t_rfc;
  flag = true;
}
start_count m _ c = m

abbrev is_act : BusPacketType → Bool
is_act act = true
is_act _ = false

pop_from : RefreshMachine → List BusPacket → Outcome RefreshMachine
unfolding start_count
pop_from m [] = undefined_behaviour
pop_from m (c ∷ cs) = do
  let m' = start_count m c.bus_packet_type c
  next ← defined (front cs)
  ok (record m' {
    command_buffer = cs;
    refresh_counting =
        if is_act next.bus_packet_type
        then u32 (m'.refresh_counting + m.t_rcd)
        else m'.refresh_counting;
  })

-- `popCommand`. After the erase it reads the new front, also when that was the last command.
unfoldable pub pop_command : RefreshMachine → Outcome RefreshMachine
unfolding pop_from
pop_command m = pop_from m m.command_buffer

-- The first loop of `commandGenerate`, over the ranks from `rank` on.
distribute : RefreshMachine → ℕ → ℕ → RefreshMachine
unfolding mark_banks
distribute m rank zero = m
distribute m rank (suc n) =
    distribute
      (record m {
        command_buffer =
            m.command_buffer
            ++ new_packet prea 0 0 0 0 0 rank 0 0 ∷ new_packet ref 0 0 0 0 0 rank 0 0 ∷ [];
        is_refreshing_bank = mark_banks true m.is_refreshing_bank 0 m.banks;
      })
      (rank + 1) n

abbrev reopen : BusPacket → BusPacket
reopen c = new_packet act 0 0 0 c.row c.bank c.rank 0 0

-- What the second loop does for the command at the head of one queue.
unfoldable pub compensate : RefreshMachine → Mechanism → BusPacket → RefreshMachine
compensate m no_refresh c = m
compensate m distributed c =
    if ltb (type_index c.bus_packet_type) 6
    then record m { command_buffer = m.command_buffer ++ reopen c ∷ [] }
    else m
compensate m per_bank c =
    if ltb (type_index c.bus_packet_type) 6 && c.bank == m.round_robin
    then record m {
      command_buffer =
          m.command_buffer
          ++ new_packet pre 0 0 0 0 m.round_robin 0 0 0
            ∷ new_packet refpb 0 0 0 0 m.round_robin 0 0 0
            ∷ reopen c
            ∷ [];
      targetbank = true;
      is_refreshing_bank = insert m.is_refreshing_bank m.round_robin true;
    }
    else m

unfoldable pub compensate_queue :
    RefreshMachine → CommandQueue → Outcome (RefreshMachine × CommandQueue)
unfolding compensate
compensate_queue m q =
    if ltb 0 (get_size q true)
    then (do got ← get_command q true; ok (compensate m m.refresh_mechanism got.0, got.1))
    else ok (m, q)

unfoldable pub compensate_all :
    RefreshMachine → List CommandQueue → Outcome (RefreshMachine × List CommandQueue)
unfolding compensate_queue
compensate_all m [] = ok (m, [])
compensate_all m (q ∷ qs) = do
  one ← compensate_queue m q
  rest ← compensate_all one.0 qs
  ok (rest.0, one.1 ∷ rest.1)

unfoldable pub next_bank : RefreshMachine → RefreshMachine
next_bank m = record m { round_robin = if m.round_robin + 1 == 8 then 0 else m.round_robin + 1 }

unfoldable pub finish_round : RefreshMachine → Mechanism → RefreshMachine
unfolding next_bank
finish_round m per_bank =
    if m.targetbank
    then next_bank m
    else next_bank (record m {
      command_buffer = m.command_buffer ++ new_packet refpb 0 0 0 0 m.round_robin 0 0 0 ∷ [];
      is_refreshing_bank = insert m.is_refreshing_bank m.round_robin true;
    })
finish_round m _ = m

unfoldable pub begin_round : RefreshMachine → Mechanism → RefreshMachine
unfolding distribute
begin_round m distributed = distribute m 0 m.ranks
begin_round m _ = m

-- `commandGenerate`; reading the heads of the queues marks their critical buffer as the last one read.
unfoldable pub command_generate :
    RefreshMachine → List CommandQueue → Outcome (RefreshMachine × List CommandQueue)
unfolding begin_round compensate_all finish_round
command_generate m qs = do
  done ← compensate_all (begin_round (record m { targetbank = false }) m.refresh_mechanism) qs
  ok (finish_round done.0 m.refresh_mechanism, done.1)

count_down : RefreshMachine → Mechanism → RefreshMachine
count_down m no_refresh = m
count_down m _ = record m { globe_refresh_countdown = sub_u32 m.globe_refresh_countdown 1 }

abbrev restart : RefreshMachine → Mechanism → ℕ
restart m per_bank = m.interval_pb
restart m distributed = u32 m.t_refi
restart m no_refresh = m.globe_refresh_countdown

tick_count : RefreshMachine → RefreshMachine
tick_count m =
    if m.refresh_counting == 0
    then m
    else record m { refresh_counting = sub_u32 m.refresh_counting 1 }

start_interval : RefreshMachine → List CommandQueue → Outcome (RefreshMachine × List CommandQueue)
start_interval m qs =
    if m.globe_refresh_countdown == 0
    then command_generate
        (record m {
          is_refreshing = true;
          is_interval = true;
          globe_refresh_countdown = restart m m.refresh_mechanism;
        })
        qs
    else ok (m, qs)

-- `step`
unfoldable pub step :
    RefreshMachine → List CommandQueue → Outcome (RefreshMachine × List CommandQueue)
unfolding count_down start_interval tick_count
step m qs = do
  started ← start_interval (count_down m m.refresh_mechanism) qs
  ok (tick_count started.0, started.1)
