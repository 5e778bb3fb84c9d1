-- ===== src/CommandScheduler/ReadyFifo.antt =====
-- system/DCmc/CommandScheduler_DCmc.h: the policy that puts the commands that are ready into a queue of their own,
-- in the order in which they got ready, and sends from it; a CAS command does not pass one that waits.
-- The looking at a queue's front is that of CasFirst, which has the same code.
pub mod Order
pub mod Pairing
pub mod Fresh
pub mod Collect
pub mod Schedule
use mcsim.Common.{
  ℕ, zero, suc, ◌+◌, Bool, true, false, ◌&&◌, ◌||◌, Option, none, some, List, [], ◌∷◌, ◌++◌, Map,
  length, get_elem?, set, if◌then◌else◌, Outcome, ok, aborted, undefined_behaviour, ◌>>=◌, defined,
  or_abort,
}
use mcsim.Packet.{BusPacket}
use mcsim.CommandQueue.{CommandQueue}
use mcsim.CommandScheduler.{CommandScheduler, Device, is_ready, is_issuable, send_command}
use mcsim.CommandScheduler.CasFirst.{look, is_cas_command}

-- A ready command with the index of its queue.
abbrev pub Entry : Type 0
Entry = BusPacket × ℕ

pub record ReadyFifo (D : Type 0) : Type 0 where
  pub scheduler : CommandScheduler D
  -- `cmdFIFO` and `srtFIFO`
  pub cmd_fifo : List Entry
  pub srt_fifo : List Entry
  pub queue_pending : List Bool

abbrev none_pending : List CommandQueue → List Bool
none_pending [] = []
none_pending (q ∷ qs) = false ∷ none_pending qs

-- The constructor.
unfoldable pub new : {D : Type 0} → CommandScheduler D → ReadyFifo D
new s = record {
  scheduler = s;
  cmd_fifo = [];
  srt_fifo = [];
  queue_pending = none_pending s.command_queue;
}

-- A ready command goes to the queue of its requestor's kind; `at` throws for an unknown requestor.
unfoldable pub push_ready :
    {D : Type 0} → Map Bool → ReadyFifo D → BusPacket → ℕ → Outcome (ReadyFifo D)
push_ready critical f c index = do
  kind ← or_abort (critical c.requestor_id)
  let f' = record f { queue_pending = set f.queue_pending index true }
  ok (
      if kind
      then record f' { cmd_fifo = f.cmd_fifo ++ (c, index) ∷ [] }
      else record f' { srt_fifo = f.srt_fifo ++ (c, index) ∷ [] })

unfoldable pub push_if_ready :
    {D : Type 0} → Map Bool → ReadyFifo D → Option BusPacket → ℕ → Outcome (ReadyFifo D)
unfolding push_ready
push_if_ready critical f none index = ok f
push_if_ready critical f (some c) index = do
  ready ← is_ready f.scheduler c index
  if ready then push_ready critical f c index else ok f

-- A queue that has no command in the queues of ready commands.
unfoldable pub look_at : {D : Type 0} → Map Bool → ReadyFifo D → ℕ → Outcome (ReadyFifo D)
unfolding push_if_ready
look_at critical f index = do
  q ← defined (get_elem? f.scheduler.command_queue index)
  seen ← look q
  push_if_ready critical
      (record f {
        scheduler = record (f.scheduler) {
          command_queue = set f.scheduler.command_queue index seen.1;
        };
      })
      seen.0 index

-- The loop over the queues from `index` on, with `n` rounds left.
unfoldable pub collect : {D : Type 0} → Map Bool → ℕ → ReadyFifo D → ℕ → Outcome (ReadyFifo D)
unfolding look_at
collect critical zero f index = ok f
collect critical (suc n) f index = do
  pending ← defined (get_elem? f.queue_pending index)
  f' ← if pending then ok f else look_at critical f index
  collect critical n f' (index + 1)

abbrev pub skip : Entry → Option (Entry × List Entry) → Option (Entry × List Entry)
skip e none = none
skip e (some (found, rest)) = some (found, e ∷ rest)

module _ {D : Type 0} (device : Device D) where
  -- The loop over `cmdFIFO`: the entry that is sent and the entries that are left; `blocked` is `casBlocking`.
  unfoldable pub find : CommandScheduler D → Bool → List Entry → Option (Entry × List Entry)
  find s blocked [] = none
  find s blocked ((c, index) ∷ rest) =
      let passed = skip (c, index) (find s blocked rest) in
      let failed = skip (c, index) (find s (blocked || is_cas_command c) rest) in
      if is_cas_command c && blocked
      then passed
      else if is_issuable device s c
      then some ((c, index), rest)
      else failed

  -- The loop over `srtFIFO`, in which nothing sets `casBlocking`.
  unfoldable pub find_srt : CommandScheduler D → List Entry → Option (Entry × List Entry)
  find_srt s [] = none
  find_srt s ((c, index) ∷ rest) =
      let failed = skip (c, index) (find_srt s rest) in
      if is_issuable device s c then some ((c, index), rest) else failed

  unfoldable pub issue : ReadyFifo D → Entry → Outcome (Option BusPacket × ReadyFifo D)
  issue f (c, index) = do
    s ← send_command device f.scheduler c index false
    ok (some c, record f { scheduler = s; queue_pending = set f.queue_pending index false })

  abbrev pub issue_cmd :
      ReadyFifo D → Option (Entry × List Entry) → Outcome (Option BusPacket × ReadyFifo D)
  issue_cmd f none = ok (none, f)
  issue_cmd f (some (entry, rest)) = issue (record f { cmd_fifo = rest }) entry

  abbrev pub issue_srt :
      ReadyFifo D → Option (Entry × List Entry) → Outcome (Option BusPacket × ReadyFifo D)
  issue_srt f none = ok (none, f)
  issue_srt f (some (entry, rest)) = issue (record f { srt_fifo = rest }) entry

  -- The entries of `srtFIFO` are looked at only where `cmdFIFO` is empty.
  unfoldable pub send_ready : ReadyFifo D → List Entry → Outcome (Option BusPacket × ReadyFifo D)
  unfolding find find_srt issue
  send_ready f [] = issue_srt f (find_srt f.scheduler f.srt_fifo)
  send_ready f (e ∷ es) = issue_cmd f (find f.scheduler false (e ∷ es))

  -- `commandSchedule`
  unfoldable pub ready_schedule : Map Bool → ReadyFifo D → Outcome (Option BusPacket × ReadyFifo D)
  unfolding collect send_ready
  ready_schedule critical f = do
    f' ← collect critical (length f.scheduler.command_queue) f 0
    send_ready f' f'.cmd_fifo
