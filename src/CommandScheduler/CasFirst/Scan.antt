-- ===== src/CommandScheduler/CasFirst/Scan.antt =====
-- What the loop of system/RTMem/CommandScheduler_RTMem.h finds.
use mcsim.Common.{
  append-nil, get_elem?-in_range, ℕ, zero, suc, ◌+◌, ◌≡◌, ◌<◌, refl, sym, ap, ◌∙◌, Bool, true,
  false, Option, none, some, List, [], ◌∷◌, ◌++◌, append_assoc, map, length, get_elem?, set,
  if◌then◌else◌, Outcome, ok, ◌>>=◌, defined, arith, All, length-append, ltb-suc,
}
use mcsim.Packet.{BusPacket, type_index}
use mcsim.CommandQueue.{CommandQueue, get_size, get_command, front}
use mcsim.CommandScheduler.{CommandScheduler, Device, is_ready, elapsed}
use mcsim.CommandScheduler.CasFirst.{Temps, look, note, note_ready, scan}

abbrev or_low : Option BusPacket → Option BusPacket → Option BusPacket
or_low none other = other
or_low (some c) other = some c

-- The command that the policy looks at in a queue.
abbrev pub looked_at : CommandQueue → Option BusPacket
looked_at q = or_low (front q.hrt_buffer) (front q.srt_buffer)

abbrev mark_low : CommandQueue → List BusPacket → CommandQueue
mark_low q [] = q
mark_low q (c ∷ cs) = record q { scheduled_queue = false }

abbrev mark_high : CommandQueue → List BusPacket → CommandQueue
mark_high q [] = mark_low q q.srt_buffer
mark_high q (c ∷ cs) = record q { scheduled_queue = true }

-- The queue with the buffer remembered that the command was seen in.
abbrev pub marked : CommandQueue → CommandQueue
marked q = mark_high q q.hrt_buffer

abbrev pub holding : CommandQueue → List BusPacket → List BusPacket → CommandQueue
holding q high low = record q { hrt_buffer = high; srt_buffer = low }

look-holding :
    (q : CommandQueue) (high low : List BusPacket)
    → look (holding q high low) ≡ ok (looked_at (holding q high low), marked (holding q high low))
unfolding look get_size get_command
look-holding q [] [] = refl
look-holding q [] (c ∷ cs) = rw (ltb-suc (length cs)) refl
look-holding q (c ∷ cs) low = rw (ltb-suc (length cs)) refl

pub look_lem : (q : CommandQueue) → look q ≡ ok (looked_at q, marked q)
look_lem q = look-holding q q.hrt_buffer q.srt_buffer

get_elem?-marked :
    (done todo : List CommandQueue) (q : CommandQueue)
    → get_elem? (map marked done ++ q ∷ todo) (length done) ≡ some q
get_elem?-marked [] todo q = refl
get_elem?-marked (p ∷ done) todo q = get_elem?-marked done todo q

set-marked :
    (done todo : List CommandQueue) (q v : CommandQueue)
    → set (map marked done ++ q ∷ todo) (length done) v ≡ map marked done ++ v ∷ todo
set-marked [] todo q v = refl
set-marked (p ∷ done) todo q v = ap (λ l. marked p ∷ l) (set-marked done todo q v)

map-marked_snoc :
    (done todo : List CommandQueue) (q : CommandQueue)
    → map marked done ++ marked q ∷ todo ≡ map marked (done ++ q ∷ []) ++ todo
map-marked_snoc [] todo q = refl
map-marked_snoc (p ∷ done) todo q = ap (λ l. marked p ∷ l) (map-marked_snoc done todo q)

per_holding :
    (q : CommandQueue) (high low : List BusPacket)
    → (marked (holding q high low)).per_requestor_enable ≡ q.per_requestor_enable
per_holding q [] [] = refl
per_holding q [] (c ∷ cs) = refl
per_holding q (c ∷ cs) low = refl

pub per_marked : (q : CommandQueue) → (marked q).per_requestor_enable ≡ q.per_requestor_enable
per_marked q = per_holding q q.hrt_buffer q.srt_buffer

-- What a check reads of the queue at an index does not depend on the marks.
read_marked :
    (f : Bool → Bool) (done todo : List CommandQueue) (i : ℕ)
    → (defined (get_elem? (map marked done ++ todo) i) >>= λ q. ok (f q.per_requestor_enable))
      ≡ (defined (get_elem? (done ++ todo) i) >>= λ q. ok (f q.per_requestor_enable))
read_marked f [] todo i = refl
read_marked f (q ∷ done) todo zero = ap (λ b. ok (f b)) (per_marked q)
read_marked f (q ∷ done) todo (suc i) = read_marked f done todo i

unfoldable pub note_front : (BusPacket → Bool) → Option BusPacket → Temps → Temps
note_front can none temps = temps
note_front can (some c) temps = if can c then note c temps else temps

-- What the loop has noted after these queues, of the commands that are ready.
unfoldable pub notes : (BusPacket → Bool) → List CommandQueue → Temps → Temps
unfolding note_front
notes can [] temps = temps
notes can (q ∷ qs) temps = notes can qs (note_front can (looked_at q) temps)

abbrev answer : Outcome Bool → Bool
answer (ok b) = b
answer _ = false

module _ {D : Type 0} where
  abbrev pub with_queues : CommandScheduler D → List CommandQueue → CommandScheduler D
  with_queues s queues = record s { command_queue = queues }

  is_ready-marked :
      (s : CommandScheduler D) (done todo : List CommandQueue) (c : BusPacket) (i : ℕ)
      → is_ready (with_queues s (map marked done ++ todo)) c i
        ≡ is_ready (with_queues s (done ++ todo)) c i
  unfolding is_ready
  is_ready-marked s done todo c i =
      read_marked
        (λ per. elapsed (
          (if per then s.req_cmd_queue_timer i c.requestor_id else s.cmd_queue_timer i)
            (type_index c.bus_packet_type)))
        done todo i

  -- Whether a command is ready when the policy is called.
  unfoldable pub can_go : CommandScheduler D → BusPacket → Bool
  can_go s c = answer (is_ready s c c.bank)

  -- The command at the front is for a bank that has a queue.
  abbrev pub InBanks : CommandScheduler D → CommandQueue → Type 0
  InBanks s q = (c : BusPacket) → looked_at q ≡ some c → c.bank < length s.command_queue

  can_go-is_ready :
      (s : CommandScheduler D) (c : BusPacket)
      → c.bank < length s.command_queue
      → is_ready s c c.bank ≡ ok (can_go s c)
  unfolding can_go is_ready
  can_go-is_ready s c h = let (q, e) = get_elem?-in_range s.command_queue c.bank h in rw e refl

length_snoc :
    (done : List CommandQueue) (q : CommandQueue) → length done + 1 ≡ length (done ++ q ∷ [])
length_snoc done q = omega (arith, length-append done (q ∷ []))

module _ {D : Type 0} (device : Device D) (s : CommandScheduler D) where
  note_ready_lem :
      (done todo : List CommandQueue) (o : Option BusPacket) (temps : Temps)
      → s.command_queue ≡ done ++ todo
      → ((c : BusPacket) → o ≡ some c → c.bank < length s.command_queue)
      → note_ready device (with_queues s (map marked done ++ todo)) o temps
        ≡ ok (note_front (can_go s) o temps, with_queues s (map marked done ++ todo))
  unfolding note_ready note_front
  note_ready_lem done todo none temps e h = refl
  note_ready_lem done todo (some c) temps e h =
      rw
        (is_ready-marked s done todo c c.bank
          ∙ ap (λ l. is_ready (with_queues s l) c c.bank) (sym e)
          ∙ can_go-is_ready s c (h c refl))
        refl

  -- The loop notes what is ready, queue by queue, and leaves only marks.
  pub scan_lem :
      (done todo : List CommandQueue) (temps : Temps)
      → s.command_queue ≡ done ++ todo
      → All (InBanks s) todo
      → scan device (length todo) (with_queues s (map marked done ++ todo)) (length done) temps
        ≡ ok (notes (can_go s) todo temps, with_queues s (map marked (done ++ todo)))
  unfolding scan notes
  scan_lem done [] temps e h =
      ap (λ l. ok (temps, with_queues s l))
        (append-nil (map marked done) ∙ ap (map marked) (sym (append-nil done)))
  scan_lem done (q ∷ todo) temps e h =
      let here : s.command_queue ≡ (done ++ q ∷ []) ++ todo =
        e ∙ sym (append_assoc done (q ∷ []) todo) in
      rw (get_elem?-marked done todo q, look_lem q, set-marked done todo q (marked q))
        (rw (map-marked_snoc done todo q) (
          rw (note_ready_lem (done ++ q ∷ []) todo (looked_at q) temps here h.0) (
            rw (length_snoc done q) (
              scan_lem (done ++ q ∷ []) todo (note_front (can_go s) (looked_at q) temps) here h.1
              ∙ ap
                  (λ l. ok (
                    notes (can_go s) todo (note_front (can_go s) (looked_at q) temps),
                    with_queues s (map marked l),
                  ))
                  (append_assoc done (q ∷ []) todo)))))
