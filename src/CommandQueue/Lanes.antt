-- ===== src/CommandQueue/Lanes.antt =====
-- The lanes of a queue of src/CommandQueue.cpp, a requestor's buffer or a general one, and the calls
-- that the schedulers make: what each hands out, and what each brings in.
use mcsim.Common.{
  ℕ, ◌≡◌, Bool, true, false, List, [], ◌∷◌, ◌++◌, if◌then◌else◌, Outcome, ok, ◌>>=◌, arith, ◌==◌,
  append-nil, find_or-insert,
}
use mcsim.Packet.{BusPacket}
use mcsim.CommandQueue.{
  CommandQueue, buffer_of, insert_command, insert_requestor, get_command, get_requestor_command,
  remove_requestor_command, remove_command,
}

pub data Lane : Type 0 where
  requestor : ℕ → Lane
  hrt srt : Lane

abbrev pub contents : CommandQueue → Lane → List BusPacket
contents q (requestor id) = buffer_of q id
contents q hrt = q.hrt_buffer
contents q srt = q.srt_buffer

-- Where `insertCommand` puts a command.
abbrev pub lane_of : Bool → BusPacket → Bool → Lane
lane_of per_requestor c critical =
    if per_requestor then requestor c.requestor_id else if critical then hrt else srt

abbrev pub lane_eq : Lane → Lane → Bool
lane_eq (requestor i) (requestor j) = i == j
lane_eq hrt hrt = true
lane_eq srt srt = true
lane_eq _ _ = false

-- The calls: an insertion; `getRequestorCommand(num)` and `getCommand(critical)`, each followed by
-- the removal that `sendCommand` makes.
pub data Call : Type 0 where
  arrive : BusPacket → Bool → Call
  serve_requestor : ℕ → Call
  serve_general : Bool → Call

-- The commands that a call hands out, with their lanes.
abbrev pub Served : Type 0
Served = List (Lane × BusPacket)

unfoldable pub serve_requestor_step : CommandQueue → ℕ → Outcome (CommandQueue × Served)
serve_requestor_step q num = do
  c ← get_requestor_command q num
  q' ← remove_requestor_command q c.requestor_id
  ok (q', (requestor c.requestor_id, c) ∷ [])

unfoldable pub serve_general_step : CommandQueue → Bool → Outcome (CommandQueue × Served)
serve_general_step q critical = do
  got ← get_command q critical
  q' ← remove_command got.1
  ok (q', (if critical then hrt else srt, got.0) ∷ [])

unfoldable pub step : CommandQueue → Call → Outcome (CommandQueue × Served)
unfolding serve_requestor_step serve_general_step
step q (arrive c critical) = ok (insert_command q c critical, [])
step q (serve_requestor num) = serve_requestor_step q num
step q (serve_general critical) = serve_general_step q critical

unfoldable pub run : CommandQueue → List Call → Outcome (CommandQueue × Served)
unfolding step
run q [] = ok (q, [])
run q (call ∷ calls) = do
  first ← step q call
  rest ← run first.0 calls
  ok (rest.0, first.1 ++ rest.1)

-- The commands of one lane, in order.
abbrev pub departures : Lane → Served → List BusPacket
departures l [] = []
departures l ((k, c) ∷ out) = let rest = departures l out in if lane_eq l k then c ∷ rest else rest

abbrev pub arrivals_of : Bool → Lane → Call → List BusPacket
arrivals_of b l (arrive c critical) = if lane_eq l (lane_of b c critical) then c ∷ [] else []
arrivals_of b l (serve_requestor num) = []
arrivals_of b l (serve_general critical) = []

abbrev pub arrivals : Bool → Lane → List Call → List BusPacket
arrivals b l [] = []
arrivals b l (call ∷ calls) = arrivals_of b l call ++ arrivals b l calls

buffer_of-insert_requestor :
    (q : CommandQueue) (c : BusPacket) (id : ℕ)
    → buffer_of (insert_requestor q c) id
      ≡ (if id == c.requestor_id then buffer_of q id ++ c ∷ [] else buffer_of q id)
unfolding insert_requestor
buffer_of-insert_requestor q c id = ground (
  arith,
  find_or-insert q.requestor_buffer c.requestor_id (c ∷ []) id [],
  find_or-insert q.requestor_buffer c.requestor_id (buffer_of q c.requestor_id ++ c ∷ []) id [],
)

-- An insertion appends to one lane and leaves the others alone.
pub contents-insert_command :
    (q : CommandQueue) (c : BusPacket) (critical : Bool) (l : Lane)
    → contents (insert_command q c critical) l
      ≡ contents q l ++ arrivals_of q.per_requestor_enable l (arrive c critical)
unfolding insert_command
contents-insert_command q c critical (requestor id) =
    ground (arith, buffer_of-insert_requestor q c id, append-nil (buffer_of q id))
contents-insert_command q c critical hrt = ground (arith, append-nil q.hrt_buffer)
contents-insert_command q c critical srt = ground (arith, append-nil q.srt_buffer)

pub insert_command-kind :
    (q : CommandQueue) (c : BusPacket) (critical : Bool)
    → (insert_command q c critical).per_requestor_enable ≡ q.per_requestor_enable
unfolding insert_command
insert_command-kind q c critical = ground arith
