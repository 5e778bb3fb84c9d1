-- ===== src/RequestScheduler/OpenPage/Schedule.antt =====
-- `RequestScheduler_FRFCFS::requestSchedule` with the open-page generator: every request queue gives
-- one request, and all the commands together are legal for the banks.
use mcsim.Common.{
  ◌≡◌, refl, sym, ap, ◌∙◌, subst, true, false, some, List, [], ◌∷◌, ◌++◌, append_assoc, append-nil,
  ok, arith, ltb, length, All, inl, inr, Bool-cases, ltb→lt, insert,
}
use mcsim.Packet.{BusPacket, Request}
use mcsim.RequestQueue.{RequestQueue}
use mcsim.RequestQueue.Removal.{scheduled, remove_request_found}
use mcsim.CommandGenerator.{CommandGenerator, open_generate}
use mcsim.RequestScheduler.{BankTable, serve, schedule_queue, frfcfs_schedule, update_row_table}
use mcsim.RequestScheduler.Selection.{Selected, schedule_fr-Selected, is_row_hit-hits, IsConsistent}
use mcsim.RequestScheduler.OpenPage.{Banks, exec, and_then, IsPlaced, Tracks}
use mcsim.RequestScheduler.OpenPage.Generate.{
  Generated, open_generate-Generated, hits-is_row, exec-append,
}

abbrev pub AllPlaced : RequestQueue → Type 0
AllPlaced q = All IsPlaced q.general_buffer

-- How a queue, the row table, the generator and the banks are after the queue's turn, and the commands of the
-- turn: an empty queue changes nothing; from another one the selected request leaves, its row is entered as
-- open, and what is generated is what the generator makes of this request.
pub data Taken (t : BankTable) (m : Banks) (g : CommandGenerator) (q : RequestQueue)
    : RequestQueue → BankTable → CommandGenerator → Banks → List BusPacket → Type 0 where
  idle : q.general_buffer ≡ [] → Taken t m g q q t g m []
  one :
      (r : Request) (before : List Request) (s : Selected t q.general_buffer r before)
      (made : Generated t m g r)
      → Taken t m g q
          (record (scheduled q (length before)) { general_buffer = before ++ s.after })
          (update_row_table t 0 r.bank r.row)
          made.left
          (insert m r.bank r.row)
          made.commands

-- The turns of the queues, one after the other, and all their commands.
pub data Turns
    : BankTable
      → Banks
      → CommandGenerator
      → List RequestQueue
      → List RequestQueue
      → BankTable
      → CommandGenerator
      → Banks
      → List BusPacket
      → Type 0 where
  over : (t : BankTable) (m : Banks) (g : CommandGenerator) → Turns t m g [] [] t g m []
  next :
      {t t1 t2 : BankTable} {m m1 m2 : Banks} {g g1 g2 : CommandGenerator} {q q1 : RequestQueue}
      {qs qs1 : List RequestQueue} {cs cs1 : List BusPacket}
      → Taken t m g q q1 t1 g1 m1 cs
      → Turns t1 m1 g1 qs qs1 t2 g2 m2 cs1
      → Turns t m g (q ∷ qs) (q1 ∷ qs1) t2 g2 m2 (cs ++ cs1)

-- What one queue's turn does.
record Turn (t : BankTable) (m : Banks) (g : CommandGenerator) (q : RequestQueue) : Type 0 where
  queue : RequestQueue
  table : BankTable
  generator : CommandGenerator
  banks : Banks
  commands : List BusPacket
  result : schedule_queue open_generate t g q ≡ ok (queue, table, generator)
  pushed : generator.command_buffer ≡ g.command_buffer ++ commands
  legal : exec m commands ≡ some banks
  tracks : Tracks table generator banks
  placed : AllPlaced queue
  taken : Taken t m g q queue table generator banks commands

All-split :
    (P : Request → Type 0) (xs : List Request) (r : Request) (ys : List Request)
    → All P (xs ++ r ∷ ys)
    → P r × All P (xs ++ ys)
All-split P [] r ys h = h
All-split P (x ∷ xs) r ys h = let (hr, rest) = All-split P xs r ys h.1 in (hr, (h.0, rest))

All-weaken :
    (P Q : Request → Type 0) (xs : List Request) → ((r : Request) → P r → Q r) → All P xs → All Q xs
All-weaken P Q [] f h = tt
All-weaken P Q (x ∷ xs) f h = (f x h.0, All-weaken P Q xs f h.1)

placed-IsConsistent : (r : Request) → IsPlaced r → IsConsistent r
placed-IsConsistent r p = p.in_rank ∙ sym p.mapped_rank

serve_placed :
    (t : BankTable) (m : Banks) (g : CommandGenerator) (q : RequestQueue) (r : Request)
    (before after : List Request)
    → Tracks t g m
    → IsPlaced r
    → q.general_buffer ≡ before ++ r ∷ after
    → (made : Generated t m g r)
    → serve open_generate t g (some r) (scheduled q (length before))
      ≡ ok (
        record (scheduled q (length before)) { general_buffer = before ++ after },
        update_row_table t 0 r.bank r.row,
        made.left,
      )
unfolding serve
serve_placed t m g q r before after tr p e made =
    rw (is_row_hit-hits t r (placed-IsConsistent r p), hits-is_row t m r tr.rows p, made.result)
      (rw (remove_request_found q before r after e, p.mapped_rank, p.mapped_bank))

empty : (rs : List Request) → ltb 0 (length rs) ≡ false → rs ≡ []
empty [] e = refl
empty (r ∷ rs) e = absurd (ground arith)

idle-Turn :
    (t : BankTable) (m : Banks) (g : CommandGenerator) (q : RequestQueue)
    → Tracks t g m
    → AllPlaced q
    → ltb 0 (length q.general_buffer) ≡ false
    → Turn t m g q
unfolding schedule_queue
idle-Turn t m g q tr p e = record {
  queue = q;
  table = t;
  generator = g;
  banks = m;
  commands = [];
  result = rw e;
  pushed = sym (append-nil g.command_buffer);
  legal = refl;
  tracks = tr;
  placed = p;
  taken = idle (empty q.general_buffer e);
}

busy-Turn :
    (t : BankTable) (m : Banks) (g : CommandGenerator) (q : RequestQueue)
    → Tracks t g m
    → AllPlaced q
    → ltb 0 (length q.general_buffer) ≡ true
    → Turn t m g q
unfolding schedule_queue
busy-Turn t m g q tr p e =
    let (r, before, picked, s) =
      schedule_fr-Selected t q (ltb→lt _ _ e)
        (All-weaken IsPlaced IsConsistent q.general_buffer placed-IsConsistent p) in
    let (pr, others) = All-split IsPlaced before r s.after (subst (All IsPlaced) s.whole p) in
    let made = open_generate-Generated t m g r tr pr in
    record {
      queue = record (scheduled q (length before)) { general_buffer = before ++ s.after };
      table = update_row_table t 0 r.bank r.row;
      generator = made.left;
      banks = insert m r.bank r.row;
      commands = made.commands;
      result = rw e (rw picked (serve_placed t m g q r before s.after tr pr s.whole made));
      pushed = made.pushed;
      legal = made.legal;
      tracks = made.tracks;
      placed = others;
      taken = one r before s made;
    }

turn :
    (t : BankTable) (m : Banks) (g : CommandGenerator) (q : RequestQueue)
    → Tracks t g m
    → AllPlaced q
    → Turn t m g q
turn t m g q tr p = elim (Bool-cases (ltb 0 (length q.general_buffer))) [
  | inl e ↦ busy-Turn t m g q tr p e
  | inr e ↦ idle-Turn t m g q tr p e
]

-- What a call of `requestSchedule` does.
pub record Round (t : BankTable) (m : Banks) (g : CommandGenerator) (qs : List RequestQueue)
    : Type 0 where
  pub queues : List RequestQueue
  pub table : BankTable
  pub generator : CommandGenerator
  pub banks : Banks
  pub commands : List BusPacket
  pub result : frfcfs_schedule open_generate t g qs ≡ ok (queues, table, generator)
  pub pushed : generator.command_buffer ≡ g.command_buffer ++ commands
  pub legal : exec m commands ≡ some banks
  pub tracks : Tracks table generator banks
  pub placed : All AllPlaced queues
  pub turns : Turns t m g qs queues table generator banks commands

-- Let the row table and the generator's flags agree with the banks, and let each waiting request be
-- in rank 0 and in a bank that the generator tracks. Then the call is defined. The queues take their turns in
-- their order. An empty one is left as it is; from every other one exactly one request leaves, the first that hits
-- an open row or else the oldest, its row is entered in the table, and the commands made are those
-- that the generator makes of it. All the commands, in their order, are legal for the
-- banks; afterwards the row table and the flags agree with the banks and the requests that are left
-- are placed as required, so the next call is again as described.
pub frfcfs_schedule-Round :
    (t : BankTable) (m : Banks) (g : CommandGenerator) (qs : List RequestQueue)
    → Tracks t g m
    → All AllPlaced qs
    → Round t m g qs
unfolding frfcfs_schedule
frfcfs_schedule-Round t m g [] tr p = record {
  queues = [];
  table = t;
  generator = g;
  banks = m;
  commands = [];
  result = refl;
  pushed = sym (append-nil g.command_buffer);
  legal = refl;
  tracks = tr;
  placed = tt;
  turns = over t m g;
}
frfcfs_schedule-Round t m g (q ∷ qs) tr p =
    let head = turn t m g q tr p.0 in
    let rest = frfcfs_schedule-Round head.table head.banks head.generator qs head.tracks p.1 in
    record {
      queues = head.queue ∷ rest.queues;
      table = rest.table;
      generator = rest.generator;
      banks = rest.banks;
      commands = head.commands ++ rest.commands;
      result = rw (head.result, rest.result);
      pushed =
          rest.pushed
          ∙ ap (λ cs. cs ++ rest.commands) head.pushed
          ∙ append_assoc g.command_buffer head.commands rest.commands;
      legal =
          exec-append m head.commands rest.commands
          ∙ ap (λ s. and_then s (λ m'. exec m' rest.commands)) head.legal
          ∙ rest.legal;
      tracks = rest.tracks;
      placed = (head.placed, rest.placed);
      turns = next head.taken rest.turns;
    }
