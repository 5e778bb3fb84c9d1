-- ===== src/RefreshMachine/Rounds.antt =====
-- One round of the bank-by-bank refresh of src/RefreshMachine.h.
use mcsim.Common.{
  or_abort, ℕ, ◌+◌, ◌<◌, ◌≡◌, refl, sym, ap, ◌∙◌, subst, Bool, true, false, List, [], ◌∷◌, ◌++◌,
  append_assoc, append-nil, Map, insert, find_or, ltb, if◌then◌else◌, if_rule, ok, ◌>>=◌, arith,
  ◌==◌, ==_iff, All, All-append, List-cases, Bool-cases, inl, inr, length, find_or-insert, lt→ltb,
  ltb→lt, ◌&&◌,
}
use mcsim.Packet.{refpb, BusPacket, new_packet, type_index}
use mcsim.CommandQueue.{CommandQueue, get_size, get_command, front}
use mcsim.RefreshMachine.{
  RefreshMachine, per_bank, command_generate, compensate, compensate_queue, compensate_all,
  finish_round, begin_round, next_bank, busy_bank,
}

-- All the commands are for one bank.
abbrev pub AllFor : ℕ → List BusPacket → Type 0
AllFor b = All (λ (c : BusPacket). c.bank ≡ b)

-- The number of refreshes.
abbrev pub refreshes : List BusPacket → ℕ
refreshes [] = 0
refreshes (c ∷ cs) = (if type_index c.bus_packet_type == 10 then 1 else 0) + refreshes cs

-- The machine in the middle of a round that started with `m`.
record InRound (m m' : RefreshMachine) : Type 0 where
  added : List BusPacket
  buffer : m'.command_buffer ≡ m.command_buffer ++ added
  for_bank : AllFor m.round_robin added
  same_bank : m'.round_robin ≡ m.round_robin
  same_mechanism : m'.refresh_mechanism ≡ m.refresh_mechanism
  target : m'.targetbank ≡ ltb 0 (refreshes added)
  blocked : m'.targetbank ≡ true → busy_bank m' m.round_robin ≡ true
  others : (b : ℕ) → (b == m.round_robin) ≡ false → busy_bank m' b ≡ busy_bank m b

refreshes-append : (xs ys : List BusPacket) → refreshes (xs ++ ys) ≡ refreshes xs + refreshes ys
refreshes-append [] ys = omega arith
refreshes-append (x ∷ xs) ys = omega (arith, refreshes-append xs ys)

marked_self : (t : Map Bool) (k : ℕ) → find_or (insert t k true) k false ≡ true
marked_self t k = ground (arith, find_or-insert t k true k false)

marked_other :
    (t : Map Bool) (k j : ℕ)
    → (j == k) ≡ false
    → find_or (insert t k true) j false ≡ find_or t j false
marked_other t k j h = ground (arith, find_or-insert t k true j false)

-- More commands for the bank, at least one of them a refresh, which block it.
module _ (m m' : RefreshMachine) (i : InRound m m') (cs : List BusPacket) where
  refreshed : RefreshMachine
  refreshed = record m' {
    command_buffer = m'.command_buffer ++ cs;
    targetbank = true;
    is_refreshing_bank = insert m'.is_refreshing_bank m'.round_robin true;
  }

  refreshed-InRound : AllFor m.round_robin cs → 0 < refreshes cs → InRound m refreshed
  unfolding refreshed busy_bank
  refreshed-InRound h n = record {
    added = i.added ++ cs;
    buffer = ap (λ b. b ++ cs) i.buffer ∙ append_assoc m.command_buffer i.added cs;
    for_bank = All-append (λ (c : BusPacket). c.bank ≡ m.round_robin) i.added cs i.for_bank h;
    same_bank = i.same_bank;
    same_mechanism = i.same_mechanism;
    target =
        sym (lt→ltb 0 (refreshes (i.added ++ cs)) (omega (arith, refreshes-append i.added cs)));
    blocked = λ _.
        subst (λ b. find_or (insert m'.is_refreshing_bank b true) m.round_robin false ≡ true)
          (sym i.same_bank) (marked_self m'.is_refreshing_bank m.round_robin);
    others = λ b h.
        subst
          (λ k.
            find_or (insert m'.is_refreshing_bank k true) b false
            ≡ find_or m'.is_refreshing_bank b false)
          (sym i.same_bank) (marked_other m'.is_refreshing_bank m.round_robin b h)
        ∙ i.others b h;
  }

compensate-InRound :
    (m m' : RefreshMachine) (c : BusPacket) → InRound m m' → InRound m (compensate m' per_bank c)
unfolding compensate refreshed
compensate-InRound m m' c i =
    if_rule (InRound m) (ltb (type_index c.bus_packet_type) 6 && c.bank == m'.round_robin)
      (λ h.
        refreshed-InRound m m' i _
          (i.same_bank, (i.same_bank, (and_eq _ c.bank m'.round_robin h ∙ i.same_bank, tt)))
          (omega arith))
      (λ _. i)
  where
    and_eq : (b : Bool) (x y : ℕ) → (b && x == y) ≡ true → x ≡ y
    and_eq true x y h = (==_iff x y).0 h
    and_eq false x y h = cc

-- The loop over the heads of the queues.
record Compensated (m m' : RefreshMachine) (qs : List CommandQueue) : Type 0 where
  next : RefreshMachine
  next_queues : List CommandQueue
  runs : compensate_all m' qs ≡ ok (next, next_queues)
  in_round : InRound m next

queue_empty :
    (m : RefreshMachine) (q : CommandQueue) → q.hrt_buffer ≡ [] → compensate_queue m q ≡ ok (m, q)
unfolding compensate_queue get_size
queue_empty m q e =
    if_rule (λ o. o ≡ ok (m, q)) (ltb 0 (length q.hrt_buffer))
      (λ h. absurd (omega (arith, ltb→lt 0 (length q.hrt_buffer) h, ap length e))) (λ _. refl)

has_head :
    (q : CommandQueue) (c : BusPacket) (rest : List BusPacket)
    → q.hrt_buffer ≡ c ∷ rest
    → get_command q true ≡ ok (c, record q { scheduled_queue = true })
unfolding get_command
has_head q c rest e =
    ap
      (λ (l : List BusPacket).
        or_abort (front l) >>= λ d. ok (d, record q { scheduled_queue = true }))
      e

counts :
    (q : CommandQueue) (c : BusPacket) (rest : List BusPacket)
    → q.hrt_buffer ≡ c ∷ rest
    → ltb 0 (get_size q true) ≡ true
unfolding get_size
counts q c rest e = lt→ltb 0 (length q.hrt_buffer) (omega (arith, ap length e))

queue_head :
    (m : RefreshMachine) (q : CommandQueue) (c : BusPacket) {q' : CommandQueue}
    → get_command q true ≡ ok (c, q')
    → ltb 0 (get_size q true) ≡ true
    → m.refresh_mechanism ≡ per_bank
    → compensate_queue m q ≡ ok (compensate m per_bank c, q')
unfolding compensate_queue
queue_head m q c {q'} e n p = rw n (rw e (ap (λ k. ok (compensate m k c, q')) p))

head_step :
    (m m' : RefreshMachine) (q : CommandQueue)
    → InRound m m'
    → m.refresh_mechanism ≡ per_bank
    → (next : RefreshMachine) × (q' : CommandQueue) × (compensate_queue m' q ≡ ok (next, q'))
      × InRound m next
head_step m m' q i p = elim (List-cases q.hrt_buffer) [
  | inl e ↦ (m', q, queue_empty m' q e, i)
  | inr (c, rest, e) ↦ (
    compensate m' per_bank c,
    record q { scheduled_queue = true },
    queue_head m' q c (has_head q c rest e) (counts q c rest e) (i.same_mechanism ∙ p),
    compensate-InRound m m' c i,
  )
]

compensate_all-InRound :
    (m : RefreshMachine)
    → m.refresh_mechanism ≡ per_bank
    → (qs : List CommandQueue) (m' : RefreshMachine) → InRound m m'
    → Compensated m m' qs
unfolding compensate_all
compensate_all-InRound m p [] m' i = record {
  next = m';
  next_queues = [];
  runs = refl;
  in_round = i;
}
compensate_all-InRound m p (q ∷ qs) m' i =
    let (one, q', e, j) = head_step m m' q i p in
    let rest = compensate_all-InRound m p qs one j in
    record {
      next = rest.next;
      next_queues = q' ∷ rest.next_queues;
      runs = rw e (rw rest.runs refl);
      in_round = rest.in_round;
    }

abbrev following : ℕ → ℕ
following b = if b + 1 == 8 then 0 else b + 1

-- What a round does: the commands that it adds, and the banks that it blocks.
pub record Round (m : RefreshMachine) (qs : List CommandQueue) : Type 0 where
  pub left : RefreshMachine
  pub queues : List CommandQueue
  pub commands : List BusPacket
  pub result : command_generate m qs ≡ ok (left, queues)
  pub pushed : left.command_buffer ≡ m.command_buffer ++ commands
  pub for_bank : AllFor m.round_robin commands
  pub refreshed : 0 < refreshes commands
  pub blocked : busy_bank left m.round_robin ≡ true
  pub others : (b : ℕ) → (b == m.round_robin) ≡ false → busy_bank left b ≡ busy_bank m b
  pub next : left.round_robin ≡ following m.round_robin

-- The end of the round, whether the loop has refreshed the bank or not.
finish :
    (m m' : RefreshMachine)
    → InRound m m'
    → (last : RefreshMachine) × InRound m last
      × (last.targetbank ≡ true)
      × (finish_round m' per_bank ≡ record (next_bank last) { targetbank = m'.targetbank })
unfolding finish_round next_bank refreshed
finish m m' i = elim (Bool-cases m'.targetbank) [
  | inl t ↦ (m', i, t, rw t refl)
  | inr n ↦ (
    refreshed m m' i (new_packet refpb 0 0 0 0 m'.round_robin 0 0 0 ∷ []),
    refreshed-InRound m m' i _ (i.same_bank, tt) (omega arith),
    refl,
    rw n refl,
  )
]

round_of :
    (m : RefreshMachine) (qs : List CommandQueue)
    → m.refresh_mechanism ≡ per_bank
    → command_generate m qs ≡ (
        compensate_all (record m { targetbank = false }) qs >>= λ done.
        ok (finish_round done.0 per_bank, done.1))
unfolding command_generate begin_round
round_of m qs p =
    ap
      (λ k. compensate_all (begin_round (record m { targetbank = false }) k) qs >>= λ done.
        ok (finish_round done.0 k, done.1))
      p

-- A round of the bank-by-bank refresh is defined whatever the queues hold. It adds commands for the
-- bank whose turn it is and for no other, at least one of them a refresh; it blocks that bank and leaves
-- the others as they were; and the turn passes to the following bank, from 7 to 0.
pub command_generate-Round :
    (m : RefreshMachine) (qs : List CommandQueue) → m.refresh_mechanism ≡ per_bank → Round m qs
unfolding busy_bank next_bank
command_generate-Round m qs p =
    let start : InRound m (record m { targetbank = false }) = record {
      added = [];
      buffer = sym (append-nil m.command_buffer);
      for_bank = tt;
      same_bank = refl;
      same_mechanism = refl;
      target = refl;
      blocked = λ h. absurd cc;
      others = λ b h. refl;
    } in
    let mid = compensate_all-InRound m p qs _ start in
    let (last, i, t, e) = finish m mid.next mid.in_round in
    record {
      left = record (next_bank last) { targetbank = mid.next.targetbank };
      queues = mid.next_queues;
      commands = i.added;
      result =
          round_of m qs p
          ∙ ap (λ o. o >>= λ done. ok (finish_round done.0 per_bank, done.1)) mid.runs
          ∙ ap (λ x. ok (x, mid.next_queues)) e;
      pushed = i.buffer;
      for_bank = i.for_bank;
      refreshed = ltb→lt 0 (refreshes i.added) (sym i.target ∙ t);
      blocked = i.blocked t;
      others = i.others;
      next = ap following i.same_bank;
    }
