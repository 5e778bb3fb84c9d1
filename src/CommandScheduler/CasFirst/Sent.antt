-- ===== src/CommandScheduler/CasFirst/Sent.antt =====
-- What a call of the policy of system/RTMem/CommandScheduler_RTMem.h does with the command that it
-- chooses, where each queue holds the commands of the bank of its own number.
use mcsim.Common.{
  get_elem?-lt, if_true, if_false, ◌==◌, ℕ, zero, suc, ◌≡◌, refl, sym, ap, ◌∙◌, Bool, true, false,
  Option, none, some, List, [], ◌∷◌, map, get_elem?, set, if◌then◌else◌, ok, All, arith, inl, inr,
  ◌⊎◌, Option-cases, Bool-cases,
}
use mcsim.Packet.{BusPacket}
use mcsim.CommandQueue.{CommandQueue, remove_command}
use mcsim.CommandScheduler.{CommandScheduler, Device, is_issuable, send_command, raised}
use mcsim.CommandScheduler.CasFirst.{send_chosen, cas_first_schedule, or_other, if_issuable}
use mcsim.CommandScheduler.CasFirst.Scan.{
  looked_at, marked, with_queues, InBanks, holding, per_marked,
}
use mcsim.CommandScheduler.CasFirst.Choice.{IsEarliest, Found, chosen, cas_first_schedule-Found}

abbrev drop_low : CommandQueue → List BusPacket → CommandQueue
drop_low q [] = q
drop_low q (c ∷ cs) = record q { scheduled_queue = false; srt_buffer = cs }

abbrev drop_high : CommandQueue → List BusPacket → CommandQueue
drop_high q [] = drop_low q q.srt_buffer
drop_high q (c ∷ cs) = record q { scheduled_queue = true; hrt_buffer = cs }

-- The queue without its front command.
abbrev pub dropped : CommandQueue → CommandQueue
dropped q = drop_high q q.hrt_buffer

remove_holding :
    (q : CommandQueue) (high low : List BusPacket) (c : BusPacket)
    → looked_at (holding q high low) ≡ some c
    → remove_command (marked (holding q high low)) ≡ ok (dropped (holding q high low))
unfolding remove_command
remove_holding q [] [] c e = cc
remove_holding q [] (d ∷ ds) c e = refl
remove_holding q (d ∷ ds) low c e = refl

remove_marked :
    (q : CommandQueue) (c : BusPacket)
    → looked_at q ≡ some c
    → remove_command (marked q) ≡ ok (dropped q)
remove_marked q c e = remove_holding q q.hrt_buffer q.srt_buffer c e

abbrev map_some {ℓ κ} : {A : Type ℓ} {B : Type κ} → (A → B) → Option A → Option B
map_some f none = none
map_some f (some a) = some (f a)

get_elem?-map {ℓ κ} :
    {A : Type ℓ} {B : Type κ} (f : A → B) (l : List A) (i : ℕ) {a : A}
    → get_elem? l i ≡ some a
    → get_elem? (map f l) i ≡ some (f a)
get_elem?-map f [] i e = cc
get_elem?-map f (x ∷ l) zero e = ap (λ o. map_some f o) e
get_elem?-map f (x ∷ l) (suc i) e = get_elem?-map f l i e

All-index {ℓ κ} :
    {A : Type ℓ} (P : A → Type κ) (l : List A)
    → ((k : ℕ) (x : A) → get_elem? l k ≡ some x → P x)
    → All P l
All-index P [] h = tt
All-index P (x ∷ l) h = (h 0 x refl, All-index P l (λ k y e. h (suc k) y e))

module _ {D : Type 0} (device : Device D) where
  -- Each queue has one buffer for all requestors, and the command at its front is for the bank of its
  -- own number.
  pub record OwnBanks (s : CommandScheduler D) : Type 0 where
    pub general :
        (k : ℕ) (q : CommandQueue)
        → get_elem? s.command_queue k ≡ some q
        → q.per_requestor_enable ≡ false
    pub own :
        (k : ℕ) (q : CommandQueue) (c : BusPacket)
        → get_elem? s.command_queue k ≡ some q
        → looked_at q ≡ some c
        → c.bank ≡ k

  -- The command `c`, from the front of its bank's queue, is sent.
  pub record Sent (s : CommandScheduler D) (c : BusPacket) : Type 0 where
    pub queue : CommandQueue
    pub here : get_elem? s.command_queue c.bank ≡ some queue
    pub at_front : looked_at queue ≡ some c
    pub after : CommandScheduler D
    pub result : cas_first_schedule device s ≡ ok (some c, after)
    pub removed : after.command_queue ≡ set (map marked s.command_queue) c.bank (dropped queue)
    pub received : after.memory_device ≡ device.receive_from_bus s.memory_device c

  send_own :
      (s : CommandScheduler D) (c : BusPacket) (q : CommandQueue)
      → get_elem? s.command_queue c.bank ≡ some q
      → q.per_requestor_enable ≡ false
      → looked_at q ≡ some c
      → (s' : CommandScheduler D) × (send_command device
            (with_queues s (map marked s.command_queue))
            c
            c.bank
            false
          ≡ ok s')
        × (s'.command_queue ≡ set (map marked s.command_queue) c.bank (dropped q))
        × (s'.memory_device ≡ device.receive_from_bus s.memory_device c)
  unfolding send_command raised
  send_own s c q here general e = (
    record s {
      command_queue = set (map marked s.command_queue) c.bank (dropped q);
      cmd_queue_timer =
          λ i. if i == c.bank then raised device c (s.cmd_queue_timer i) else s.cmd_queue_timer i;
      memory_device = device.receive_from_bus s.memory_device c;
    },
    rw (get_elem?-map marked s.command_queue c.bank here)
        (rw (per_marked q ∙ general) (rw (remove_marked q c e) refl)),
    refl,
    refl,
  )

  located :
      (test : BusPacket → Bool) (queues : List CommandQueue) (o : Option BusPacket) (c : BusPacket)
      → IsEarliest test queues o
      → o ≡ some c
      → (k : ℕ) × (q : CommandQueue) × (get_elem? queues k ≡ some q) × (looked_at q ≡ some c)
  located test queues none c e same = cc
  located test queues (some b) c ((k, q, here, is), passes, least) same = (k, q, here, is ∙ same)

  issuable_from :
      (s : CommandScheduler D) (o : Option BusPacket) (c : BusPacket)
      → if_issuable device s o ≡ some c
      → o ≡ some c
  issuable_from s none c e = cc
  issuable_from s (some b) c e = elim (Bool-cases (is_issuable device s b)) [
    | inl can ↦ sym (if_true (is_issuable device s b) (some b) none can) ∙ e
    | inr cannot ↦
        absurd (none_some (sym (if_false (is_issuable device s b) (some b) none cannot) ∙ e))
  ]
    where
      none_some : {b : BusPacket} → none ≡ some b → ⊥
      none_some e = cc

  or_from :
      (first second : Option BusPacket) (c : BusPacket)
      → or_other first second ≡ some c
      → (first ≡ some c) ⊎ (second ≡ some c)
  or_from none second c e = inr e
  or_from (some b) second c e = inl e

  chosen_at :
      (s : CommandScheduler D) (f : Found device s) (c : BusPacket)
      → chosen device s f ≡ some c
      → (k : ℕ) × (q : CommandQueue) × (get_elem? s.command_queue k ≡ some q)
        × (looked_at q ≡ some c)
  chosen_at s f c e =
      elim (or_from (if_issuable device s f.cas) (if_issuable device s f.other) c e) [
        | inl first ↦ located _ s.command_queue f.cas c f.cas_first (issuable_from s f.cas c first)
        | inr second ↦
            located _ s.command_queue f.other c f.other_first (issuable_from s f.other c second)
      ]

  OwnBanks-InBanks : (s : CommandScheduler D) → OwnBanks s → All (InBanks s) s.command_queue
  OwnBanks-InBanks s o =
      All-index (InBanks s) s.command_queue
        (λ k q here c e. omega (arith, o.own k q c here e, get_elem?-lt s.command_queue k here))

  chosen_Sent :
      (s : CommandScheduler D) (f : Found device s) (c : BusPacket)
      → OwnBanks s
      → cas_first_schedule device s
        ≡ send_chosen device (with_queues s (map marked s.command_queue)) (chosen device s f)
      → chosen device s f ≡ some c
      → Sent s c
  chosen_Sent s f c o e same =
      let (k, q, at_k, is) = chosen_at s f c same in
      let own : get_elem? s.command_queue c.bank ≡ some q =
        ap (get_elem? s.command_queue) (o.own k q c at_k is) ∙ at_k in
      let (after, sent, removed, received) = send_own s c q own (o.general k q at_k) is in
      record {
        queue = q;
        here = own;
        at_front = is;
        after = after;
        result =
            e
            ∙ ap (send_chosen device (with_queues s (map marked s.command_queue))) same
            ∙ rw sent refl;
        removed = removed;
        received = received;
      }

  -- Each queue has one buffer of each kind for all requestors, and the command at its front, of the
  -- critical buffer or else of the other, is for the bank of the queue's own number. Then the call
  -- is defined. Of the front commands whose timers have run down, it chooses the earliest CAS
  -- command if that can be issued, and otherwise the earliest of the others if that can, and sends
  -- nothing if neither can. The command that it sends leaves the front of its queue and reaches the
  -- device; the other queues keep their commands.
  pub cas_first_schedule-Sent :
      (s : CommandScheduler D)
      → OwnBanks s
      → (f : Found device s) × (((chosen device s f ≡ none)
            × (cas_first_schedule device s ≡ ok (none, with_queues s (map marked s.command_queue))))
          ⊎ ((c : BusPacket) × (chosen device s f ≡ some c) × Sent s c))
  cas_first_schedule-Sent s o =
      let (f, e) = cas_first_schedule-Found device s (OwnBanks-InBanks s o) in
      (
        f,
        elim (Option-cases (chosen device s f)) [
          | inl nothing ↦ inl (
            nothing,
            e ∙ ap (send_chosen device (with_queues s (map marked s.command_queue))) nothing,
          )
          | inr (c, same) ↦ inr (c, same, chosen_Sent s f c o e same)
        ],
      )
