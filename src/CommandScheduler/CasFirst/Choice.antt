-- ===== src/CommandScheduler/CasFirst/Choice.antt =====
-- Which command the policy of system/RTMem/CommandScheduler_RTMem.h sends.
use mcsim.Common.{
  if_rule, All-map, some_unique, ℕ, ◌≡◌, ◌≤◌, refl, sym, ap, ◌∙◌, subst, Bool, true, false, ◌&&◌,
  not, Option, none, some, List, [], ◌∷◌, ◌++◌, append_assoc, append-nil, map, length, get_elem?,
  ltb, if◌then◌else◌, Outcome, ok, ◌>>=◌, arith, All, All-append, get_elem?-append,
  get_elem?-middle, Bool-cases, inl, inr, ltb→lt, not_ltb→le,
}
use mcsim.Packet.{BusPacket}
use mcsim.CommandQueue.{CommandQueue}
use mcsim.CommandScheduler.{CommandScheduler, Device, is_issuable}
use mcsim.CommandScheduler.CasFirst.{
  Temps, is_cas_command, keep_earlier, note, choose, send_chosen, cas_first_schedule, if_issuable,
  or_other,
}
use mcsim.CommandScheduler.CasFirst.Scan.{
  looked_at, marked, notes, note_front, can_go, InBanks, with_queues, scan_lem,
}

-- `o` is the earliest of the commands at the fronts of the queues that pass the test.
abbrev pub IsEarliest : (BusPacket → Bool) → List CommandQueue → Option BusPacket → Type 0
IsEarliest test queues none =
    All (λ q. (c : BusPacket) → looked_at q ≡ some c → test c ≡ true → ⊥) queues
IsEarliest test queues (some b) =
    ((k : ℕ) × (q : CommandQueue) × (get_elem? queues k ≡ some q) × (looked_at q ≡ some b))
    × (test b ≡ true)
    × All
        (λ q.
          (c : BusPacket) → looked_at q ≡ some c → test c ≡ true → b.arrive_time ≤ c.arrive_time)
        queues

step : (BusPacket → Bool) → Option BusPacket → Option BusPacket → Option BusPacket
step test none o = o
step test (some c) o = if test c then keep_earlier c o else o

pick : (BusPacket → Bool) → List CommandQueue → Option BusPacket → Option BusPacket
pick test [] o = o
pick test (q ∷ qs) o = pick test qs (step test (looked_at q) o)

same_time :
    (q : CommandQueue) (c d : BusPacket)
    → looked_at q ≡ some c
    → looked_at q ≡ some d
    → c.arrive_time ≤ d.arrive_time
same_time q c d f g =
    omega (arith, ap (λ (p : BusPacket). p.arrive_time) (some_unique (looked_at q) f g))

module _ (test : BusPacket → Bool) where
  -- The next queue's command is not looked at.
  kept :
      (seen : List CommandQueue) (q : CommandQueue) (o : Option BusPacket)
      → ((c : BusPacket) → looked_at q ≡ some c → test c ≡ true → ⊥)
      → IsEarliest test seen o
      → IsEarliest test (seen ++ q ∷ []) o
  kept seen q none no_one e = All-append _ seen (q ∷ []) e (no_one, tt)
  kept seen q (some b) no_one ((k, p, at_k, is), passes, least) = (
    (k, p, get_elem?-append seen (q ∷ []) k at_k, is),
    passes,
    All-append _ seen (q ∷ []) least (λ c f t. absurd (no_one c f t), tt),
  )

  -- It takes the place.
  first_one :
      (seen : List CommandQueue) (q : CommandQueue) (c : BusPacket) (o : Option BusPacket)
      → looked_at q ≡ some c
      → test c ≡ true
      → IsEarliest test seen o
      → IsEarliest test (seen ++ q ∷ []) (keep_earlier c o)
  unfolding keep_earlier
  first_one seen q c none f t e = (
    (length seen, q, get_elem?-middle seen q [], f),
    t,
    All-append _ seen (q ∷ []) (All-map seen (λ p no_one d g u. absurd (no_one d g u)) e)
        (λ d g u. same_time q c d f g, tt),
  )
  first_one seen q c (some b) f t ((k, p, at_k, is), passes, least) =
      if_rule (IsEarliest test (seen ++ q ∷ [])) (ltb c.arrive_time b.arrive_time)
        (λ sooner. (
          (length seen, q, get_elem?-middle seen q [], f),
          t,
          All-append _ seen (q ∷ [])
              (All-map seen (λ p le d g u. omega (arith, ltb→lt _ _ sooner, le d g u)) least)
              (λ d g u. same_time q c d f g, tt),
        ))
        (λ later. (
          (k, p, get_elem?-append seen (q ∷ []) k at_k, is),
          passes,
          All-append _ seen (q ∷ []) least
              (λ d g u. omega (arith, not_ltb→le _ _ later, same_time q c d f g), tt),
        ))

  step-IsEarliest :
      (seen : List CommandQueue) (q : CommandQueue) (o seen_front : Option BusPacket)
      → looked_at q ≡ seen_front
      → IsEarliest test seen o
      → IsEarliest test (seen ++ q ∷ []) (step test seen_front o)
  unfolding step
  step-IsEarliest seen q o none f e = kept seen q o (λ c g t. absurd (ne c (sym g ∙ f))) e
    where
      ne : (c : BusPacket) → some c ≡ none → ⊥
      ne c e = cc
  step-IsEarliest seen q o (some c) f e =
      if_rule (IsEarliest test (seen ++ q ∷ [])) (test c) (λ t. first_one seen q c o f t e)
        (λ t.
          kept seen q o
            (λ d g u. absurd (both (sym (ap test (some_unique (looked_at q) f g)) ∙ t) u)) e)
    where
      both : {b : Bool} → b ≡ false → b ≡ true → ⊥
      both e f = cc

  pick-IsEarliest :
      (seen queues : List CommandQueue) (o : Option BusPacket)
      → IsEarliest test seen o
      → IsEarliest test (seen ++ queues) (pick test queues o)
  unfolding pick
  pick-IsEarliest seen [] o e = subst (λ l. IsEarliest test l o) (sym (append-nil seen)) e
  pick-IsEarliest seen (q ∷ queues) o e =
      subst (λ l. IsEarliest test l (pick test queues (step test (looked_at q) o)))
        (append_assoc seen (q ∷ []) queues)
        (pick-IsEarliest (seen ++ q ∷ []) queues (step test (looked_at q) o)
          (step-IsEarliest seen q o (looked_at q) refl e))

module _ (can : BusPacket → Bool) where
  abbrev pub ready_cas : BusPacket → Bool
  ready_cas c = can c && is_cas_command c

  abbrev pub ready_other : BusPacket → Bool
  ready_other c = can c && not (is_cas_command c)

  note_front-step :
      (o : Option BusPacket) (temps : Temps)
      → note_front can o temps ≡ (step ready_cas o temps.0, step ready_other o temps.1)
  unfolding note_front note step
  note_front-step none temps = refl
  note_front-step (some c) temps = elim (Bool-cases (can c)) [
    | inl yes_it_can ↦ elim (Bool-cases (is_cas_command c)) [
      | inl cas ↦ rw (yes_it_can, cas) refl
      | inr other ↦ rw (yes_it_can, other) refl
    ]
    | inr cannot ↦ rw cannot refl
  ]

  notes-pick :
      (queues : List CommandQueue) (temps : Temps)
      → notes can queues temps ≡ (pick ready_cas queues temps.0, pick ready_other queues temps.1)
  unfolding notes pick
  notes-pick [] temps = refl
  notes-pick (q ∷ queues) temps =
      notes-pick queues (note_front can (looked_at q) temps)
      ∙ ap (λ (t : Temps). (pick ready_cas queues t.0, pick ready_other queues t.1))
          (note_front-step (looked_at q) temps)

module _ {D : Type 0} (device : Device D) where
  -- The earliest ready CAS command and the earliest other ready command, if there are such.
  pub record Found (s : CommandScheduler D) : Type 0 where
    pub cas : Option BusPacket
    pub other : Option BusPacket
    pub cas_first : IsEarliest (ready_cas (can_go s)) s.command_queue cas
    pub other_first : IsEarliest (ready_other (can_go s)) s.command_queue other

  -- The CAS command goes if it can be issued, and else the other one if that can.
  abbrev pub chosen : (s : CommandScheduler D) → Found s → Option BusPacket
  chosen s f = or_other (if_issuable device s f.cas) (if_issuable device s f.other)

  none_seen : (test : BusPacket → Bool) → IsEarliest test [] none
  none_seen test = tt

  found : (s : CommandScheduler D) → Found s
  found s = record {
    cas = pick (ready_cas (can_go s)) s.command_queue none;
    other = pick (ready_other (can_go s)) s.command_queue none;
    cas_first = pick-IsEarliest (ready_cas (can_go s)) [] s.command_queue none tt;
    other_first = pick-IsEarliest (ready_other (can_go s)) [] s.command_queue none tt;
  }

  pub cas_first_schedule-Found :
      (s : CommandScheduler D)
      → All (InBanks s) s.command_queue
      → (f : Found s) × (cas_first_schedule device s
          ≡ send_chosen device (with_queues s (map marked s.command_queue)) (chosen s f))
  unfolding cas_first_schedule choose is_issuable found
  cas_first_schedule-Found s placed = (
    found s,
    ap
        (λ (m : Outcome (Temps × CommandScheduler D)).
          m >>= λ scanned. send_chosen device scanned.1 (choose device scanned.1 scanned.0))
        (scan_lem device s [] s.command_queue (none, none) refl placed
          ∙ ap (λ t. ok (t, with_queues s (map marked s.command_queue)))
              (notes-pick (can_go s) s.command_queue (none, none))),
  )
