-- ===== src/CommandScheduler/Push/Earliest.antt =====
-- Which command src/generalScheduler/CommandScheduler_PUSH.h sends.
use mcsim.Common.{
  ℕ, zero, suc, ◌+◌, ◌≤◌, ◌<◌, ◌≡◌, refl, sym, ap, ◌∙◌, subst, false, Bool-cases, Option, none,
  some, some-injective, length, leb, leb→le, ◌==◌, ==_iff, ◌⊎◌, inl, inr, ok, ok-injective,
  >>=-eq-ok, ◌>>=◌, arith, Option-cases,
}
use mcsim.Packet.{BusPacket}
use mcsim.CommandScheduler.{CommandScheduler, Device, send_command}
use mcsim.CommandScheduler.Push.Looks.{IsMarked, OnlyMarked, candidate, Shows, check-Checked}
use mcsim.CommandScheduler.Push.{
  Temp, check, latest, first_loop, earlier, second_loop, command_schedule, cleared,
}

module _ {D : Type 0} (device : Device D) where
  -- No candidate below `index`.
  abbrev NoneBelow : (ℕ → Option BusPacket) → ℕ → Type 0
  NoneBelow v index = (j : ℕ) → j < index → v j ≡ none

  abbrev IsCandidate : (ℕ → Option BusPacket) → ℕ → BusPacket × ℕ → Type 0
  IsCandidate v n t = (v t.1 ≡ some t.0) × (t.1 < n)

  -- What the first loop knows.
  abbrev Found : (ℕ → Option BusPacket) → ℕ → ℕ → Temp → Type 0
  Found v n index temp =
      ((temp ≡ none) × NoneBelow v index)
      ⊎ ((t : BusPacket × ℕ) × (temp ≡ some t) × IsCandidate v n t)

  Found-next :
      (v : ℕ → Option BusPacket) (n index : ℕ) (temp : Temp)
      → index < n
      → Found v n index temp
      → Found v n (index + 1) (latest (v index) index temp)
  Found-next v n index temp l f = elim (Option-cases (v index)) [
    | inl e ↦ rw e (elim f [
      | inl (t, b) ↦ inl (
        t,
        λ j k. elim (Bool-cases (j == index)) [
          | inl same ↦ ap v ((==_iff j index).0 same) ∙ e
          | inr other ↦ b j (ground arith)
        ],
      )
      | inr found ↦ inr found
    ])
    | inr (c, e) ↦ rw e (inr ((c, index), refl, (e, l)))
  ]

  first_loop-Found :
      (s0 : CommandScheduler D) (v : ℕ → Option BusPacket) (n : ℕ) (s : CommandScheduler D)
      (index k : ℕ) (temp : Temp)
      → Shows device s0 v n s
      → index + k ≡ n
      → Found v n index temp
      → (temp' : Temp) × (s' : CommandScheduler D) × (first_loop device s index k temp
          ≡ ok (temp', s'))
        × Shows device s0 v n s'
        × Found v n n temp'
  unfolding first_loop
  first_loop-Found s0 v n s index zero temp h e f =
      (temp, s, refl, h, subst (λ k. Found v n k temp) (omega (arith, e)) f)
  first_loop-Found s0 v n s index (suc k) temp h e f =
      let l : index < n = omega (arith, e) in
      let one = check-Checked device s0 v n s index h l in
      let (temp', s', runs, h', f') =
        first_loop-Found s0 v n one.after (index + 1) k (latest (v index) index temp) one.shows
          (omega (arith, e)) (Found-next v n index temp l f) in
      (temp', s', rw one.runs runs, h', f')

  second_loop-none :
      (s0 : CommandScheduler D) (v : ℕ → Option BusPacket) (n : ℕ) (s : CommandScheduler D)
      (index k : ℕ)
      → Shows device s0 v n s
      → index + k ≡ n
      → NoneBelow v n
      → (s' : CommandScheduler D) × (second_loop device s index k none ≡ ok (none, s'))
        × Shows device s0 v n s'
  unfolding second_loop
  second_loop-none s0 v n s index zero h e b = (s, refl, h)
  second_loop-none s0 v n s index (suc k) h e b =
      let one = check-Checked device s0 v n s index h (omega (arith, e)) in
      let (s', runs, h') =
        second_loop-none s0 v n one.after (index + 1) k one.shows (omega (arith, e)) b in
      (s', rw one.runs (rw (b index (omega (arith, e))) runs), h')

  -- No candidate from `index` on, below `n`, is earlier than `time`.
  abbrev NoEarlier : (ℕ → Option BusPacket) → (index n time : ℕ) → Type 0
  NoEarlier v index n time =
      (j : ℕ) (c : BusPacket) → index ≤ j → j < n → v j ≡ some c → time ≤ c.arrive_time

  record Earliest (v : ℕ → Option BusPacket) (n index : ℕ) (t t' : BusPacket × ℕ) : Type 0 where
    candidate' : IsCandidate v n t'
    no_later : t'.0.arrive_time ≤ t.0.arrive_time
    least : NoEarlier v index n t'.0.arrive_time

  -- The choice of one round.
  earlier_round :
      (v : ℕ → Option BusPacket) (n index : ℕ) (t : BusPacket × ℕ)
      → index < n
      → IsCandidate v n t
      → (t' : BusPacket × ℕ) × (earlier (v index) index (some t) ≡ ok (some t'))
        × IsCandidate v n t'
        × (t'.0.arrive_time ≤ t.0.arrive_time)
        × ((c : BusPacket) → v index ≡ some c → t'.0.arrive_time ≤ c.arrive_time)
  earlier_round v n index t l g = elim (Option-cases (v index)) [
    | inl e ↦ (t, rw e refl, g, omega arith, λ c k. cc)
    | inr (c, e) ↦ elim (Bool-cases (leb c.arrive_time t.0.arrive_time)) [
      | inl b ↦ (
        (c, index),
        rw e (rw b refl),
        (e, l),
        leb→le _ _ b,
        λ d k.
            omega (arith, ap (λ (x : BusPacket). x.arrive_time) (some-injective _ _ (sym e ∙ k))),
      )
      | inr b ↦ (
        t,
        rw e (rw b refl),
        g,
        omega arith,
        λ d k.
            let same : c.arrive_time ≡ d.arrive_time =
              ap (λ (x : BusPacket). x.arrive_time) (some-injective _ _ (sym e ∙ k)) in
            ground (arith, b, same),
      )
    ]
  ]

  second_loop-Earliest :
      (s0 : CommandScheduler D) (v : ℕ → Option BusPacket) (n : ℕ) (s : CommandScheduler D)
      (index k : ℕ) (t : BusPacket × ℕ)
      → Shows device s0 v n s
      → index + k ≡ n
      → IsCandidate v n t
      → (t' : BusPacket × ℕ) × (s' : CommandScheduler D) × (second_loop device s index k (some t)
          ≡ ok (some t', s'))
        × Shows device s0 v n s'
        × Earliest v n index t t'
  unfolding second_loop
  second_loop-Earliest s0 v n s index zero t h e g = (
    t,
    s,
    refl,
    h,
    record {
      candidate' = g;
      no_later = omega arith;
      least = λ j c a b k. absurd (omega (arith, e));
    },
  )
  second_loop-Earliest s0 v n s index (suc k) t h e g =
      let l : index < n = omega (arith, e) in
      let one = check-Checked device s0 v n s index h l in
      let (t1, chosen, g1, le1, least1) = earlier_round v n index t l g in
      let (t', s', runs, h', best) =
        second_loop-Earliest s0 v n one.after (index + 1) k t1 one.shows (omega (arith, e)) g1 in
      (
        t',
        s',
        rw one.runs (rw chosen runs),
        h',
        record {
          candidate' = best.candidate';
          no_later = omega (arith, best.no_later, le1);
          least = λ j c a b q. elim (Bool-cases (j == index)) [
            | inl same ↦
                omega (arith, best.no_later, least1 c (ap v (sym ((==_iff j index).0 same)) ∙ q))
            | inr other ↦ best.least j c (ground arith) b q
          ];
        },
      )

  -- The second loop marks every queue that has a candidate.
  second_loop-IsMarked :
      (s0 : CommandScheduler D) (v : ℕ → Option BusPacket) (n : ℕ) (s s' : CommandScheduler D)
      (index k j : ℕ) (temp temp' : Temp) (c : BusPacket)
      → Shows device s0 v n s
      → index + k ≡ n
      → second_loop device s index k temp ≡ ok (temp', s')
      → v j ≡ some c
      → j < n
      → IsMarked s.command_queue j ⊎ (index ≤ j)
      → IsMarked s'.command_queue j
  unfolding second_loop
  second_loop-IsMarked s0 v n s s' index zero j temp temp' c h e runs shown l m = elim m [
    | inl done ↦
        subst (λ (x : Temp × CommandScheduler D). IsMarked x.1.command_queue j)
          (ok-injective _ _ runs) done
    | inr later ↦ absurd (omega (arith, e))
  ]
  second_loop-IsMarked s0 v n s s' index (suc k) j temp temp' c h e runs shown l m =
      let one = check-Checked device s0 v n s index h (omega (arith, e)) in
      let (got, first, runs1) = >>=-eq-ok (check device s index) _ runs in
      let (temp1, _, runs2) = >>=-eq-ok (earlier got.0 index temp) _ runs1 in
      let same : got ≡ (v index, one.after) = ok-injective _ _ (sym first ∙ one.runs) in
      let runs3 : second_loop device one.after (index + 1) k temp1 ≡ ok (temp', s') =
        subst (λ x. second_loop device x (index + 1) k temp1 ≡ ok (temp', s')) (ap (λ x. x.1) same)
          runs2 in
      second_loop-IsMarked s0 v n one.after s' (index + 1) k j temp1 temp' c one.shows
        (omega (arith, e)) runs3 shown l
        (elim m [
          | inl done ↦ inl (one.keeps j done)
          | inr later ↦ elim (Bool-cases (index == j)) [
            | inl here ↦
                let at : index ≡ j = (==_iff index j).0 here in
                inl (
                  subst (λ i. IsMarked one.after.command_queue i) at
                    (one.marks c (ap v at ∙ shown)))
            | inr other ↦ inr (ground arith)
          ]
        ])

  -- What `commandSchedule` does, where `scheduled` is what an earlier call has left: nothing is sent where no queue
  -- has a candidate; else the command sent is a candidate that no other one precedes.
  pub data Pushed (scheduled : Option BusPacket) (s : CommandScheduler D) : Type 0 where
    idle :
        ((j : ℕ) → j < length s.command_queue → candidate device s j ≡ none)
        → (s' : CommandScheduler D) → OnlyMarked device s s'
        → command_schedule device scheduled s ≡ ok (cleared s.command_queue scheduled, s')
        → Pushed scheduled s
    sent :
        (c : BusPacket) (index : ℕ) (s' : CommandScheduler D)
        → candidate device s index ≡ some c
        → ((j : ℕ) (d : BusPacket)
            → j < length s.command_queue
            → candidate device s j ≡ some d
            → c.arrive_time ≤ d.arrive_time)
        → OnlyMarked device s s'
        → IsMarked s'.command_queue index
        → command_schedule device scheduled s
          ≡ (send_command device s' c index false >>= λ after. ok (some c, after))
        → Pushed scheduled s

  -- Whatever the queues hold, neither loop reads a missing command. `commandSchedule` either finds no
  -- queue whose first critical command is ready and issuable, and then changes nothing but the marks of queues
  -- and returns NULL, or with no queue at all what an earlier call has left; or it sends, with
  -- `sendCommand`, such a command that arrived no later than each other one, and before that has
  -- changed nothing but the marks of queues, with the critical buffer of the command's queue marked.
  pub command_schedule-Pushed :
      (scheduled : Option BusPacket) (s : CommandScheduler D) → Pushed scheduled s
  unfolding command_schedule
  command_schedule-Pushed scheduled s =
      let n = length s.command_queue in
      let v = candidate device s in
      let start : Shows device s v n s = record {
        views = λ j. refl;
        number = refl;
        only_marked = record { same_rest = refl; same_queues = refl };
      } in
      let (temp, s1, runs1, h1, found) =
        first_loop-Found s v n s 0 n none start (omega arith)
          (inl (refl, λ j k. absurd (omega arith))) in
      elim found [
        | inl (e, b) ↦
            let (s2, runs2, h2) = second_loop-none s v n s1 0 n h1 (omega arith) b in
            idle b s2 h2.only_marked (rw runs1 (rw e (rw runs2 refl)))
        | inr (t, e, g) ↦
            let (t', s2, runs2, h2, best) =
              second_loop-Earliest s v n s1 0 n t h1 (omega arith) g in
            sent t'.0 t'.1 s2 (best.candidate').0 (λ j d k q. best.least j d (omega arith) k q)
              h2.only_marked
              (second_loop-IsMarked s v n s1 s2 0 n t'.1 (some t) (some t') t'.0 h1 (omega arith)
                runs2 (best.candidate').0 (best.candidate').1 (inr (omega arith)))
              (rw runs1 (rw e (rw runs2 refl)))
      ]
