-- ===== src/CommandScheduler/Fcfs/Stale.antt =====
-- What src/generalScheduler/CommandScheduler_FCFS.h returns where each requestor has a buffer of its own.
use mcsim.Common.{
  ℕ, ltb-suc, zero, suc, ◌+◌, ◌≤◌, ◌<◌, ◌≡◌, refl, sym, ap, ◌∙◌, subst, true, false, Bool-cases,
  Option, none, some, some-injective, Option-cases, List, [], ◌∷◌, List-cases, length, get_elem?,
  get_elem?-in_range, get_elem?-Splits, leb, leb→le, ◌==◌, ==_iff, if◌then◌else◌, ◌⊎◌, inl, inr, ok,
  ◌>>=◌, arith,
}
use mcsim.Packet.{BusPacket}
use mcsim.CommandQueue.{
  CommandQueue, buffer_of, get_requestor_index, get_requestor_size, get_requestor_command,
}
use mcsim.CommandScheduler.{CommandScheduler, Device, is_ready, send_command}
use mcsim.CommandScheduler.Push.Looks.{can_go}
use mcsim.CommandScheduler.Fcfs.{
  replace_later, check_requestor, first_requestor, earliest_requestor, check_requestors, queue_loop,
  fcfs_schedule,
}

-- No candidate below `num`.
abbrev NoneBelow : (ℕ → Option BusPacket) → ℕ → Type 0
NoneBelow v num = (j : ℕ) → j < num → v j ≡ none

-- What the first loop finds, for the candidates `v` of `n` requestors.
data First (v : ℕ → Option BusPacket) (n : ℕ) : Option BusPacket → Type 0 where
  no_one : NoneBelow v n → First v n none
  some_one : (c : BusPacket) (j : ℕ) → v j ≡ some c → j < n → First v n (some c)

-- A candidate that arrived no later than each other one from `num` on, and than `time`.
record Oldest (v : ℕ → Option BusPacket) (n num time : ℕ) (c : BusPacket) : Type 0 where
  place : ℕ
  is_candidate : v place ≡ some c
  no_later : c.arrive_time ≤ time
  least : (j : ℕ) (d : BusPacket) → num ≤ j → j < n → v j ≡ some d → c.arrive_time ≤ d.arrive_time

module _ {D : Type 0} (device : Device D) where
  front_view : CommandScheduler D → ℕ → CommandQueue → List BusPacket → Option BusPacket
  front_view s index q [] = none
  front_view s index q (c ∷ cs) = if can_go device s index q c then some c else none

  buffer_view : CommandScheduler D → ℕ → CommandQueue → Option ℕ → Option BusPacket
  unfolding front_view
  buffer_view s index q none = none
  buffer_view s index q (some id) = front_view s index q (buffer_of q id)

  -- The oldest command of the queue's requestor number `num`, if it can go.
  unfoldable pub waiting_for : CommandScheduler D → ℕ → CommandQueue → ℕ → Option BusPacket
  unfolding buffer_view
  waiting_for s index q num = buffer_view s index q (get_elem? q.requestor_map num)

  check_requestor-waiting_for :
      (s : CommandScheduler D) (index : ℕ) (q : CommandQueue) (num : ℕ)
      → get_elem? s.command_queue index ≡ some q
      → num < length q.requestor_map
      → check_requestor device s index q num ≡ ok (waiting_for s index q num)
  unfolding check_requestor waiting_for buffer_view front_view get_requestor_size
      get_requestor_command is_ready can_go
  check_requestor-waiting_for s index q num g l =
      let (id, at) = get_elem?-in_range q.requestor_map num l in
      let within : leb num (length q.requestor_map) ≡ true = ground arith in
      elim (List-cases (buffer_of q id)) [
        | inl e ↦ rw within (rw at (rw e refl))
        | inr (c, cs, e) ↦ rw within (rw at (rw e (rw g (rw (ltb-suc (length cs)) refl))))
      ]

  first_requestor-First :
      (s : CommandScheduler D) (index : ℕ) (q : CommandQueue) (num k : ℕ)
      → get_elem? s.command_queue index ≡ some q
      → num + k ≡ length q.requestor_map
      → NoneBelow (waiting_for s index q) num
      → (o : Option BusPacket) × (first_requestor device s index q num k ≡ ok o)
        × First (waiting_for s index q) (length q.requestor_map) o
  unfolding first_requestor
  first_requestor-First s index q num zero g e b =
      (none, refl, no_one (λ j l. b j (omega (arith, e))))
  first_requestor-First s index q num (suc k) g e b =
      let here = check_requestor-waiting_for s index q num g (omega (arith, e)) in
      elim (Option-cases (waiting_for s index q num)) [
        | inl empty_here ↦
            let (o, runs, f) =
              first_requestor-First s index q (num + 1) k g (omega (arith, e)) (λ j l.
                elim (Bool-cases (j == num)) [
                  | inl same ↦ ap (waiting_for s index q) ((==_iff j num).0 same) ∙ empty_here
                  | inr other ↦ b j (ground arith)
                ]) in
            (o, rw here (rw empty_here runs), f)
        | inr (c, here_is) ↦
            (some c, rw here (rw here_is refl), some_one c num here_is (omega (arith, e)))
      ]

  earliest_none :
      (s : CommandScheduler D) (index : ℕ) (q : CommandQueue) (num k : ℕ)
      → get_elem? s.command_queue index ≡ some q
      → num + k ≡ length q.requestor_map
      → NoneBelow (waiting_for s index q) (length q.requestor_map)
      → earliest_requestor device s index q num k none ≡ ok none
  unfolding earliest_requestor
  earliest_none s index q num zero g e b = refl
  earliest_none s index q num (suc k) g e b =
      rw (check_requestor-waiting_for s index q num g (omega (arith, e)))
        (rw (b num (omega (arith, e))) (earliest_none s index q (num + 1) k g (omega (arith, e)) b))

  -- The command kept after one round of the second loop.
  replaced :
      (o : Option BusPacket) (t : BusPacket)
      → (c : BusPacket) × (replace_later o (some t) ≡ ok (some c))
        × ((c ≡ t) ⊎ (o ≡ some c))
        × (c.arrive_time ≤ t.arrive_time)
        × ((d : BusPacket) → o ≡ some d → c.arrive_time ≤ d.arrive_time)
  replaced none t = (t, refl, inl refl, omega arith, λ d e. cc)
  replaced (some x) t = elim (Bool-cases (leb x.arrive_time t.arrive_time)) [
    | inl b ↦ (
      x,
      rw b refl,
      inr refl,
      leb→le _ _ b,
      λ d e. omega (arith, ap (λ (p : BusPacket). p.arrive_time) (some-injective _ _ e)),
    )
    | inr b ↦ (
      t,
      rw b refl,
      inl refl,
      omega arith,
      λ d e.
          let same : x.arrive_time ≡ d.arrive_time =
            ap (λ (p : BusPacket). p.arrive_time) (some-injective _ _ e) in
          ground (arith, b, same),
    )
  ]

  earliest_requestor-Oldest :
      (s : CommandScheduler D) (index : ℕ) (q : CommandQueue) (num k : ℕ) (t : BusPacket) (j : ℕ)
      → get_elem? s.command_queue index ≡ some q
      → num + k ≡ length q.requestor_map
      → waiting_for s index q j ≡ some t
      → (c : BusPacket) × (earliest_requestor device s index q num k (some t) ≡ ok (some c))
        × Oldest (waiting_for s index q) (length q.requestor_map) num t.arrive_time c
  unfolding earliest_requestor
  earliest_requestor-Oldest s index q num zero t j g e w = (
    t,
    refl,
    record {
      place = j;
      is_candidate = w;
      no_later = omega arith;
      least = λ i d a b r. absurd (omega (arith, e));
    },
  )
  earliest_requestor-Oldest s index q num (suc k) t j g e w =
      let here = check_requestor-waiting_for s index q num g (omega (arith, e)) in
      let (x, kept, from, before, least) = replaced (waiting_for s index q num) t in
      let (i, at) : (i : ℕ) × (waiting_for s index q i ≡ some x) = elim from [
        | inl same ↦ (j, w ∙ ap some (sym same))
        | inr new ↦ (num, new)
      ] in
      let (c, runs, o) =
        earliest_requestor-Oldest s index q (num + 1) k x i g (omega (arith, e)) at in
      (
        c,
        rw here (rw kept runs),
        record {
          place = o.place;
          is_candidate = o.is_candidate;
          no_later = omega (arith, o.no_later, before);
          least = λ n d a b r. elim (Bool-cases (n == num)) [
            | inl same ↦ omega (
              arith,
              o.no_later,
              least d (ap (waiting_for s index q) (sym ((==_iff n num).0 same)) ∙ r),
            )
            | inr other ↦ o.least n d (ground arith) b r
          ];
        },
      )

  -- What a queue offers: nothing, or a command that can go and that no other one of its requestors precedes.
  pub data Offers (s : CommandScheduler D) (index : ℕ) (q : CommandQueue)
      : Option BusPacket → Type 0 where
    nobody :
        ((num : ℕ) → num < length q.requestor_map → waiting_for s index q num ≡ none)
        → Offers s index q none
    somebody :
        (c : BusPacket) (num : ℕ)
        → waiting_for s index q num ≡ some c
        → ((j : ℕ) (d : BusPacket)
            → j < length q.requestor_map
            → waiting_for s index q j ≡ some d
            → c.arrive_time ≤ d.arrive_time)
        → Offers s index q (some c)

  check_requestors-Offers :
      (s : CommandScheduler D) (index : ℕ) (q : CommandQueue)
      → get_elem? s.command_queue index ≡ some q
      → (o : Option BusPacket) × (check_requestors device s index q ≡ ok o) × Offers s index q o
  unfolding check_requestors get_requestor_index
  check_requestors-Offers s index q g =
      let n = length q.requestor_map in
      let (o, runs, f) =
        first_requestor-First s index q 0 n g (omega arith) (λ j l. absurd (omega arith)) in
      by_first o runs f
    where
      by_first :
          (o : Option BusPacket)
          → first_requestor device s index q 0 (length q.requestor_map) ≡ ok o
          → First (waiting_for s index q) (length q.requestor_map) o
          → (p : Option BusPacket) × (check_requestors device s index q ≡ ok p) × Offers s index q p
      by_first _ runs (no_one b) = (
        none,
        rw runs (earliest_none s index q 0 (length q.requestor_map) g (omega arith) b),
        nobody b,
      )
      by_first _ runs (some_one t j w l) =
          let (c, rest, o) =
            earliest_requestor-Oldest s index q 0 (length q.requestor_map) t j g (omega arith) w in
          (
            some c,
            rw runs rest,
            somebody c o.place o.is_candidate (λ i d m r. o.least i d (omega arith) m r),
          )

  -- The rest of the loop from the queue at `index` on.
  data Passed (s : CommandScheduler D) (scheduled : Option BusPacket) (index k : ℕ) : Type 0 where
    none_left :
        ((i : ℕ) (q : CommandQueue)
          → index ≤ i
          → get_elem? s.command_queue i ≡ some q
          → Offers s i q none)
        → queue_loop device s index k scheduled ≡ ok (scheduled, s)
        → Passed s scheduled index k
    at :
        (c : BusPacket) (i : ℕ) (q : CommandQueue)
        → get_elem? s.command_queue i ≡ some q
        → Offers s i q (some c)
        → ((j : ℕ) (p : CommandQueue)
            → index ≤ j
            → j < i
            → get_elem? s.command_queue j ≡ some p
            → Offers s j p none)
        → queue_loop device s index k scheduled
          ≡ (send_command device s c i false >>= λ after. ok (some c, after))
        → Passed s scheduled index k

  Offers-at :
      (s : CommandScheduler D) (index : ℕ) (q : CommandQueue) (i : ℕ) (p : CommandQueue)
      → get_elem? s.command_queue index ≡ some q
      → Offers s index q none
      → i ≡ index
      → get_elem? s.command_queue i ≡ some p
      → Offers s i p none
  Offers-at s index q i p g f e h =
      let same : q ≡ p = some-injective _ _ (sym g ∙ ap (get_elem? s.command_queue) (sym e) ∙ h) in
      subst (λ k. Offers s k p none) (sym e) (subst (λ x. Offers s index x none) same f)

  queue_loop-Passed :
      (s : CommandScheduler D) (scheduled : Option BusPacket) (index k : ℕ)
      → ((i : ℕ) (q : CommandQueue)
          → get_elem? s.command_queue i ≡ some q
          → q.per_requestor_enable ≡ true)
      → index + k ≡ length s.command_queue
      → Passed s scheduled index k
  unfolding queue_loop
  queue_loop-Passed s scheduled index zero per e =
      none_left
        (λ i q a g. absurd (omega (arith, e, a, (get_elem?-Splits s.command_queue i g).in_range)))
        refl
  queue_loop-Passed s scheduled index (suc k) per e =
      let (q, g) = get_elem?-in_range s.command_queue index (omega (arith, e)) in
      let (o, runs, f) = check_requestors-Offers s index q g in
      by_offer q g o runs f (queue_loop-Passed s scheduled (index + 1) k per (omega (arith, e)))
    where
      by_offer :
          (q : CommandQueue)
          → get_elem? s.command_queue index ≡ some q
          → (o : Option BusPacket) → check_requestors device s index q ≡ ok o
          → Offers s index q o
          → Passed s scheduled (index + 1) k
          → Passed s scheduled index (suc k)
      by_offer q g (some c) runs f rest =
          at c index q g f (λ j p a b h. absurd (omega arith))
            (rw g (rw runs (rw (per index q g) refl)))
      by_offer q g none runs f (none_left none_after ends) =
          none_left
            (λ i p a h. elim (Bool-cases (i == index)) [
              | inl same ↦ Offers-at s index q i p g f ((==_iff i index).0 same) h
              | inr other ↦ none_after i p (ground arith) h
            ])
            (rw g (rw runs (rw (per index q g) ends)))
      by_offer q g none runs f (at c i p h offers none_before ends) =
          at c i p h offers
            (λ j p' a b h'. elim (Bool-cases (j == index)) [
              | inl same ↦ Offers-at s index q j p' g f ((==_iff j index).0 same) h'
              | inr other ↦ none_before j p' (ground arith) b h'
            ])
            (rw g (rw runs (rw (per index q g) ends)))

  -- What `commandSchedule` does, with `scheduled` the old value of `scheduledCommand`.
  pub data Scheduled (scheduled : Option BusPacket) (s : CommandScheduler D) : Type 0 where
    stale :
        ((i : ℕ) (q : CommandQueue) → get_elem? s.command_queue i ≡ some q → Offers s i q none)
        → fcfs_schedule device scheduled s ≡ ok (scheduled, s)
        → Scheduled scheduled s
    sent :
        (c : BusPacket) (i : ℕ) (q : CommandQueue)
        → get_elem? s.command_queue i ≡ some q
        → Offers s i q (some c)
        → ((j : ℕ) (p : CommandQueue)
            → j < i
            → get_elem? s.command_queue j ≡ some p
            → Offers s j p none)
        → fcfs_schedule device scheduled s
          ≡ (send_command device s c i false >>= λ after. ok (some c, after))
        → Scheduled scheduled s

  -- Let each command queue have a buffer for each requestor. Then neither loop reads a missing command. If
  -- a queue has a requestor whose oldest command is ready and issuable, then `commandSchedule` sends,
  -- with `sendCommand`, such a command of the first such queue, one that arrived no later than each
  -- other one of that queue. If there is none, then nothing changes and it returns what the field held
  -- before the call, which is the command of an earlier cycle once there has been one.
  pub fcfs_schedule-Scheduled :
      (scheduled : Option BusPacket) (s : CommandScheduler D)
      → ((i : ℕ) (q : CommandQueue)
          → get_elem? s.command_queue i ≡ some q
          → q.per_requestor_enable ≡ true)
      → Scheduled scheduled s
  unfolding fcfs_schedule
  fcfs_schedule-Scheduled scheduled s per =
      by_loop (queue_loop-Passed s scheduled 0 (length s.command_queue) per (omega arith))
    where
      by_loop : Passed s scheduled 0 (length s.command_queue) → Scheduled scheduled s
      by_loop (none_left n e) = stale (λ i q g. n i q (omega arith) g) e
      by_loop (at c i q g f b e) = sent c i q g f (λ j p l h. b j p (omega arith) l h) e
