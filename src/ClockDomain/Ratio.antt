-- ===== src/ClockDomain/Ratio.antt =====
-- The rate of the calls that src/ClockDomain.cpp makes.
use mcsim.Common.{
  ℕ, zero, suc, ◌+◌, ◌*◌, ◌≤◌, ◌<◌, ◌≡◌, refl, sym, ap, ◌∙◌, subst, Bool, true, false, ◌&&◌, Option,
  none, some, ltb, u64, u64_mod, if◌then◌else◌, if_rule, ◌==◌, ==_iff, Bool-cases, inl, inr, arith,
  ltb→lt,
}
use mcsim.ClockDomain.{ClockDomainCrosser, new, catch_up, caught_up, update, one_more}

-- The loop has enough fuel, stops as soon as the second counter has caught up, and adds `clock2` to it
-- in each round.
record CaughtUp (clock2 counter1 counter2 : ℕ) (o : Option (ℕ × ℕ)) : Type 0 where
  reached : ℕ
  rounds : ℕ
  result : o ≡ some (reached, rounds)
  grown : reached ≡ counter2 + rounds * clock2
  caught : counter1 ≤ reached
  near : reached < counter1 + clock2

suc_mul : (n m : ℕ) → suc n * m ≡ m + n * m
suc_mul n m = ground arith

one_round :
    {clock2 counter1 counter2 : ℕ} {o : Option (ℕ × ℕ)}
    → CaughtUp clock2 counter1 (counter2 + clock2) o
    → CaughtUp clock2 counter1 counter2 (one_more o)
one_round {clock2} {counter1} {counter2} h = record {
  reached = h.reached;
  rounds = suc h.rounds;
  result = ap one_more h.result;
  grown = omega (arith, h.grown, suc_mul h.rounds clock2);
  caught = h.caught;
  near = h.near;
}

no_round :
    {clock2 counter1 counter2 : ℕ}
    → counter1 ≤ counter2
    → counter2 < counter1 + clock2
    → CaughtUp clock2 counter1 counter2 (some (counter2, 0))
no_round {clock2} {counter1} {counter2} c l = record {
  reached = counter2;
  rounds = 0;
  result = refl;
  grown = omega arith;
  caught = c;
  near = l;
}

u64_small : (n : ℕ) → n < u64_mod → n ≡ u64 n
u64_small n h = omega arith

catch_up-CaughtUp :
    (clock2 counter1 fuel counter2 : ℕ)
    → 0 < clock2
    → counter1 + clock2 < u64_mod
    → counter1 ≤ counter2 + fuel
    → counter2 < counter1 + clock2
    → CaughtUp clock2 counter1 counter2 (catch_up clock2 counter1 fuel counter2)
unfolding catch_up
catch_up-CaughtUp clock2 counter1 zero counter2 p m f l =
    if_rule (CaughtUp clock2 counter1 counter2) (ltb counter2 counter1)
      (λ h. absurd (omega (arith, ltb→lt counter2 counter1 h))) (λ _. no_round (omega arith) l)
catch_up-CaughtUp clock2 counter1 (suc fuel) counter2 p m f l =
    if_rule (CaughtUp clock2 counter1 counter2) (ltb counter2 counter1)
      (λ h.
        let less = ltb→lt counter2 counter1 h in
        one_round (
          subst
            (λ s. CaughtUp clock2 counter1 (counter2 + clock2) (catch_up clock2 counter1 fuel s))
            (u64_small (counter2 + clock2) (omega (arith, less)))
            (catch_up-CaughtUp clock2 counter1 fuel (counter2 + clock2) p m (omega arith)
              (omega (arith, less)))))
      (λ h. no_round (ground arith) l)

abbrev add_calls : ℕ → Option (ClockDomainCrosser × ℕ) → Option (ClockDomainCrosser × ℕ)
add_calls calls none = none
add_calls calls (some (y, k)) = some (y, calls + k)

abbrev next_update : Option (ClockDomainCrosser × ℕ) → Option (ClockDomainCrosser × ℕ)
next_update none = none
next_update (some (y, calls)) = add_calls calls (update y)

-- `n` updates in turn, and the number of calls that they make together.
unfoldable pub run : ℕ → ClockDomainCrosser → Option (ClockDomainCrosser × ℕ)
run zero x = some (x, 0)
run (suc n) x = next_update (run n x)

-- After `n` updates with `calls` calls.
record Balanced (clock1 clock2 n : ℕ) (x : ClockDomainCrosser) (calls : ℕ) : Type 0 where
  same1 : x.clock1 ≡ clock1
  same2 : x.clock2 ≡ clock2
  called : x.callback ≡ true
  balance : calls * clock2 + x.counter1 ≡ n * clock1 + x.counter2
  behind : x.counter1 ≤ x.counter2
  near : x.counter2 < x.counter1 + clock2
  bound : x.counter1 ≤ n * clock1

add_mul : (t k c : ℕ) → (t + k) * c ≡ t * c + k * c
add_mul t k c = ground arith

-- Both updates of the counters, the one that starts them again included.
module _ {clock1 clock2 n calls : ℕ} (x : ClockDomainCrosser)
    (b : Balanced clock1 clock2 n x calls) where
  counted :
      {o : Option (ℕ × ℕ)} (h : CaughtUp clock2 (x.counter1 + clock1) x.counter2 o)
      → Balanced clock1 clock2
          (suc n)
          (if x.counter1 + clock1 == h.reached
            then record x { counter1 = 0; counter2 = 0 }
            else record x { counter1 = x.counter1 + clock1; counter2 = h.reached })
          (calls + h.rounds)
  counted h =
      if_rule (λ y. Balanced clock1 clock2 (suc n) y (calls + h.rounds))
        (x.counter1 + clock1 == h.reached)
        (λ e. record {
          same1 = b.same1;
          same2 = b.same2;
          called = b.called;
          balance = omega (
            arith,
            b.balance,
            h.grown,
            add_mul calls h.rounds clock2,
            suc_mul n clock1,
            (==_iff (x.counter1 + clock1) h.reached).0 e,
          );
          behind = omega arith;
          near = omega (arith, b.near);
          bound = omega arith;
        })
        (λ _. record {
          same1 = b.same1;
          same2 = b.same2;
          called = b.called;
          balance =
              omega (arith, b.balance, h.grown, add_mul calls h.rounds clock2, suc_mul n clock1);
          behind = h.caught;
          near = h.near;
          bound = omega (arith, b.bound, suc_mul n clock1);
        })

  at_same_rate : clock1 ≡ clock2 → Balanced clock1 clock2 (suc n) x (calls + 1)
  at_same_rate e = record {
    same1 = b.same1;
    same2 = b.same2;
    called = b.called;
    balance = omega (arith, b.balance, e, add_mul calls 1 clock2, suc_mul n clock1);
    behind = b.behind;
    near = b.near;
    bound = omega (arith, b.bound, suc_mul n clock1);
  }

record Updated (clock1 clock2 n : ℕ) (x : ClockDomainCrosser) (calls : ℕ) : Type 0 where
  next : ClockDomainCrosser
  more : ℕ
  result : update x ≡ some (next, more)
  balanced : Balanced clock1 clock2 (suc n) next (calls + more)

update_loop :
    (x : ClockDomainCrosser) {n calls : ℕ} (b : Balanced x.clock1 x.clock2 n x calls)
    → (x.clock1 == x.clock2 && x.callback) ≡ false
    → CaughtUp x.clock2
        (x.counter1 + x.clock1)
        x.counter2
        (catch_up x.clock2 (x.counter1 + x.clock1) (x.counter1 + x.clock1) x.counter2)
    → x.counter1 + x.clock1 < u64_mod
    → Updated x.clock1 x.clock2 n x calls
unfolding update caught_up
update_loop x b off h m = record {
  next = _;
  more = h.rounds;
  result = rw off (
      ap (λ c. caught_up x c (catch_up x.clock2 c c x.counter2))
        (sym (u64_small (x.counter1 + x.clock1) m))
      ∙ ap (caught_up x (x.counter1 + x.clock1)) h.result
      ∙ ap
          (λ called. some (
            if x.counter1 + x.clock1 == h.reached
                then record x { counter1 = 0; counter2 = 0 }
                else record x { counter1 = x.counter1 + x.clock1; counter2 = h.reached },
            if called then h.rounds else 0,
          ))
          b.called);
  balanced = counted x b h;
}

update_lem :
    (x : ClockDomainCrosser) (n calls : ℕ)
    → 0 < x.clock2
    → suc n * x.clock1 + x.clock2 < u64_mod
    → Balanced x.clock1 x.clock2 n x calls
    → Updated x.clock1 x.clock2 n x calls
unfolding update
update_lem x n calls p m b = elim (Bool-cases (x.clock1 == x.clock2 && x.callback)) [
  | inl same ↦ record {
    next = x;
    more = 1;
    result = rw same refl;
    balanced = at_same_rate x b ((==_iff x.clock1 x.clock2).0 (and_left _ x.callback same));
  }
  | inr off ↦
      update_loop x b off
        (catch_up-CaughtUp x.clock2 (x.counter1 + x.clock1) (x.counter1 + x.clock1) x.counter2 p
          (omega (arith, m, b.bound, suc_mul n x.clock1)) (omega arith) (omega (arith, b.near)))
        (omega (arith, m, b.bound, suc_mul n x.clock1))
]
  where
    and_left : (s t : Bool) → (s && t) ≡ true → s ≡ true
    and_left true t h = refl
    and_left false t h = cc

update_any :
    (clock1 clock2 : ℕ) (x : ClockDomainCrosser) (n calls : ℕ)
    → 0 < clock2
    → suc n * clock1 + clock2 < u64_mod
    → Balanced clock1 clock2 n x calls
    → Updated clock1 clock2 n x calls
update_any clock1 clock2 x n calls p m b =
    subst (λ c. Lemma c clock2) b.same1
      (subst (λ c. Lemma x.clock1 c) b.same2 (update_lem x n calls)) p m b
  where
    Lemma : ℕ → ℕ → Type 0
    Lemma c d = 0 < d → suc n * c + d < u64_mod → Balanced c d n x calls → Updated c d n x calls

record Ran (clock1 clock2 : ℕ) (callback : Bool) (n : ℕ) : Type 0 where
  after : ClockDomainCrosser
  calls : ℕ
  result : run n (new clock1 clock2 callback) ≡ some (after, calls)
  balanced : Balanced clock1 clock2 n after calls

run-Ran :
    (clock1 clock2 n : ℕ) → 0 < clock2 → n * clock1 + clock2 < u64_mod → Ran clock1 clock2 true n
unfolding run new
run-Ran clock1 clock2 zero p m = record {
  after = new clock1 clock2 true;
  calls = 0;
  result = refl;
  balanced = record {
    same1 = refl;
    same2 = refl;
    called = refl;
    balance = omega arith;
    behind = omega arith;
    near = omega arith;
    bound = omega arith;
  };
}
run-Ran clock1 clock2 (suc n) p m =
    let before = run-Ran clock1 clock2 n p (omega (arith, m, suc_mul n clock1)) in
    let u = update_any clock1 clock2 before.after n before.calls p m before.balanced in
    record {
      after = u.next;
      calls = before.calls + u.more;
      result = ap next_update before.result ∙ ap (add_calls before.calls) u.result;
      balanced = u.balanced;
    }

-- Let the crosser have a callback, let `clock2` be positive and let `n * clock1 + clock2` be below 2 ^ 64.
-- Then `n` updates of a new crosser end, their loops included, and together they call back the least number
-- of times that is at least `n * clock1 / clock2`.
pub run_rate :
    (clock1 clock2 n : ℕ)
    → 0 < clock2
    → n * clock1 + clock2 < u64_mod
    → (after : ClockDomainCrosser) × (calls : ℕ) × (run n (new clock1 clock2 true)
        ≡ some (after, calls))
      × (n * clock1 ≤ calls * clock2)
      × (calls * clock2 < n * clock1 + clock2)
run_rate clock1 clock2 n p m =
    let r = run-Ran clock1 clock2 n p m in
    let b = r.balanced in
    (
      r.after,
      r.calls,
      r.result,
      omega (arith, b.balance, b.behind),
      omega (arith, b.balance, b.near),
    )
