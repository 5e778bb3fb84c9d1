-- ===== src/ClockDomain.antt =====
-- src/ClockDomain.cpp: the crosser that calls the memory's update at `clock1 / clock2` of the rate of
-- its own updates. The callback is kept as whether there is one, and an update's result tells how
-- often it is called. The constructor that approximates a ratio by floating point is left out.
pub mod Ratio
use mcsim.Common.{
  ℕ, zero, suc, ◌+◌, Bool, true, ◌&&◌, Option, none, some, ltb, u64, if◌then◌else◌, ◌==◌,
}

pub record ClockDomainCrosser : Type 0 where
  pub callback : Bool
  pub clock1 : ℕ
  pub clock2 : ℕ
  pub counter1 : ℕ
  pub counter2 : ℕ

unfoldable pub new : (clock1 clock2 : ℕ) → Bool → ClockDomainCrosser
new clock1 clock2 callback = record {
  callback = callback;
  clock1 = clock1;
  clock2 = clock2;
  counter1 = 0;
  counter2 = 0;
}

abbrev pub one_more {ℓ} : {A : Type ℓ} → Option (A × ℕ) → Option (A × ℕ)
one_more none = none
one_more (some (a, n)) = some (a, suc n)

-- The loop of `update`: the second counter and the rounds made, or none if `fuel` rounds are not
-- enough.
unfoldable pub catch_up : (clock2 counter1 fuel counter2 : ℕ) → Option (ℕ × ℕ)
catch_up clock2 counter1 zero counter2 = if ltb counter2 counter1 then none else some (counter2, 0)
catch_up clock2 counter1 (suc fuel) counter2 =
    let rest = catch_up clock2 counter1 fuel (u64 (counter2 + clock2)) in
    if ltb counter2 counter1 then one_more rest else some (counter2, 0)

-- The end of `update`, after the loop.
caught_up : ClockDomainCrosser → ℕ → Option (ℕ × ℕ) → Option (ClockDomainCrosser × ℕ)
caught_up x counter1 none = none
caught_up x counter1 (some (counter2, rounds)) = some (
  if counter1 == counter2
      then record x { counter1 = 0; counter2 = 0 }
      else record x { counter1 = counter1; counter2 = counter2 },
  if x.callback then rounds else 0,
)

-- `update`: the crosser, and the number of calls. The first counter is fuel enough for the loop,
-- since the second one grows in each round that does not wrap around.
unfoldable pub update : ClockDomainCrosser → Option (ClockDomainCrosser × ℕ)
unfolding catch_up caught_up
update x =
    if x.clock1 == x.clock2 && x.callback
    then some (x, 1)
    else (let counter1 = u64 (x.counter1 + x.clock1) in
        caught_up x counter1 (catch_up x.clock2 counter1 counter1 x.counter2))
