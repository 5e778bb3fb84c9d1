-- ===== src/RequestScheduler/Oldest/Earliest.antt =====
-- Which request the scheduler of system/FCFS/RequestScheduler_FCFS.h takes from a queue that has a buffer for
-- each requestor.
use mcsim.Common.{
  cons≢nil, some_unique, subst, ==_iff, ◌==◌, ℕ, zero, suc, ◌+◌, ◌<◌, ◌≤◌, ◌≡◌, refl, sym, ap, ◌∙◌,
  true, false, some, List, [], ok, arith, length, get_elem?, get_elem?-in_range, List-cases,
  Bool-cases, inl, inr, ◌⊎◌, leb, leb→le, if◌then◌else◌, ltb-suc,
}
use mcsim.Packet.{Request}
use mcsim.RequestQueue.{RequestQueue, buffer_of}
use mcsim.RequestQueue.Turns.{
  Front, get_size_at, get_size_front, Front_unique, check_request_index_front,
}
use mcsim.RequestScheduler.Slots.Choice.{IsIdle}
use mcsim.RequestScheduler.Oldest.{Check, first_waiting, compare_front, earlier_front}

-- The place of some requestor with a request waiting, and that request.
pub record Waiting (q : RequestQueue) : Type 0 where
  pub place : ℕ
  pub id : ℕ
  pub r : Request
  pub rest : List Request
  pub front : Front q place id r rest

abbrev pub check_of : {q : RequestQueue} → Waiting q → Check
check_of w = (some w.r, w.place)

-- `w` came no later than the first request in the place `k`, and before it if `k` is later.
abbrev pub Precedes : (q : RequestQueue) → Waiting q → ℕ → Type 0
Precedes q w k =
    (v : Waiting q)
    → v.place ≡ k
    → (w.r.arrive_time ≤ v.r.arrive_time) × (w.place < k → w.r.arrive_time < v.r.arrive_time)

-- The second loop over `n` places from `num` on, with `old` found before.
pub record Best (n num : ℕ) (q : RequestQueue) (old : Waiting q) : Type 0 where
  pub new : Waiting q
  pub no_later : new.r.arrive_time ≤ old.r.arrive_time
  pub from : (new.place ≡ old.place) ⊎ (num ≤ new.place)
  pub first : (k : ℕ) → num ≤ k → k < num + n → Precedes q new k
  pub result : earlier_front n q num (check_of old) ≡ ok (check_of new)

not_leb : (a b : ℕ) → leb a b ≡ false → b < a
not_leb a b h = ground arith

compare_lem :
    (q : RequestQueue) (num : ℕ) (old here : Waiting q)
    → here.place ≡ num
    → compare_front q num (check_of old)
      ≡ ok (if leb here.r.arrive_time old.r.arrive_time then check_of here else check_of old)
unfolding compare_front
compare_lem q num old here same =
    rw (← same)
      (rw (check_request_index_front q here.place here.id here.r here.rest here.front) refl)

Waiting_unique : (q : RequestQueue) (v w : Waiting q) → v.place ≡ w.place → v.r ≡ w.r
Waiting_unique q v w e =
    (Front_unique q w.place v.id w.id v.r w.r v.rest w.rest
      (subst (λ p. Front q p v.id v.r v.rest) e v.front) w.front).1

-- A claim about the places from `num` on, from one about `num` and one about those after it.
from_place :
    (P : ℕ → Type 0) (n num : ℕ)
    → P num
    → ((k : ℕ) → num + 1 ≤ k → k < num + 1 + n → P k)
    → (k : ℕ) → num ≤ k
    → k < num + suc n
    → P k
from_place P n num here later k lo hi = elim (Bool-cases (num == k)) [
  | inl same ↦ subst P ((==_iff num k).0 same) here
  | inr other ↦ later k (ne_above num k other lo) (omega arith)
]
  where
    ne_above : (a b : ℕ) → (a == b) ≡ false → a ≤ b → a + 1 ≤ b
    ne_above a b h le = ground arith

nobody :
    (q : RequestQueue) (num id : ℕ)
    → get_elem? q.requestor_order num ≡ some id
    → buffer_of q id ≡ []
    → (v : Waiting q) → v.place ≡ num
    → ⊥
nobody q num id named empty v at =
    let same : v.id ≡ id =
      some_unique (get_elem? q.requestor_order num)
        (ap (get_elem? q.requestor_order) (sym at) ∙ v.front.named) named in
    cons≢nil (sym v.front.waits ∙ ap (buffer_of q) same ∙ empty)

-- Where nobody waits, the loop goes on.
skip_place :
    (n num : ℕ) (q : RequestQueue) (old : Waiting q) (id : ℕ)
    → get_elem? q.requestor_order num ≡ some id
    → buffer_of q id ≡ []
    → Best n (num + 1) q old
    → Best (suc n) num q old
unfolding earlier_front
skip_place n num q old id named empty b = record {
  new = b.new;
  no_later = b.no_later;
  from = elim b.from [ inl e ↦ inl e | inr h ↦ inr (omega arith) ];
  first =
      from_place (Precedes q b.new) n num (λ v at. absurd (nobody q num id named empty v at))
        (λ k lo hi. b.first k lo hi);
  result = rw (get_size_at q num named) (rw empty b.result);
}

-- A request that came no later replaces the one found before.
replace_place :
    (n : ℕ) (q : RequestQueue) (old here : Waiting q)
    → leb here.r.arrive_time old.r.arrive_time ≡ true
    → Best n (here.place + 1) q here
    → Best (suc n) here.place q old
unfolding earlier_front
replace_place n q old here le b = record {
  new = b.new;
  no_later = omega (arith, b.no_later, leb→le _ _ le);
  from = elim b.from [ inl e ↦ inr (omega arith) | inr h ↦ inr (omega arith) ];
  first =
      from_place (Precedes q b.new) n here.place
        (λ v at.
          let e = ap (λ (r : Request). r.arrive_time) (Waiting_unique q v here at) in
          (
            omega (arith, b.no_later, e),
            λ below. absurd (elim b.from [ inl e ↦ omega arith | inr h ↦ omega arith ]),
          ))
        (λ k lo hi. b.first k lo hi);
  result =
      rw
        (
          get_size_front q here.place here.id here.r here.rest here.front,
          ltb-suc (length here.rest),
        )
        (rw (compare_lem q here.place old here refl, le) b.result);
}

-- One that came later does not.
keep_place :
    (n : ℕ) (q : RequestQueue) (old here : Waiting q)
    → leb here.r.arrive_time old.r.arrive_time ≡ false
    → Best n (here.place + 1) q old
    → Best (suc n) here.place q old
unfolding earlier_front
keep_place n q old here gt b = record {
  new = b.new;
  no_later = b.no_later;
  from = elim b.from [ inl e ↦ inl e | inr h ↦ inr (omega arith) ];
  first =
      from_place (Precedes q b.new) n here.place
        (λ v at.
          let e = ap (λ (r : Request). r.arrive_time) (Waiting_unique q v here at) in
          (
            omega (arith, b.no_later, e, not_leb _ _ gt),
            λ below. omega (arith, b.no_later, e, not_leb _ _ gt),
          ))
        (λ k lo hi. b.first k lo hi);
  result =
      rw
        (
          get_size_front q here.place here.id here.r here.rest here.front,
          ltb-suc (length here.rest),
        )
        (rw (compare_lem q here.place old here refl, gt) b.result);
}

pub earlier_front-Best :
    (n num : ℕ) (q : RequestQueue) (old : Waiting q)
    → num + n ≤ length q.requestor_order
    → Best n num q old
unfolding earlier_front
earlier_front-Best zero num q old fits = record {
  new = old;
  no_later = omega arith;
  from = inl refl;
  first = λ k lo hi. absurd (omega arith);
  result = refl;
}
earlier_front-Best (suc n) num q old fits =
    let (id, named) = get_elem?-in_range q.requestor_order num (omega arith) in
    elim (List-cases (buffer_of q id)) [
      | inl empty ↦
          skip_place n num q old id named empty (earlier_front-Best n (num + 1) q old (omega arith))
      | inr (r, rest, e) ↦
          let here : Waiting q = record {
            place = num;
            id = id;
            r = r;
            rest = rest;
            front = record { named = named; waits = e };
          } in
          elim (Bool-cases (leb r.arrive_time old.r.arrive_time)) [
            | inl le ↦
                replace_place n q old here le (earlier_front-Best n (num + 1) q here (omega arith))
            | inr gt ↦
                keep_place n q old here gt (earlier_front-Best n (num + 1) q old (omega arith))
          ]
    ]

-- The first loop finds some request, or nobody waits in the places that it looks at.
pub first_waiting_cases :
    (n num : ℕ) (q : RequestQueue) (check : Check)
    → num + n ≤ length q.requestor_order
    → ((w : Waiting q) × (first_waiting n q num check ≡ ok (check_of w)))
      ⊎ (((k : ℕ) → num ≤ k → k < num + n → IsIdle q k) × (first_waiting n q num check ≡ ok check))
unfolding first_waiting
first_waiting_cases zero num q check fits = inr (λ k lo hi. absurd (omega arith), refl)
first_waiting_cases (suc n) num q check fits =
    let (id, named) = get_elem?-in_range q.requestor_order num (omega arith) in
    elim (List-cases (buffer_of q id)) [
      | inr (r, rest, e) ↦
          let f : Front q num id r rest = record { named = named; waits = e } in
          inl (
            record { place = num; id = id; r = r; rest = rest; front = f },
            rw (get_size_front q num id r rest f, ltb-suc (length rest))
                (rw (check_request_index_front q num id r rest f) refl),
          )
      | inl empty ↦ elim (first_waiting_cases n (num + 1) q check (omega arith)) [
        | inl (w, e) ↦ inl (w, rw (get_size_at q num named) (rw empty e))
        | inr (idle, e) ↦ inr (
          from_place (IsIdle q) n num
              (λ id' named'.
                ap (buffer_of q) (some_unique (get_elem? q.requestor_order num) named' named)
                ∙ empty)
              idle,
          rw (get_size_at q num named) (rw empty e),
        )
      ]
    ]
