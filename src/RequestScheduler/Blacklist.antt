-- ===== src/RequestScheduler/Blacklist.antt =====
-- `scheduleBLISS` of src/RequestScheduler.cpp and the policy of system/BLISS/RequestScheduler_BLISS.h over it: a
-- requestor that is served many times in a row is marked, and the others go before it. Whether a request can be
-- scheduled is the virtual `isSchedulable`, a parameter, with the state it changes.
pub mod Agreeing
pub mod Streak
use mcsim.Common.{
  ℕ, zero, suc, ◌+◌, ◌-◌, ◌%◌, Bool, true, false, not, ◌&&◌, ◌||◌, Option, none, some, List, [],
  ◌∷◌, length, get_elem?, set, ltb, if◌then◌else◌, Outcome, ok, undefined_behaviour, ◌>>=◌, ◌>>◌,
  defined, defined_if, ◌==◌, u32, u64,
}
use mcsim.Packet.{Request}
use mcsim.RequestQueue.{RequestQueue, get_request, get_request_check, remove_request}
use mcsim.RequestScheduler.{BankTable, is_row_hit, update_row_table}

abbrev pub Answer : Type 0
Answer = Option Request × RequestQueue

-- An entry of the `blacklist` array, compared with 1.
unfoldable pub is_marked : List ℕ → ℕ → Outcome Bool
is_marked marks id = do v ← defined (get_elem? marks id); ok (v == 1)

abbrev pub differs : Bool → Bool → Bool
differs a b = if a then not b else b

-- The first loop, from `index` on: the request that is there, with its index. Where none is, the code goes on
-- with the pointer of an earlier call.
unfoldable first_present : RequestQueue → ℕ → ℕ → Outcome (ℕ × Request)
first_present q index zero = undefined_behaviour
first_present q index (suc n) =
    let rest = first_present q (index + 1) n in
    (do r ← get_request_check q index; or_rest index rest r)
  where
    or_rest : ℕ → Outcome (ℕ × Request) → Option Request → Outcome (ℕ × Request)
    or_rest index rest none = rest
    or_rest index rest (some r) = ok (index, r)

module _ (marks : List ℕ) (t : BankTable) (q : RequestQueue) (id : ℕ) (req1 : Request) where
  -- What is compared once the marks agree, with `hit_1` and `hit_2`; `rest` is the rounds that are left.
  unfoldable pub compare_hits :
      ℕ → Request → Bool → Bool → (Bool → Bool → Outcome Answer) → Outcome Answer
  compare_hits index req2 hit_1 hit_2 rest = do
    one ← is_row_hit t req1
    two ← is_row_hit t req2
    if differs (hit_1 || one) (hit_2 || two)
        then if hit_1 || one then get_request q id else get_request q index
        else rest (hit_1 || one) (hit_2 || two)

  -- A round of the second loop.
  unfoldable pub compare_round :
      ℕ → Bool → Bool → (Bool → Bool → Outcome Answer) → Option Request → Outcome Answer
  unfolding compare_hits
  compare_round index hit_1 hit_2 rest none = rest hit_1 hit_2
  compare_round index hit_1 hit_2 rest (some req2) = do
    one ← is_marked marks req1.requestor_id
    two ← is_marked marks req2.requestor_id
    if differs (not one) (not two)
        then get_request q index
        else compare_hits index req2 hit_1 hit_2 rest

  -- The second loop, from `index` on, with `n` rounds left.
  unfoldable pub compare_loop : ℕ → ℕ → Bool → Bool → Outcome Answer
  unfolding compare_round
  compare_loop index zero hit_1 hit_2 = get_request q id
  compare_loop index (suc n) hit_1 hit_2 = do
    r ← get_request_check q index
    compare_round index hit_1 hit_2 (compare_loop (index + 1) n) r

-- `scheduleBLISS` on one queue. `hit_1` and `hit_2` are what these variables, which the code does not set before it
-- reads them, hold at first.
unfoldable pub schedule_bliss : List ℕ → BankTable → RequestQueue → Bool → Bool → Outcome Answer
unfolding first_present compare_loop
schedule_bliss marks t q hit_1 hit_2 =
    if ltb 0 (length q.general_buffer)
    then (do
      found ← first_present q 0 (length q.general_buffer)
      compare_loop marks t q found.0 found.1 found.0 (length q.general_buffer - found.0) hit_1
          hit_2)
    else ok (none, q)

-- The fields of the policy.
pub record Streaks : Type 0 where
  pub blacklist : List ℕ
  pub last_pid : ℕ
  pub counter_streak : ℕ
  pub threshold : ℕ
  pub temporal_clock : ℕ

-- A write to the array.
unfoldable pub put : List ℕ → ℕ → ℕ → Outcome (List ℕ)
put marks p v = do defined_if (ltb p (length marks)); ok (set marks p v)

-- `clear_marking`, from `p` on, with `n` requestors left.
unfoldable pub clear_marking : ℕ → ℕ → List ℕ → Outcome (List ℕ)
unfolding put
clear_marking zero p marks = ok marks
clear_marking (suc n) p marks = do marks' ← put marks p 0; clear_marking n (p + 1) marks'

-- The constructor, with what the array holds before it and the number of requestors.
unfoldable pub new : List ℕ → ℕ → Outcome Streaks
unfolding clear_marking
new memory requestors = do
  marks ← clear_marking requestors 0 memory
  ok (record {
    blacklist = marks;
    last_pid = 4;
    counter_streak = 0;
    threshold = 4;
    temporal_clock = 0;
  })

-- What a selected request does to the streak. The loop after it, which only reads the marks, is left out.
unfoldable pub count_streak : Streaks → ℕ → Outcome Streaks
unfolding put
count_streak s id =
    if (id == s.last_pid) && ltb s.counter_streak s.threshold
    then ok (record s { counter_streak = u32 (s.counter_streak + 1); last_pid = id })
    else if (id == s.last_pid) && (s.counter_streak == s.threshold)
    then (do
      marks ← put s.blacklist id 1
      ok (record s { blacklist = marks; counter_streak = 1; last_pid = id }))
    else ok (record s { counter_streak = 1; last_pid = id })

module _ {G : Type 0} (is_schedulable : G → Request → Bool → Outcome (Bool × G)) where
  unfoldable pub take_selected :
      Streaks
      → BankTable
      → G
      → Request
      → RequestQueue
      → Outcome (RequestQueue × Streaks × BankTable × G)
  unfolding count_streak
  take_selected s t g r q = do
    s' ← count_streak s r.requestor_id
    hit ← is_row_hit t r
    answer ← is_schedulable g r hit
    if answer.0
        then (do
          q' ← remove_request q
          ok (q', s', update_row_table t r.rank r.bank r.row, answer.1))
        else ok (q, s', t, answer.1)

  unfoldable pub take_answer :
      Streaks → BankTable → G → Answer → Outcome (RequestQueue × Streaks × BankTable × G)
  unfolding take_selected
  take_answer s t g (none, q) = ok (q, s, t, g)
  take_answer s t g (some r, q) = take_selected s t g r q

  -- The loop over the queues, each with what `hit_1` and `hit_2` hold at first.
  unfoldable pub bliss_loop :
      Streaks
      → BankTable
      → G
      → List (RequestQueue × Bool × Bool)
      → Outcome (List RequestQueue × Streaks × BankTable × G)
  unfolding schedule_bliss take_answer
  bliss_loop s t g [] = ok ([], s, t, g)
  bliss_loop s t g ((q, hit_1, hit_2) ∷ queues) = do
    picked ← schedule_bliss s.blacklist t q hit_1 hit_2
    one ← take_answer s t g picked
    rest ← bliss_loop one.1 one.2 one.3 queues
    ok (one.0 ∷ rest.0, rest.1, rest.2, rest.3)

  -- `requestSchedule`, with the number of requestors in the table of the critical ones.
  unfoldable pub bliss_schedule :
      ℕ
      → Streaks
      → BankTable
      → G
      → List (RequestQueue × Bool × Bool)
      → Outcome (List RequestQueue × Streaks × BankTable × G)
  unfolding bliss_loop clear_marking
  bliss_schedule requestors s t g queues =
      let now = u64 (s.temporal_clock + 1) in
      (do
        marks ←
            if (now % 10000 == 0) && not (now == 1)
            then clear_marking requestors 0 s.blacklist
            else ok s.blacklist
        bliss_loop (record s { blacklist = marks; temporal_clock = now }) t g queues)
