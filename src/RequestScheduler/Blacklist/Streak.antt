-- ===== src/RequestScheduler/Blacklist/Streak.antt =====
-- The marks that system/BLISS/RequestScheduler_BLISS.h sets.
use mcsim.Common.{
  ℕ, zero, suc, ◌+◌, ◌%◌, ◌<◌, ◌≤◌, ◌≡◌, refl, ap, ◌∙◌, true, false, List, [], ◌∷◌, inl, inr, ok,
  arith, length, length-set, set, ltb, lt→ltb, ltb→lt, not_ltb→le, if◌then◌else◌, Bool-cases, ◌==◌,
  ==_iff, u32, Outcome, ◌>>=◌,
}
use mcsim.RequestScheduler.Blacklist.{Streaks, count_streak, put}

-- The policy's fields, with the threshold that the constructor sets.
abbrev pub state : List ℕ → ℕ → ℕ → ℕ → Streaks
state marks last count clock = record {
  blacklist = marks;
  last_pid = last;
  counter_streak = count;
  threshold = 4;
  temporal_clock = clock;
}

-- `n` requests of one requestor, one after the other.
abbrev pub count_times : ℕ → Streaks → ℕ → Outcome Streaks
count_times zero s p = ok s
count_times (suc n) s p = do s' ← count_times n s p; count_streak s' p

set_twice : {A : Type 0} (l : List A) (i : ℕ) (a : A) → set (set l i a) i a ≡ set l i a
set_twice [] i a = refl
set_twice (x ∷ l) zero a = refl
set_twice (x ∷ l) (suc i) a = ap (λ l'. x ∷ l') (set_twice l i a)

eq_self : (p : ℕ) → (p == p) ≡ true
eq_self p = (==_iff p p).1 refl

module _ (p clock : ℕ) where
  count_streak_new :
      (marks : List ℕ) (last count : ℕ)
      → (p == last) ≡ false
      → count_streak (state marks last count clock) p ≡ ok (state marks p 1 clock)
  unfolding count_streak
  count_streak_new marks last count e = rw e refl

  count_streak_more :
      (marks : List ℕ) (count : ℕ)
      → count < 4
      → count_streak (state marks p count clock) p ≡ ok (state marks p (suc count) clock)
  unfolding count_streak
  count_streak_more marks count h =
      let one_more : u32 (count + 1) ≡ suc count = omega arith in
      rw (eq_self p, lt→ltb count 4 h) (ap (λ k. ok (state marks p k clock)) one_more)

  count_streak_mark :
      (marks : List ℕ)
      → p < length marks
      → count_streak (state marks p 4 clock) p ≡ ok (state (set marks p 1) p 1 clock)
  unfolding count_streak put
  count_streak_mark marks h = rw (eq_self p, lt→ltb p (length marks) h) refl

  abbrev pub marked_after : ℕ → List ℕ → List ℕ
  marked_after n marks = if ltb n 4 then marks else set marks p 1

  length-marked_after : (n : ℕ) (marks : List ℕ) → length (marked_after n marks) ≡ length marks
  length-marked_after n marks = elim (Bool-cases (ltb n 4)) [
    | inl e ↦ rw e refl
    | inr e ↦ rw e (length-set marks p 1)
  ]

  marked_after_next :
      (n : ℕ) (marks : List ℕ) → n % 4 < 3 → marked_after n marks ≡ marked_after (suc n) marks
  marked_after_next n marks h = elim (Bool-cases (ltb n 4)) [
    | inl e ↦
        let few : n < 4 = ltb→lt n 4 e in
        let next : suc n < 4 = omega arith in rw (e, lt→ltb (suc n) 4 next) refl
    | inr e ↦
        let many : 4 ≤ n = not_ltb→le n 4 e in
        let next : ltb (suc n) 4 ≡ false = ground arith in rw (e, next) refl
  ]

  set-marked_after :
      (n : ℕ) (marks : List ℕ)
      → n % 4 ≡ 3
      → set (marked_after n marks) p 1 ≡ marked_after (suc n) marks
  set-marked_after n marks h =
      let many : 3 ≤ n = omega arith in
      let next : ltb (suc n) 4 ≡ false = ground arith in
      elim (Bool-cases (ltb n 4)) [
        | inl e ↦ rw (e, next) refl
        | inr e ↦ rw (e, next) (set_twice marks p 1)
      ]

  -- A step of the induction: the count goes on below 4, and at 4 it starts again with the mark set.
  count_streak-after :
      (marks : List ℕ) (n : ℕ)
      → p < length marks
      → count_streak (state (marked_after n marks) p (suc (n % 4)) clock) p
        ≡ ok (state (marked_after (suc n) marks) p (suc (suc n % 4)) clock)
  count_streak-after marks n h = elim (Bool-cases (ltb (n % 4) 3)) [
    | inl low ↦
        let below : n % 4 < 3 = ltb→lt (n % 4) 3 low in
        let count : suc (n % 4) ≡ suc n % 4 = omega arith in
        count_streak_more (marked_after n marks) (suc (n % 4)) (omega arith)
        ∙ ap (λ m. ok (state m p (suc (suc (n % 4))) clock)) (marked_after_next n marks below)
        ∙ ap (λ k. ok (state (marked_after (suc n) marks) p (suc k) clock)) count
    | inr high ↦
        let above : 3 ≤ n % 4 = not_ltb→le (n % 4) 3 high in
        let top : n % 4 ≡ 3 = omega arith in
        let again : 0 ≡ suc n % 4 = omega arith in
        ap (λ k. count_streak (state (marked_after n marks) p (suc k) clock) p) top
        ∙ count_streak_mark (marked_after n marks) (omega (arith, length-marked_after n marks))
        ∙ ap (λ m. ok (state m p 1 clock)) (set-marked_after n marks top)
        ∙ ap (λ k. ok (state (marked_after (suc n) marks) p (suc k) clock)) again
  ]

  -- A requestor that has a place in the array and is not the last one served is served `n + 1` times in a row. It
  -- is marked if these are more than four, and otherwise no mark changes; the count starts
  -- again at 1 with every fourth.
  pub count_times-marks :
      (marks : List ℕ) (last count n : ℕ)
      → (p == last) ≡ false
      → p < length marks
      → count_times (suc n) (state marks last count clock) p
        ≡ ok (state (marked_after n marks) p (suc (n % 4)) clock)
  count_times-marks marks last count zero e h = count_streak_new marks last count e
  count_times-marks marks last count (suc n) e h =
      rw (count_times-marks marks last count n e h) (count_streak-after marks n h)
