-- ===== src/CommandScheduler/ReadyFifo/Order.antt =====
-- Which of the ready commands the policy of system/DCmc/CommandScheduler_DCmc.h sends.
use mcsim.Common.{
  if_rule, arith, ◌≡◌, refl, ap, ◌∙◌, subst, Bool, true, false, ◌&&◌, ◌||◌, Option, none, some,
  List, [], ◌∷◌, ◌++◌, All, inl, inr, ◌⊎◌, Bool-cases, if_true, if_false,
}
use mcsim.CommandScheduler.{CommandScheduler, Device, is_issuable}
use mcsim.CommandScheduler.CasFirst.{is_cas_command}
use mcsim.CommandScheduler.ReadyFifo.{Entry, find, find_srt, skip}

or_false : (a b : Bool) → a || b ≡ false → (a ≡ false) × (b ≡ false)
or_false a b h = ground arith

module _ {D : Type 0} (device : Device D) (s : CommandScheduler D) where
  -- An entry that the loop goes past, where `cas` says whether a CAS command stands before it: its command
  -- cannot be issued, or is a CAS command behind another one.
  abbrev pub IsPassed : Bool → Entry → Type 0
  IsPassed cas e = (is_issuable device s e.0 ≡ false) ⊎ ((is_cas_command e.0 ≡ true) × (cas ≡ true))

  abbrev pub ArePassed : Bool → List Entry → Type 0
  ArePassed cas [] = Unit
  ArePassed cas (e ∷ es) = IsPassed cas e × ArePassed (cas || is_cas_command e.0) es

  -- The entry that is sent: a CAS command only where no CAS command stands before it.
  pub record Sends (blocked : Bool) (fifo : List Entry) (e : Entry) (rest : List Entry)
      : Type 0 where
    pub before : List Entry
    pub after : List Entry
    pub whole : fifo ≡ before ++ e ∷ after
    pub left : rest ≡ before ++ after
    pub can : is_issuable device s e.0 ≡ true
    pub passed : ArePassed blocked before
    pub cas_order :
        is_cas_command e.0 ≡ true → (blocked ≡ false) × All (λ x. is_cas_command x.0 ≡ false) before

  -- What the loop comes to.
  abbrev pub Finds : Bool → List Entry → Option (Entry × List Entry) → Type 0
  Finds blocked fifo none = ArePassed blocked fifo
  Finds blocked fifo (some (e, rest)) = Sends blocked fifo e rest

  skip-Finds :
      (blocked : Bool) (fifo : List Entry) (x : Entry) (o : Option (Entry × List Entry))
      → IsPassed blocked x
      → Finds (blocked || is_cas_command x.0) fifo o
      → Finds blocked (x ∷ fifo) (skip x o)
  skip-Finds blocked fifo x none p h = (p, h)
  skip-Finds blocked fifo x (some (e, rest)) p h = record {
    before = x ∷ h.before;
    after = h.after;
    whole = ap (λ l. x ∷ l) h.whole;
    left = ap (λ l. x ∷ l) h.left;
    can = h.can;
    passed = (p, h.passed);
    cas_order = λ cas.
        let (open_now, others) = h.cas_order cas in
        let (free, not_cas) = or_false blocked (is_cas_command x.0) open_now in
        (free, (not_cas, others));
  }

  pub find-Finds :
      (blocked : Bool) (fifo : List Entry) → Finds blocked fifo (find device s blocked fifo)
  unfolding find
  find-Finds blocked [] = tt
  find-Finds blocked ((c, i) ∷ fifo) =
      if_rule (Finds blocked ((c, i) ∷ fifo)) (is_cas_command c && blocked)
        (λ held.
          let (cas, behind) = both_true (is_cas_command c) blocked held in
          skip-Finds blocked fifo (c, i) (find device s blocked fifo) (inr (cas, behind))
            (subst (λ b. Finds b fifo (find device s blocked fifo))
              (same_or blocked (is_cas_command c) behind) (find-Finds blocked fifo)))
        (λ free.
          if_rule (Finds blocked ((c, i) ∷ fifo)) (is_issuable device s c)
            (λ can. record {
              before = [];
              after = fifo;
              whole = refl;
              left = refl;
              can = can;
              passed = tt;
              cas_order = λ cas. (free_of (is_cas_command c) blocked free cas, tt);
            })
            (λ cannot.
              skip-Finds blocked fifo (c, i) (find device s (blocked || is_cas_command c) fifo)
                (inl cannot) (find-Finds (blocked || is_cas_command c) fifo)))
    where
      both_true : (a b : Bool) → a && b ≡ true → (a ≡ true) × (b ≡ true)
      both_true a b h = ground arith

      same_or : (a b : Bool) → a ≡ true → a ≡ a || b
      same_or a b h = ground arith

      free_of : (a b : Bool) → a && b ≡ false → a ≡ true → b ≡ false
      free_of a b h k = ground arith

  -- Without CAS blocking the first command that can be issued is sent.
  pub find_srt-first :
      (fifo : List Entry)
      → ((find_srt device s fifo ≡ none) × All (λ x. is_issuable device s x.0 ≡ false) fifo)
        ⊎ ((e : Entry) × (before : List Entry) × (after : List Entry) × (find_srt device s fifo
              ≡ some (e, before ++ after))
            × (fifo ≡ before ++ e ∷ after)
            × (is_issuable device s e.0 ≡ true)
            × All (λ x. is_issuable device s x.0 ≡ false) before)
  unfolding find_srt
  find_srt-first [] = inl (refl, tt)
  find_srt-first ((c, i) ∷ fifo) = elim (Bool-cases (is_issuable device s c)) [
    | inl can ↦ inr ((c, i), [], fifo, if_true _ _ _ can, refl, can, tt)
    | inr cannot ↦ elim (find_srt-first fifo) [
      | inl (e, h) ↦ inl (if_false _ _ _ cannot ∙ ap (skip (c, i)) e, (cannot, h))
      | inr (e, before, after, found, whole, can, h) ↦ inr (
        e,
        (c, i) ∷ before,
        after,
        if_false _ _ _ cannot ∙ ap (skip (c, i)) found,
        ap (λ l. (c, i) ∷ l) whole,
        can,
        (cannot, h),
      )
    ]
  ]
