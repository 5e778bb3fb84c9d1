-- ===== src/MemoryDevice/DelayLine.antt =====
-- What src/MemoryDevice.cpp makes of read data: a delay line of `tRL + tBus` cycles. A window has a slot
-- for each of the cycles to come: slot 0 is for the data that is due next.
use mcsim.Common.{
  ℕ, suc, ◌+◌, ◌≡◌, refl, ap, ap₂, ◌∙◌, Option, none, some, List, [], ◌∷◌, ◌++◌, length,
  length-append, map, length, ok, arith,
}
use mcsim.Packet.{BusPacket}
use mcsim.MemoryDevice.{count_down, due}

count_down-suc : (k : ℕ) → count_down (suc k) ≡ k
count_down-suc k = ground arith

module _ {A : Type 0} where
  abbrev pub somes : List (Option A) → List A
  somes [] = []
  somes (none ∷ w) = somes w
  somes (some p ∷ w) = p ∷ somes w

  -- The counters of the slots that are taken, from `k` on.
  abbrev pub counters : ℕ → List (Option A) → List ℕ
  counters k [] = []
  counters k (none ∷ w) = counters (suc k) w
  counters k (some p ∷ w) = k ∷ counters (suc k) w

  pub counters-append-some :
      (k : ℕ) (w : List (Option A)) (p : A)
      → counters k (w ++ some p ∷ []) ≡ counters k w ++ (length w + k) ∷ []
  counters-append-some k [] p = ap (λ n. n ∷ []) (omega arith)
  counters-append-some k (none ∷ w) p =
      counters-append-some (suc k) w p ∙ ap (λ n. counters (suc k) w ++ n ∷ []) (omega arith)
  counters-append-some k (some q ∷ w) p =
      ap (λ l. k ∷ l)
        (counters-append-some (suc k) w p ∙ ap (λ n. counters (suc k) w ++ n ∷ []) (omega arith))

  pub counters-append-none :
      (k : ℕ) (w : List (Option A)) → counters k (w ++ none ∷ []) ≡ counters k w
  counters-append-none k [] = refl
  counters-append-none k (none ∷ w) = counters-append-none (suc k) w
  counters-append-none k (some q ∷ w) = ap (λ l. k ∷ l) (counters-append-none (suc k) w)

  pub somes-append-some :
      (w : List (Option A)) (p : A) → somes (w ++ some p ∷ []) ≡ somes w ++ p ∷ []
  somes-append-some [] p = refl
  somes-append-some (none ∷ w) p = somes-append-some w p
  somes-append-some (some q ∷ w) p = ap (λ l. q ∷ l) (somes-append-some w p)

  pub somes-append-none : (w : List (Option A)) → somes (w ++ none ∷ []) ≡ somes w
  somes-append-none [] = refl
  somes-append-none (none ∷ w) = somes-append-none w
  somes-append-none (some q ∷ w) = ap (λ l. q ∷ l) (somes-append-none w)

  counters-count_down :
      (k : ℕ) (w : List (Option A)) → map count_down (counters (suc k) w) ≡ counters k w
  counters-count_down k [] = refl
  counters-count_down k (none ∷ w) = counters-count_down (suc k) w
  counters-count_down k (some p ∷ w) =
      ap₂ (λ n l. n ∷ l) (count_down-suc k) (counters-count_down (suc k) w)

  -- The first counter and packet of a window, if there is one.
  data First (k : ℕ) (w : List (Option A)) : Type 0 where
    empty : somes w ≡ [] → ((j : ℕ) → counters j w ≡ []) → First k w
    first :
        (n : ℕ) (ns : List ℕ) (p : A) (ps : List A)
        → counters k w ≡ (k + n) ∷ ns
        → somes w ≡ p ∷ ps
        → First k w

  first_of : (k : ℕ) (w : List (Option A)) → First k w
  first_of k [] = empty refl (λ _. refl)
  first_of k (some p ∷ w) =
      first 0 (counters (suc k) w) p (somes w) (ap (λ n. n ∷ counters (suc k) w) (omega arith)) refl
  first_of k (none ∷ w) = later (first_of (suc k) w)
    where
      later : First (suc k) w → First k (none ∷ w)
      later (empty s c) = empty s (λ j. c (suc j))
      later (first n ns p ps c s) = first (suc n) ns p ps (c ∙ ap (λ m. m ∷ ns) (omega arith)) s

-- The slot that comes out when one comes in.
pub first_slot :
    {A : Type 0} (w : List A) (y : A)
    → (x : A) × (w' : List A) × (w ++ y ∷ [] ≡ x ∷ w') × (length w' ≡ length w)
first_slot [] y = (y, [], refl, refl)
first_slot (x ∷ w) y = (x, w ++ y ∷ [], refl, omega (arith, length-append w (y ∷ [])))

-- The first slot's data is due, and the other slots move up.
pub due-window :
    (x : Option BusPacket) (w : List (Option BusPacket))
    → due (counters 1 (x ∷ w)) (somes (x ∷ w)) ≡ ok (x, counters 1 w, somes w)
unfolding due
due-window (some p) w = rw (counters-count_down 1 w) refl
due-window none w = by_first (first_of 1 w)
  where
    by_first : First 1 w → due (counters 2 w) (somes w) ≡ ok (none, counters 1 w, somes w)
    by_first (empty s c) = rw s (rw (c 2) (rw (c 1) refl))
    by_first (first n ns p ps c s) = rw s (rw (counters-count_down 1 w) (rw c (ground arith)))
