-- ===== src/RequestScheduler/Direct/Heads.antt =====
-- The requests that a call of the scheduler of generalScheduler/RequestScheduler_DIRECT.h is to take from a queue
-- that has a buffer for each requestor, and what passing them on means.
use mcsim.Common.{
  ℕ, zero, suc, ◌<◌, ◌≤◌, ◌≡◌, refl, sym, ap, ap₂, ◌∙◌, Bool, true, Option, none, some, List, [],
  ◌∷◌, ◌++◌, ok, Outcome, arith, length, get_elem?, get_elem?-in_range, ◌==◌, ==_iff, Bool-cases,
  inl, inr, find_or-insert, if_false, false,
}
use mcsim.Packet.{Request}
use mcsim.RequestQueue.{RequestQueue, buffer_of}
use mcsim.RequestQueue.Turns.{taken}
use mcsim.RequestScheduler.{BankTable, update_row_table}
use mcsim.RequestScheduler.Selection.{hits}
use mcsim.RequestScheduler.Direct.Rounds.{Distinct}
use mcsim.RequestScheduler.Rotation.{
  next_turn, turns, turns_self, next_turn-lt, turns-next_turn, turns-next_turn_self, ne_eq,
}

abbrev pub first_of : List Request → List Request
first_of [] = []
first_of (r ∷ rs) = r ∷ []

abbrev first_at : RequestQueue → Option ℕ → List Request
first_at q none = []
first_at q (some id) = first_of (buffer_of q id)

-- The oldest request of the requestor in a place, if it has one.
abbrev pub front_at : RequestQueue → ℕ → List Request
front_at q place = first_at q (get_elem? q.requestor_order place)

-- Those of the `n` places from `i` on, in cyclic order.
abbrev pub heads : ℕ → ℕ → RequestQueue → List Request
heads zero i q = []
heads (suc n) i q = front_at q i ++ heads n (next_turn (length q.requestor_order) i) q

pub front_at_named :
    (q : RequestQueue) (place id : ℕ)
    → get_elem? q.requestor_order place ≡ some id
    → front_at q place ≡ first_of (buffer_of q id)
front_at_named q place id e = ap (first_at q) e

-- The heads depend only on the places that are visited.
heads_same :
    (n i : ℕ) (q q' : RequestQueue)
    → i < length q.requestor_order
    → n ≤ length q.requestor_order
    → q'.requestor_order ≡ q.requestor_order
    → ((k : ℕ)
        → k < length q.requestor_order
        → turns (length q.requestor_order) i k < n
        → front_at q' k ≡ front_at q k)
    → heads n i q' ≡ heads n i q
heads_same zero i q q' hi hn order same = refl
heads_same (suc n) i q q' hi hn order same =
    ap₂ (λ xs ys. xs ++ ys) (same i hi (omega (arith, turns_self (length q.requestor_order) i)))
      (ap (λ l. heads n (next_turn (length l) i) q') order
        ∙ heads_same n (next_turn (length q.requestor_order) i) q q'
            (next_turn-lt (length q.requestor_order) i hi) (omega arith) order
            (λ k hk near. same k hk (later k hk near)))
  where
    later :
        (k : ℕ)
        → k < length q.requestor_order
        → turns (length q.requestor_order) (next_turn (length q.requestor_order) i) k < n
        → turns (length q.requestor_order) i k < suc n
    later k hk near = elim (Bool-cases (i == k)) [
      | inl same ↦ absurd (
          omega (
            arith,
            near,
            ap (turns (length q.requestor_order) (next_turn (length q.requestor_order) i))
                ((==_iff i k).0 same),
            turns-next_turn_self (length q.requestor_order) i hi,
          ))
      | inr other ↦
          omega
            (arith, near, turns-next_turn (length q.requestor_order) i k hi hk (ne_eq i k other))
    ]

-- The round in the place `i` changes no other front.
pub heads-taken :
    (n i : ℕ) (q : RequestQueue) (id : ℕ) (rest : List Request)
    → i < length q.requestor_order
    → n < length q.requestor_order
    → get_elem? q.requestor_order i ≡ some id
    → Distinct q
    → heads n (next_turn (length q.requestor_order) i) (taken q id rest)
      ≡ heads n (next_turn (length q.requestor_order) i) q
heads-taken n i q id rest hi hn named d =
    heads_same n (next_turn (length q.requestor_order) i) q (taken q id rest)
      (next_turn-lt (length q.requestor_order) i hi) (omega arith) refl
      (λ k hk near.
        let (j, at) = get_elem?-in_range q.requestor_order k hk in
        front_at_named (taken q id rest) k j at
        ∙ ap first_of (
            find_or-insert q.requestor_buffer id rest j []
            ∙ if_false (j == id) rest (buffer_of q j) (other k j hk near at))
        ∙ sym (front_at_named q k j at))
  where
    other :
        (k j : ℕ)
        → k < length q.requestor_order
        → turns (length q.requestor_order) (next_turn (length q.requestor_order) i) k < n
        → get_elem? q.requestor_order k ≡ some j
        → (j == id) ≡ false
    other k j hk near at = elim (Bool-cases (j == id)) [
      | inl same ↦
          let e : k ≡ i = d k i id (at ∙ ap some ((==_iff j id).0 same)) named in
          absurd (
            omega (
              arith,
              near,
              ap (turns (length q.requestor_order) (next_turn (length q.requestor_order) i)) e,
              turns-next_turn_self (length q.requestor_order) i hi,
            ))
      | inr o ↦ o
    ]

module _ {G : Type 0} (is_schedulable : G → Request → Bool → Outcome (Bool × G)) where
  -- The requests are scheduled one after the other, each with the row-hit test of its turn, and their rows
  -- are entered in the table.
  abbrev pub Passes : BankTable → G → List Request → BankTable → G → Type 0
  Passes t g [] t' g' = (t ≡ t') × (g ≡ g')
  Passes t g (r ∷ rs) t' g' =
      (g₁ : G) × (is_schedulable g r (hits t r) ≡ ok (true, g₁))
      × Passes (update_row_table t r.address_map.rank r.address_map.bank r.row) g₁ rs t' g'
