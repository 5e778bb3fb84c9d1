-- ===== src/RequestQueue/Earliest.antt =====
-- `earliestperBankperReq` of src/RequestQueue.cpp.
use mcsim.Common.{
  ◌∙◌, ◌⊎◌, ℕ, ◌≡◌, ◌≤◌, ◌<◌, refl, true, false, List, [], ◌∷◌, some, none, ok, arith, All, ltb,
  if◌then◌else◌, Bool-cases, inl, inr,
}
use mcsim.Packet.{Request}
use mcsim.RequestQueue.{
  RequestQueue, matches, first_match, improve, scan, earliest_per_bank_per_req,
}

-- Membership, for a list that the code scans.
abbrev pub Holds : Request → List Request → Type 0
Holds r [] = ⊥
Holds r (x ∷ xs) = (r ≡ x) ⊎ Holds r xs

-- Every match of a list arrives no earlier than `time`.
abbrev pub NoEarlier : ℕ → ℕ → ℕ → List Request → Type 0
NoEarlier p b time = All (λ r. matches p b r ≡ true → time ≤ r.arrive_time)

-- `temp` after one round of the second loop.
better : ℕ → ℕ → Request → Request → Request
better p b x t = if matches p b x then (if ltb x.arrive_time t.arrive_time then x else t) else t

improve-better : (p b : ℕ) (x t : Request) → improve p b x (some t) ≡ ok (some (better p b x t))
unfolding improve better
improve-better p b x t = ground arith

better_cases :
    (p b : ℕ) (x t : Request)
    → ((better p b x t ≡ x) × (matches p b x ≡ true) × (x.arrive_time < t.arrive_time))
      ⊎ ((better p b x t ≡ t) × (matches p b x ≡ true → t.arrive_time ≤ x.arrive_time))
unfolding better
better_cases p b x t = ground arith

-- `r` is what a scan of `rs` makes of `t`.
record Scanned (p b : ℕ) (rs : List Request) (t r : Request) : Type 0 where
  result : scan p b rs (some t) ≡ ok (some r)
  no_later : r.arrive_time ≤ t.arrive_time
  least : NoEarlier p b r.arrive_time rs
  found : (r ≡ t) ⊎ ((matches p b r ≡ true) × Holds r rs)

found_cons :
    (p b : ℕ) (x : Request) (rs : List Request) (t r : Request)
    → (r ≡ better p b x t) ⊎ ((matches p b r ≡ true) × Holds r rs)
    → (r ≡ t) ⊎ ((matches p b r ≡ true) × Holds r (x ∷ rs))
found_cons p b x rs t r (inr (m, h)) = inr (m, inr h)
found_cons p b x rs t r (inl e) = elim (better_cases p b x t) [
  | inl (is_x, m, _) ↦ inr (rw (e ∙ is_x) m, inl (e ∙ is_x))
  | inr (is_t, _) ↦ inl (e ∙ is_t)
]

scan_some : (p b : ℕ) (rs : List Request) (t : Request) → (r : Request) × Scanned p b rs t r
unfolding scan
scan_some p b [] t =
    (t, record { result = refl; no_later = omega arith; least = tt; found = inl refl })
scan_some p b (x ∷ rs) t =
    let (r, s) = scan_some p b rs (better p b x t) in
    (
      r,
      record {
        result = rw (improve-better p b x t) s.result;
        no_later = ground (arith, s.no_later, better_cases p b x t);
        least = (ground (arith, s.no_later, better_cases p b x t), s.least);
        found = found_cons p b x rs t r s.found;
      },
    )

scan-none :
    (p b : ℕ) (rs : List Request) → All (λ r. matches p b r ≡ false) rs → scan p b rs none ≡ ok none
unfolding scan improve
scan-none p b [] h = refl
scan-none p b (r ∷ rs) h = rw h.0 (scan-none p b rs h.1)

first_match_cases :
    (p b : ℕ) (rs : List Request)
    → ((first_match p b rs ≡ none) × All (λ r. matches p b r ≡ false) rs)
      ⊎ ((t : Request) × (first_match p b rs ≡ some t) × (matches p b t ≡ true) × Holds t rs)
unfolding first_match
first_match_cases p b [] = inl (refl, tt)
first_match_cases p b (r ∷ rs) = elim (Bool-cases (matches p b r)) [
  | inl hit ↦ inr (r, rw hit, hit, inl refl)
  | inr miss ↦ elim (first_match_cases p b rs) [
    | inl (e, h) ↦ inl (rw miss e, (miss, h))
    | inr (t, e, m, h) ↦ inr (t, rw miss e, m, inr h)
  ]
]

-- The call is always defined. It returns NULL if no request of the buffer is of the requestor `p`
-- and the bank `b`, and otherwise one that is, such that no such request arrived earlier.
pub earliest_per_bank_per_req_lem :
    (q : RequestQueue) (p b : ℕ)
    → ((earliest_per_bank_per_req q p b ≡ ok none)
        × All (λ r. matches p b r ≡ false) q.general_buffer)
      ⊎ ((r : Request) × (earliest_per_bank_per_req q p b ≡ ok (some r))
          × (matches p b r ≡ true)
          × Holds r q.general_buffer
          × NoEarlier p b r.arrive_time q.general_buffer)
unfolding earliest_per_bank_per_req
earliest_per_bank_per_req_lem q p b = elim (first_match_cases p b q.general_buffer) [
  | inl (e, h) ↦ inl (rw e (scan-none p b q.general_buffer h), h)
  | inr (t, e, m, h) ↦
      let (r, s) = scan_some p b q.general_buffer t in
      let (mr, hr) = found_in t r m h s.found in inr (r, rw e s.result, mr, hr, s.least)
]
  where
    found_in :
        (t r : Request)
        → matches p b t ≡ true
        → Holds t q.general_buffer
        → (r ≡ t) ⊎ ((matches p b r ≡ true) × Holds r q.general_buffer)
        → (matches p b r ≡ true) × Holds r q.general_buffer
    found_in t r m h (inl e) = (rw e m, rw e h)
    found_in t r m h (inr both) = both
