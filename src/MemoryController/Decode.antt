-- ===== src/MemoryController/Decode.antt =====
-- `queueNumber` and `decodeQueue` of src/MemoryController.cpp: how many queues a queue structure
-- has, and which of them an address belongs to. A structure marks the level that gets queues of its
-- own; `memTable` has the size of each level and `addressMap` the address at each level.
use mcsim.Common.{
  ℕ, zero, suc, ◌+◌, ◌*◌, ◌≤◌, ◌<◌, ◌≡◌, refl, subst, ap, ◌∙◌, Option, none, some, List, [], ◌∷◌,
  get_elem?, ltb, u32, u32_mod, if◌then◌else◌, Outcome, ok, ◌>>=◌, defined, ◌==◌, arith,
}
use native.Mathlib.Nat.{mod-eq_of_lt}

-- The index of the first level that is marked.
unfoldable pub first_marked : List ℕ → ℕ → Option ℕ
first_marked [] index = none
first_marked (m ∷ ms) index =
    let rest = first_marked ms (index + 1) in if m == 1 then some index else rest

-- The inner loop of `queueNumber`: the first `n` levels.
count_levels : List ℕ → ℕ → ℕ → Outcome ℕ
count_levels sizes zero count = ok count
count_levels [] (suc n) count = defined none
count_levels (m ∷ sizes) (suc n) count = count_levels sizes n (u32 (count * m))

queues_at : List ℕ → Option ℕ → Outcome ℕ
queues_at mem_table none = ok 1
queues_at mem_table (some index) = count_levels mem_table (index + 1) 1

unfoldable pub queue_number : List ℕ → List ℕ → Outcome ℕ
unfolding first_marked queues_at count_levels
queue_number mem_table queue_map = queues_at mem_table (first_marked queue_map 0)

-- One round of the inner loop of `decodeQueue`.
next_level : ℕ → ℕ → ℕ
next_level level a = if ltb 0 a then (if level == 0 then a else u32 (level * a)) else level

level_loop : List ℕ → ℕ → ℕ → Outcome ℕ
level_loop addresses zero level = ok level
level_loop [] (suc n) level = defined none
level_loop (a ∷ addresses) (suc n) level = level_loop addresses n (next_level level a)

decode_at : List ℕ → List ℕ → Option ℕ → Outcome ℕ
decode_at mem_table address_map none = ok 0
decode_at mem_table address_map (some index) = do
  here ← defined (get_elem? address_map index)
  level ← level_loop address_map index 0
  size ← defined (get_elem? mem_table index)
  ok (u32 (here + level * size))

unfoldable pub decode_queue : List ℕ → List ℕ → List ℕ → Outcome ℕ
unfolding first_marked decode_at level_loop next_level
decode_queue mem_table address_map queue_map =
    decode_at mem_table address_map (first_marked queue_map 0)

-- The address has a value at every level up to the marked one, each below the level's size.
abbrev pub Fits : List ℕ → List ℕ → ℕ → Type 0
Fits (m ∷ ms) (a ∷ as') zero = a < m
Fits (m ∷ ms) (a ∷ as') (suc n) = (a < m) × Fits ms as' n
Fits _ _ _ = ⊥

-- The product of the sizes of the first `n` levels, without wrapping.
abbrev pub product : List ℕ → ℕ → ℕ
product ms zero = 1
product [] (suc n) = 1
product (m ∷ ms) (suc n) = m * product ms n

product_pos : (ms as' : List ℕ) (n : ℕ) → Fits ms as' n → 0 < product ms (suc n)
product_pos [] as' n f = elim f [ ]
product_pos (m ∷ ms) [] n f = elim f [ ]
product_pos (m ∷ ms) (a ∷ as') zero f = omega arith
product_pos (m ∷ ms) (a ∷ as') (suc n) f = grind (arith, product_pos ms as' n f.1)

factor_lt : (x y m : ℕ) → x * y < m → 0 < y → x < m
factor_lt x (suc y) m h k = omega (arith, h)
factor_lt x zero m h k = elim k [ ]

count_levels-product :
    (ms as' : List ℕ) (n count : ℕ)
    → Fits ms as' n
    → count * product ms (suc n) < u32_mod
    → count_levels ms (suc n) count ≡ ok (count * product ms (suc n))
unfolding count_levels
count_levels-product [] as' n count f h = elim f [ ]
count_levels-product (m ∷ ms) [] n count f h = elim f [ ]
count_levels-product (m ∷ ms) (a ∷ as') zero count f h = ap ok (omega (arith, h))
count_levels-product (m ∷ ms) (a ∷ as') (suc n) count f h =
    let whole : (count * m) * product ms (suc n) < u32_mod = omega (arith, h) in
    let fits =
      factor_lt (count * m) (product ms (suc n)) u32_mod whole (product_pos ms as' n f.1) in
    let same : u32 (count * m) ≡ count * m = mod-eq_of_lt fits in
    rw same (count_levels-product ms as' n (count * m) f.1 whole ∙ ap ok (omega arith))

next_level-lt : (level a p m : ℕ) → level < p → a < m → next_level level a < p * m
unfolding next_level
next_level-lt level a p m h k = grind arith

-- What `decodeQueue` reads and computes, below a bound `p` for the level so far.
record Decoded (ms as' : List ℕ) (n level p : ℕ) : Type 0 where
  here : ℕ
  size : ℕ
  last : ℕ
  read_here : get_elem? as' n ≡ some here
  read_size : get_elem? ms n ≡ some size
  looped : level_loop as' n level ≡ ok last
  here_lt : here < size
  bound : last * size + size ≤ p * product ms (suc n)

decoded : (ms as' : List ℕ) (n level p : ℕ) → Fits ms as' n → level < p → Decoded ms as' n level p
unfolding level_loop
decoded [] as' n level p f h = elim f [ ]
decoded (m ∷ ms) [] n level p f h = elim f [ ]
decoded (m ∷ ms) (a ∷ as') zero level p f h = record {
  here = a;
  size = m;
  last = level;
  read_here = refl;
  read_size = refl;
  looped = refl;
  here_lt = f;
  bound = grind arith;
}
decoded (m ∷ ms) (a ∷ as') (suc n) level p f h =
    let d = decoded ms as' n (next_level level a) (p * m) f.1 (next_level-lt level a p m h f.0) in
    record {
      here = d.here;
      size = d.size;
      last = d.last;
      read_here = d.read_here;
      read_size = d.read_size;
      looped = d.looped;
      here_lt = d.here_lt;
      bound = omega (arith, d.bound);
    }

-- The address is in range at each level that the structure looks at.
abbrev pub FitsMarked : List ℕ → List ℕ → Option ℕ → Type 0
FitsMarked ms as' none = Unit
FitsMarked ms as' (some index) = Fits ms as' index

-- The number of queues does not wrap around.
abbrev pub NoWrap : List ℕ → Option ℕ → Type 0
NoWrap ms none = Unit
NoWrap ms (some index) = product ms (index + 1) < u32_mod

decode_at-lt :
    (ms as' : List ℕ) (marked : Option ℕ)
    → FitsMarked ms as' marked
    → NoWrap ms marked
    → (k : ℕ) × (n : ℕ) × (decode_at ms as' marked ≡ ok k) × (queues_at ms marked ≡ ok n) × (k < n)
unfolding decode_at queues_at
decode_at-lt ms as' none f w = (0, 1, refl, refl, omega arith)
decode_at-lt ms as' (some index) f w =
    let d = decoded ms as' index 0 1 f (omega arith) in
    let e : index + 1 ≡ suc index = omega arith in
    let w' : 1 * product ms (suc index) < u32_mod =
      omega (arith, subst (λ k. product ms k < u32_mod) e w) in
    (
      u32 (d.here + d.last * d.size),
      1 * product ms (suc index),
      rw d.read_here (rw d.looped (rw d.read_size)),
      rw e (count_levels-product ms as' index 1 f w'),
      omega (arith, d.here_lt, d.bound),
    )

-- For an address in range, and as long as the number of queues does not wrap around, both calls are
-- defined and the queue decoded is one of the queues that the controller has made.
pub decode_queue-lt-queue_number :
    (mem_table address_map queue_map : List ℕ)
    → FitsMarked mem_table address_map (first_marked queue_map 0)
    → NoWrap mem_table (first_marked queue_map 0)
    → (k : ℕ) × (n : ℕ) × (decode_queue mem_table address_map queue_map ≡ ok k)
      × (queue_number mem_table queue_map ≡ ok n)
      × (k < n)
unfolding decode_queue queue_number
decode_queue-lt-queue_number mem_table address_map queue_map f w =
    decode_at-lt mem_table address_map (first_marked queue_map 0) f w
