-- ===== src/CommandGenerator/Shape.antt =====
-- The commands that generalScheduler/CommandGenerator_CLOSE.h makes of a request.
use mcsim.Common.{
  ℕ, zero, suc, ◌+◌, ◌*◌, ◌%◌, ◌<◌, ◌≡◌, refl, sym, ap, ◌∙◌, subst, List, [], ◌∷◌, ◌++◌, find_or,
  Map, insert, ==_iff, if_rule, if◌then◌else◌, arith, u32, u32_mod, ◌==◌, Bool, true, false, get_or,
  some, none,
}
use mcsim.Packet.{act, BusPacket, Request}
use mcsim.CommandGenerator.{
  CommandGenerator, close_generate, close_table, close_banks, close_bursts, close_cas, in_bank,
}

-- `n` pairs of an activation and a CAS with auto precharge, each for one of 16 banks and for the
-- row, the column, the requestor and the kind of the request.
abbrev pub IsPaired : Request → ℕ → List BusPacket → Type 0
IsPaired r zero [] = Unit
IsPaired r (suc n) (a ∷ c ∷ cs) =
    ((bank : ℕ) × (bank < 16)
      × (a ≡ in_bank act r bank)
      × (c ≡ in_bank (close_cas r.request_type) r bank))
    × IsPaired r n cs
IsPaired r _ _ = ⊥

zero_add_path : (m : ℕ) → m ≡ 0 + m
zero_add_path m = omega arith

suc_add : (n m : ℕ) → suc (n + m) ≡ suc n + m
suc_add n m = omega arith

zero_mul : (m : ℕ) → 0 ≡ 0 * m
zero_mul m = omega arith

IsPaired-append :
    (r : Request) (n m : ℕ) (xs ys : List BusPacket)
    → IsPaired r n xs
    → IsPaired r m ys
    → IsPaired r (n + m) (xs ++ ys)
IsPaired-append r zero m [] ys h k = subst (λ j. IsPaired r j ys) (zero_add_path m) k
IsPaired-append r zero m (x ∷ xs) ys h k = elim h [ ]
IsPaired-append r (suc n) m [] ys h k = elim h [ ]
IsPaired-append r (suc n) m (a ∷ []) ys h k = elim h [ ]
IsPaired-append r (suc n) m (a ∷ c ∷ xs) ys h k =
    subst (λ j. IsPaired r j (a ∷ c ∷ xs ++ ys)) (suc_add n m)
      (h.0, IsPaired-append r n m xs ys h.1 k)

close_bursts-IsPaired :
    (r : Request) (bank n : ℕ) → bank < 16 → IsPaired r n (close_bursts r bank n)
unfolding close_bursts
close_bursts-IsPaired r bank zero h = tt
close_bursts-IsPaired r bank (suc n) h = ((bank, h, refl, refl), close_bursts-IsPaired r bank n h)

suc_mul : (n m : ℕ) → suc n * m ≡ m + n * m
suc_mul n m = ground arith

close_banks-IsPaired :
    (r : Request) (bursts bi n : ℕ) → IsPaired r (n * bursts) (close_banks r bursts bi n)
unfolding close_banks
close_banks-IsPaired r bursts bi zero = subst (λ j. IsPaired r j []) (zero_mul bursts) tt
close_banks-IsPaired r bursts bi (suc n) =
    subst (λ j. IsPaired r j (close_banks r bursts bi (suc n))) (sym (suc_mul n bursts))
      (IsPaired-append r bursts (n * bursts) _ _
        (close_bursts-IsPaired r (u32 (r.bank + bi) % 16) bursts (omega arith))
        (close_banks-IsPaired r bursts (bi + 1) n))

abbrev pub power : ℕ → ℕ
power zero = 1
power (suc k) = 2 * power k

abbrev entry : ℕ → ℕ → ℕ × ℕ
entry bus size = find_or (close_table bus) size (0, 0)

abbrev pairs : ℕ × ℕ → ℕ
pairs e = e.0 * e.1

amount : ℕ → ℕ → ℕ
amount bus size =
    if size == u32 (bus * 16)
    then 16
    else if size == u32 (bus * 8)
    then 8
    else if size == u32 (bus * 4)
    then 4
    else if size == u32 (bus * 2)
    then 2
    else if size == bus
    then 1
    else 0

by_entry :
    (a b c d e : Bool)
    → pairs (
        get_or
          (if a
            then some (8, 2)
            else if b
            then some (8, 1)
            else if c
            then some (4, 1)
            else if d
            then some (2, 1)
            else if e
            then some (1, 1)
            else none)
          (0, 0))
      ≡ (if a then 16 else if b then 8 else if c then 4 else if d then 2 else if e then 1 else 0)
by_entry true b c d e = refl
by_entry false true c d e = refl
by_entry false false true d e = refl
by_entry false false false true e = refl
by_entry false false false false true = refl
by_entry false false false false false = refl

pairs_lem : (bus size : ℕ) → pairs (entry bus size) ≡ amount bus size
unfolding close_table amount
pairs_lem bus size = by_entry _ _ _ _ _

amount_lem :
    (bus k : ℕ) → 0 < bus → bus * 16 < u32_mod → k < 5 → amount bus (bus * power k) ≡ power k
unfolding amount
amount_lem bus zero h b l = ground arith
amount_lem bus (suc zero) h b l = ground arith
amount_lem bus (suc (suc zero)) h b l = ground arith
amount_lem bus (suc (suc (suc zero))) h b l = ground arith
amount_lem bus (suc (suc (suc (suc zero)))) h b l = ground arith
amount_lem bus (suc (suc (suc (suc (suc k))))) h b l = absurd (omega arith)

-- What a request of a size in the table adds to the generator's buffer.
pub record Cracked (g : CommandGenerator) (r : Request) (n : ℕ) : Type 0 where
  pub commands : List BusPacket
  pub pushed : (close_generate g r).command_buffer ≡ g.command_buffer ++ commands
  pub paired : IsPaired r n commands
  pub same_table :
      (size : ℕ)
      → find_or (close_generate g r).lookup_table size (0, 0) ≡ find_or g.lookup_table size (0, 0)

-- With the constructor's table, whose sizes do not wrap around, a request of 1, 2, 4, 8 or 16 bursts
-- adds to the buffer as many pairs of an activation and a CAS with auto precharge as it has bursts,
-- each pair for one of 16 banks; what the table answers does not change.
pub close_generate-Cracked :
    (g : CommandGenerator) (r : Request) (k : ℕ)
    → g.lookup_table ≡ close_table g.data_bus_size
    → 0 < g.data_bus_size
    → g.data_bus_size * 16 < u32_mod
    → k < 5
    → r.request_size ≡ g.data_bus_size * power k
    → Cracked g r (power k)
unfolding close_generate
close_generate-Cracked g r k t h b l size =
    let e : ℕ × ℕ = find_or g.lookup_table r.request_size (0, 0) in
    let same : e ≡ entry g.data_bus_size (g.data_bus_size * power k) =
      ap (λ m. find_or m r.request_size (0, 0)) t ∙ ap (entry g.data_bus_size) size in
    record {
      commands = close_banks r e.1 0 e.0;
      pushed = refl;
      paired =
          subst (λ j. IsPaired r j (close_banks r e.1 0 e.0))
            (ap pairs same
              ∙ pairs_lem g.data_bus_size (g.data_bus_size * power k)
              ∙ amount_lem g.data_bus_size k h b l)
            (close_banks-IsPaired r e.1 0 e.0);
      same_table = λ s. entered g.lookup_table r.request_size s;
    }
  where
    entered :
        (m : Map (ℕ × ℕ)) (j i : ℕ)
        → find_or (insert m j (find_or m j (0, 0))) i (0, 0) ≡ find_or m i (0, 0)
    entered m j i =
        if_rule (λ o. get_or o (0, 0) ≡ get_or (m i) (0, 0)) (i == j)
          (λ hit. ap (λ x. get_or (m x) (0, 0)) (sym ((==_iff i j).0 hit))) (λ _. refl)
