-- ===== src/RequestScheduler/OpenPage/Generate.antt =====
-- One request: `CommandGenerator_Open::commandGenerate` and `updateRowTable`.
use mcsim.Common.{
  ℕ, zero, suc, ◌+◌, ◌/◌, ◌<◌, ◌≡◌, refl, sym, ap, ◌∙◌, subst, Bool, true, false, not, Option, none,
  some, List, [], ◌∷◌, ◌++◌, append_assoc, append-nil, ◌⊎◌, Map, insert, insert_self, insert-delete,
  is_key, is_some, if◌then◌else◌, ok, arith, lt→ltb, ==_iff, ◌==◌, Option-cases, Bool-cases, inl,
  inr, if_rule,
}
use mcsim.Packet.{act, pre, BusPacket, Request, RequestType, data_read, data_write}
use mcsim.CommandGenerator.{
  CommandGenerator, cas_burst, open_row, open_generate, command_at, first_size,
}
use mcsim.RequestScheduler.{BankTable, row_of, is_row, update_row_table}
use mcsim.RequestScheduler.Selection.{hits}
use mcsim.RequestScheduler.OpenPage.{Banks, exec, exec_type, and_then, IsPlaced, Tracks}

-- A burst of CAS commands to an open row is legal and leaves the banks as they are.
exec-cas_burst :
    (r : Request) (m : Banks) (x n : ℕ) (k : RequestType)
    → r.request_type ≡ k
    → m r.bank ≡ some r.row
    → exec m (cas_burst r x n) ≡ some m
unfolding cas_burst
exec-cas_burst r m x zero k e h = refl
exec-cas_burst r m x (suc n) data_read e h =
    ground (arith, exec-cas_burst r m (x + 1) n data_read e h)
exec-cas_burst r m x (suc n) data_write e h =
    ground (arith, exec-cas_burst r m (x + 1) n data_write e h)

is_row-some : (o : Option ℕ) (row : ℕ) → is_row o row ≡ true → o ≡ some row
is_row-some none row h = cc
is_row-some (some k) row h = ap some ((==_iff k row).0 h)

-- The test of the row table is the test of the bank.
pub hits-is_row :
    (t : BankTable) (m : Banks) (r : Request)
    → ((b : ℕ) → row_of t 0 b ≡ m b)
    → IsPlaced r
    → hits t r ≡ is_row (m r.bank) r.row
unfolding hits
hits-is_row t m r rows p = if_key (Option-cases (t 0))
  where
    if_key :
        (t 0 ≡ none) ⊎ ((k : Map ℕ) × (t 0 ≡ some k))
        → (if is_key t r.address_map.rank
            then is_row (row_of t r.address_map.rank r.address_map.bank) r.row
            else false)
          ≡ is_row (m r.bank) r.row
    if_key (inl e) = rw p.mapped_rank (rw e (rw (← rows r.bank) (rw e)))
    if_key (inr (k, e)) = rw (p.mapped_rank, p.mapped_bank) (rw (← rows r.bank) (rw e))

pub exec-append :
    (m : Banks) (xs ys : List BusPacket)
    → exec m (xs ++ ys) ≡ and_then (exec m xs) (λ m'. exec m' ys)
exec-append m [] ys = refl
exec-append m (x ∷ xs) ys = step (exec_type x.bus_packet_type m x) (λ m'. exec-append m' xs ys)
  where
    step :
        (o : Option Banks)
        → ((m' : Banks) → exec m' (xs ++ ys) ≡ and_then (exec m' xs) (λ m''. exec m'' ys))
        → and_then o (λ m'. exec m' (xs ++ ys))
          ≡ and_then (and_then o (λ m'. exec m' xs)) (λ m'. exec m' ys)
    step none ih = refl
    step (some m') ih = ih m'

-- The commands that open the row, before the burst.
record Opened (m : Banks) (g : CommandGenerator) (r : Request) : Type 0 where
  left : CommandGenerator
  commands : List BusPacket
  result : open_row g r (is_row (m r.bank) r.row) ≡ ok left
  pushed : left.command_buffer ≡ g.command_buffer ++ commands
  legal : exec m commands ≡ some (insert m r.bank r.row)
  flags : (b : ℕ) → left.first b ≡ (if b == r.bank then false else g.first b)
  same_bus : left.data_bus_size ≡ g.data_bus_size

row_hit-Opened :
    (m : Banks) (g : CommandGenerator) (r : Request)
    → m r.bank ≡ some r.row
    → g.first r.bank ≡ false
    → Opened m g r
unfolding open_row
row_hit-Opened m g r e f = record {
  left = g;
  commands = [];
  result = rw e (ground arith);
  pushed = sym (append-nil g.command_buffer);
  legal = ap some (sym (insert_self m r.bank r.row e));
  flags = λ b. sym (
      if_rule (λ x. x ≡ g.first b) (b == r.bank) (λ h. rw ((==_iff b r.bank).0 h) (sym f))
        (λ _. refl));
  same_bus = refl;
}

row_miss-Opened :
    (m : Banks) (g : CommandGenerator) (r : Request) (k : ℕ)
    → m r.bank ≡ some k
    → (k == r.row) ≡ false
    → g.first r.bank ≡ false
    → r.bank < first_size
    → Opened m g r
unfolding open_row
row_miss-Opened m g r k e miss f h = record {
  left = record g {
    command_buffer = g.command_buffer ++ command_at pre r r.col ∷ command_at act r r.col ∷ [];
  };
  commands = command_at pre r r.col ∷ command_at act r r.col ∷ [];
  result = rw (e, miss, lt→ltb _ _ h, f);
  pushed = refl;
  legal = rw e (rw ((==_iff r.bank r.bank).1 refl) (ap some (insert-delete m r.bank r.row)));
  flags = λ b. sym (
      if_rule (λ x. x ≡ g.first b) (b == r.bank) (λ h. rw ((==_iff b r.bank).0 h) (sym f))
        (λ _. refl));
  same_bus = refl;
}

closed-Opened :
    (m : Banks) (g : CommandGenerator) (r : Request)
    → m r.bank ≡ none
    → g.first r.bank ≡ true
    → r.bank < first_size
    → Opened m g r
unfolding open_row
closed-Opened m g r e f h = record {
  left = record g {
    first = λ b. if b == r.bank then false else g.first b;
    command_buffer = g.command_buffer ++ command_at act r r.col ∷ [];
  };
  commands = command_at act r r.col ∷ [];
  result = rw (e, lt→ltb _ _ h, f);
  pushed = refl;
  legal = rw e;
  flags = λ b. refl;
  same_bus = refl;
}

opened :
    (t : BankTable) (m : Banks) (g : CommandGenerator) (r : Request)
    → Tracks t g m
    → IsPlaced r
    → Opened m g r
opened t m g r tr p = elim (Option-cases (m r.bank)) [
  | inl e ↦
      closed-Opened m g r e (tr.firsts r.bank p.in_banks ∙ ap (λ o. not (is_some o)) e) p.in_banks
  | inr (k, e) ↦
      let first_eq : g.first r.bank ≡ false =
        tr.firsts r.bank p.in_banks ∙ ap (λ o. not (is_some o)) e in
      elim (Bool-cases (k == r.row)) [
        | inl hit ↦ row_hit-Opened m g r (e ∙ ap some ((==_iff k r.row).0 hit)) first_eq
        | inr miss ↦ row_miss-Opened m g r k e miss first_eq p.in_banks
      ]
]

insert_self_key : (m : Banks) (k v : ℕ) → insert m k v k ≡ some v
insert_self_key m k v = rw ((==_iff k k).1 refl)

-- What one request does to the generator and the table.
pub record Generated (t : BankTable) (m : Banks) (g : CommandGenerator) (r : Request) : Type 0 where
  pub left : CommandGenerator
  pub commands : List BusPacket
  pub result : open_generate g r (is_row (m r.bank) r.row) ≡ ok left
  pub pushed : left.command_buffer ≡ g.command_buffer ++ commands
  pub legal : exec m commands ≡ some (insert m r.bank r.row)
  pub tracks : Tracks (update_row_table t 0 r.bank r.row) left (insert m r.bank r.row)

flags_if :
    (c x : Bool) (v : ℕ) (o : Option ℕ)
    → x ≡ not (is_some o)
    → (if c then false else x) ≡ not (is_some (if c then some v else o))
flags_if true x v o h = refl
flags_if false x v o h = h

Generated-of :
    (t : BankTable) (m : Banks) (g : CommandGenerator) (r : Request)
    → Tracks t g m
    → Opened m g r
    → Generated t m g r
unfolding open_generate update_row_table
Generated-of t m g r tr o = record {
  left = record (o.left) { command_buffer = o.left.command_buffer ++ burst };
  commands = o.commands ++ burst;
  result = rw (lt→ltb _ _ tr.bus) (rw o.result);
  pushed = ap (λ cs. cs ++ burst) o.pushed ∙ append_assoc g.command_buffer o.commands burst;
  legal =
      exec-append m o.commands burst
      ∙ ap (λ s. and_then s (λ m'. exec m' burst)) o.legal
      ∙ exec-cas_burst r (insert m r.bank r.row) 0 _ r.request_type refl
          (insert_self_key m r.bank r.row);
  tracks = record {
    rows = λ b. ap (λ x. if b == r.bank then some r.row else x) (tr.rows b);
    firsts = λ b h. o.flags b ∙ flags_if (b == r.bank) (g.first b) r.row (m b) (tr.firsts b h);
    bus = subst (λ n. 0 < n) (sym o.same_bus) tr.bus;
  };
}
  where
    burst : List BusPacket
    burst = cas_burst r 0 (r.request_size / g.data_bus_size)

-- Let the row table and the generator's flags agree with the banks, and let the request be in rank 0
-- and in a bank that the generator tracks. Then commands are generated for it that are legal for the
-- banks; after them the bank has the request's row open and the other banks are as before, and the
-- updated row table and the flags agree with the banks again.
pub open_generate-Generated :
    (t : BankTable) (m : Banks) (g : CommandGenerator) (r : Request)
    → Tracks t g m
    → IsPlaced r
    → Generated t m g r
open_generate-Generated t m g r tr p = Generated-of t m g r tr (opened t m g r tr p)
