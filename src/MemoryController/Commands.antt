-- ===== src/MemoryController/Commands.antt =====
-- Where `update` of src/MemoryController.cpp puts the commands that were generated.
use mcsim.Common.{
  ℕ, ◌<◌, ◌≡◌, refl, sym, ap, ◌∙◌, subst, Bool, false, some, List, [], ◌∷◌, ◌++◌, append_assoc,
  append-nil, Map, insert, find_or, find_or-insert, get_elem?, set, length, length-set,
  get_elem?-in_range, get_elem?-set_self, get_elem?-set_ne, if◌then◌else◌, Outcome, ok, ◌>>=◌, All,
  arith, u32, ◌==◌, ==_iff, Bool-cases, inl, inr, some-injective,
}
use mcsim.Packet.{BusPacket}
use mcsim.CommandQueue.{CommandQueue, insert_command}
use mcsim.CommandQueue.Lanes.{
  Lane, contents, arrivals_of, arrive, contents-insert_command, insert_command-kind,
}
use mcsim.MemoryController.State.{MemoryController}
use mcsim.MemoryController.Decode.{decode_queue}
use mcsim.MemoryController.Enqueue.{enqueue_command, enqueue_buffer, command_levels, counted}

-- What routing needs of a controller: it does not change while commands are enqueued.
pub record Routing (m m' : MemoryController) : Type 0 where
  pub same_sizes : m'.mem_table ≡ m.mem_table
  pub same_map : m'.cmd_map ≡ m.cmd_map
  pub same_clock : m'.clock_cycle ≡ m.clock_cycle
  pub same_critical :
      (id : ℕ)
      → find_or m'.requestor_critical_table id false ≡ find_or m.requestor_critical_table id false

abbrev pub route : MemoryController → BusPacket → Outcome ℕ
route m c = decode_queue m.mem_table (command_levels c) m.cmd_map

abbrev pub stamped : MemoryController → BusPacket → BusPacket
stamped m c = record c { arrive_time = u32 m.clock_cycle }

abbrev pub is_critical : MemoryController → BusPacket → Bool
is_critical m c = find_or m.requestor_critical_table c.requestor_id false

abbrev pub routed_to : Outcome ℕ → ℕ → Bool
routed_to (ok k) i = k == i
routed_to _ i = false

-- The commands, stamped with the cycle, that belong to a lane of the queue at `i`.
pub delivered : MemoryController → Bool → ℕ → Lane → List BusPacket → List BusPacket
delivered m per_requestor i l [] = []
delivered m per_requestor i l (c ∷ cs) =
    let rest = delivered m per_requestor i l cs in
    (if routed_to (route m c) i
      then arrivals_of per_requestor l (arrive (stamped m c) (is_critical m c))
      else [])
    ++ rest

-- The queue that the command decodes to is one of `n` queues.
abbrev pub IsRouted : MemoryController → ℕ → BusPacket → Type 0
IsRouted m n c = (k : ℕ) × (route m c ≡ ok k) × (k < n)

critical_kept :
    (t : Map Bool) (id j : ℕ)
    → find_or (insert t id (find_or t id false)) j false ≡ find_or t j false
critical_kept t id j = ground (arith, find_or-insert t id (find_or t id false) j false)

-- One command: where it goes, and what stays.
counted-Routing : (m : MemoryController) (c : BusPacket) → Routing m (counted m c)
unfolding counted
counted-Routing m c = record {
  same_sizes = refl;
  same_map = refl;
  same_clock = refl;
  same_critical = λ id. critical_kept m.requestor_critical_table c.requestor_id id;
}

enqueue_command_lem :
    (m : MemoryController) (queues : List CommandQueue) (c : BusPacket) (k : ℕ) (q : CommandQueue)
    → route m c ≡ ok k
    → get_elem? queues k ≡ some q
    → enqueue_command m queues c
      ≡ ok (counted m c, set queues k (insert_command q (stamped m c) (is_critical m c)))
unfolding enqueue_command
enqueue_command_lem m queues c k q e f = rw e (rw f refl)

Routing-after : {m0 m : MemoryController} (c : BusPacket) → Routing m0 m → Routing m0 (counted m c)
Routing-after {m0} {m} c r =
    let s = counted-Routing m c in
    record {
      same_sizes = s.same_sizes ∙ r.same_sizes;
      same_map = s.same_map ∙ r.same_map;
      same_clock = s.same_clock ∙ r.same_clock;
      same_critical = λ id. s.same_critical id ∙ r.same_critical id;
    }

route_kept : {m0 m : MemoryController} (c : BusPacket) → Routing m0 m → route m c ≡ route m0 c
route_kept c r = rw r.same_sizes (rw r.same_map refl)

-- What the queue at `i` has got when the commands have been enqueued from `m` on.
pub record Enqueued (m0 m : MemoryController) (queues : List CommandQueue) (cs : List BusPacket)
    (i : ℕ) (q : CommandQueue) : Type 0 where
  pub final : MemoryController
  pub final_queues : List CommandQueue
  pub final_queue : CommandQueue
  pub runs : enqueue_buffer m queues cs ≡ ok (final, final_queues)
  pub found : get_elem? final_queues i ≡ some final_queue
  pub same_number : length final_queues ≡ length queues
  pub in_order :
      (l : Lane)
      → contents final_queue l ≡ contents q l ++ delivered m0 q.per_requestor_enable i l cs

-- The queue at `i` after one command that goes to the queue at `k`.
record Placed (m0 : MemoryController) (queues : List CommandQueue) (c : BusPacket) (i : ℕ)
    (q : CommandQueue) : Type 0 where
  next : CommandQueue
  found_next : get_elem? queues i ≡ some next
  same_kind : next.per_requestor_enable ≡ q.per_requestor_enable
  appended :
      (l : Lane)
      → contents next l ≡ contents q l ++ delivered m0 q.per_requestor_enable i l (c ∷ [])

delivered_hit :
    (m : MemoryController) (b : Bool) (i : ℕ) (l : Lane) (c : BusPacket)
    → route m c ≡ ok i
    → delivered m b i l (c ∷ []) ≡ arrivals_of b l (arrive (stamped m c) (is_critical m c))
unfolding delivered
delivered_hit m b i l c e = rw e (rw ((==_iff i i).1 refl) (append-nil _))

delivered_miss :
    (m : MemoryController) (b : Bool) (k i : ℕ) (l : Lane) (c : BusPacket)
    → route m c ≡ ok k
    → (k == i) ≡ false
    → delivered m b i l (c ∷ []) ≡ []
unfolding delivered
delivered_miss m b k i l c e n = rw e (rw n refl)

arrive_kept :
    {m0 m : MemoryController} (r : Routing m0 m) (c : BusPacket)
    → arrive (stamped m c) (is_critical m c) ≡ arrive (stamped m0 c) (is_critical m0 c)
arrive_kept r c = rw r.same_clock (rw (r.same_critical c.requestor_id) refl)

Placed-hit :
    {m0 m : MemoryController} (r : Routing m0 m) (queues : List CommandQueue) (c : BusPacket)
    (i : ℕ) (q : CommandQueue)
    → route m0 c ≡ ok i
    → i < length queues
    → Placed m0 (set queues i (insert_command q (stamped m c) (is_critical m c))) c i q
Placed-hit {m0} {m} r queues c i q e lt = record {
  next = insert_command q (stamped m c) (is_critical m c);
  found_next = get_elem?-set_self queues i _ lt;
  same_kind = insert_command-kind q (stamped m c) (is_critical m c);
  appended = λ l.
      contents-insert_command q (stamped m c) (is_critical m c) l
      ∙ ap (λ a. contents q l ++ arrivals_of q.per_requestor_enable l a) (arrive_kept r c)
      ∙ sym (ap (λ a. contents q l ++ a) (delivered_hit m0 q.per_requestor_enable i l c e));
}

Placed-miss :
    {m0 : MemoryController} (queues : List CommandQueue) (c : BusPacket) (k i : ℕ)
    (q v : CommandQueue)
    → route m0 c ≡ ok k
    → (k == i) ≡ false
    → get_elem? queues i ≡ some q
    → Placed m0 (set queues k v) c i q
Placed-miss {m0} queues c k i q v e n g = record {
  next = q;
  found_next = get_elem?-set_ne queues k i v (ground arith) ∙ g;
  same_kind = refl;
  appended = λ l. sym (
      ap (λ a. contents q l ++ a) (delivered_miss m0 q.per_requestor_enable k i l c e n)
      ∙ append-nil (contents q l));
}

delivered-cons :
    (m : MemoryController) (b : Bool) (i : ℕ) (l : Lane) (c : BusPacket) (cs : List BusPacket)
    → delivered m b i l (c ∷ cs) ≡ delivered m b i l (c ∷ []) ++ delivered m b i l cs
unfolding delivered
delivered-cons m b i l c cs = ap (λ a. a ++ delivered m b i l cs) (sym (append-nil _))

-- One more command in front.
Enqueued-cons :
    {m0 m : MemoryController} {queues queues' : List CommandQueue} {c : BusPacket}
    {cs : List BusPacket} {i : ℕ} {q : CommandQueue}
    → enqueue_command m queues c ≡ ok (counted m c, queues')
    → length queues' ≡ length queues
    → (p : Placed m0 queues' c i q) → Enqueued m0 (counted m c) queues' cs i p.next
    → Enqueued m0 m queues (c ∷ cs) i q
unfolding enqueue_buffer
Enqueued-cons {m0} {m} {queues} {queues'} {c} {cs} {i} {q} e same p rest = record {
  final = rest.final;
  final_queues = rest.final_queues;
  final_queue = rest.final_queue;
  runs = ap (λ o. o >>= λ one. enqueue_buffer one.0 one.1 cs) e ∙ rest.runs;
  found = rest.found;
  same_number = rest.same_number ∙ same;
  in_order = λ l.
      rest.in_order l
      ∙ ap (λ b. contents p.next l ++ delivered m0 b i l cs) p.same_kind
      ∙ ap (λ x. x ++ delivered m0 q.per_requestor_enable i l cs) (p.appended l)
      ∙ append_assoc (contents q l) _ _
      ∙ ap (λ x. contents q l ++ x) (sym (delivered-cons m0 q.per_requestor_enable i l c cs));
}

place :
    {m0 m : MemoryController} (r : Routing m0 m) (queues : List CommandQueue) (c : BusPacket)
    (k : ℕ) (qk : CommandQueue)
    → route m0 c ≡ ok k
    → k < length queues
    → get_elem? queues k ≡ some qk
    → (i : ℕ) (q : CommandQueue) → get_elem? queues i ≡ some q
    → Placed m0 (set queues k (insert_command qk (stamped m c) (is_critical m c))) c i q
place {m0} {m} r queues c k qk e lt f i q g = elim (Bool-cases (k == i)) [
  | inl t ↦
      let eq : k ≡ i = (==_iff k i).0 t in
      let same : q ≡ qk = some-injective _ _ (sym g ∙ ap (get_elem? queues) (sym eq) ∙ f) in
      subst
        (λ j. Placed m0 (set queues k (insert_command qk (stamped m c) (is_critical m c))) c j q) eq
        (subst
          (λ x. Placed m0 (set queues k (insert_command qk (stamped m c) (is_critical m c))) c k x)
          (sym same) (Placed-hit r queues c k qk e lt))
  | inr n ↦ Placed-miss queues c k i q _ e n g
]

enqueue_from :
    {m0 : MemoryController} (cs : List BusPacket) (m : MemoryController) (r : Routing m0 m)
    (queues : List CommandQueue)
    → All (IsRouted m0 (length queues)) cs
    → (i : ℕ) (q : CommandQueue) → get_elem? queues i ≡ some q
    → Enqueued m0 m queues cs i q
unfolding enqueue_buffer delivered
enqueue_from {m0} [] m r queues h i q g = record {
  final = m;
  final_queues = queues;
  final_queue = q;
  runs = refl;
  found = g;
  same_number = refl;
  in_order = λ l. sym (append-nil (contents q l));
}
enqueue_from {m0} (c ∷ cs) m r queues ((k, e, lt), h) i q g =
    let (qk, f) = get_elem?-in_range queues k lt in
    let queues' = set queues k (insert_command qk (stamped m c) (is_critical m c)) in
    let same : length queues' ≡ length queues = length-set queues k _ in
    let p : Placed m0 queues' c i q = place r queues c k qk e lt f i q g in
    Enqueued-cons (enqueue_command_lem m queues c k qk (route_kept c r ∙ e) f) same p (
      enqueue_from cs (counted m c) (Routing-after c r) queues'
        (subst (λ n. All (IsRouted m0 n) cs) (sym same) h) i p.next p.found_next)

-- If every command decodes to one of the queues, the loop that empties the generator's buffer ends
-- normally and loses nothing: a queue at an index `i` is still there, and each of its lanes has at its end,
-- in order and stamped with the cycle, the commands that decode to `i` and belong to the lane.
pub enqueue_buffer-Enqueued :
    (m : MemoryController) (queues : List CommandQueue) (cs : List BusPacket)
    → All (IsRouted m (length queues)) cs
    → (i : ℕ) (q : CommandQueue) → get_elem? queues i ≡ some q
    → Enqueued m m queues cs i q
enqueue_buffer-Enqueued m queues cs h i q g =
    enqueue_from cs m
      (record { same_sizes = refl; same_map = refl; same_clock = refl; same_critical = λ id. refl })
      queues h i q g
