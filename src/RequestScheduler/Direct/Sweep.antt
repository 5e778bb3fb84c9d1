-- ===== src/RequestScheduler/Direct/Sweep.antt =====
-- What a call of the scheduler of generalScheduler/RequestScheduler_DIRECT.h takes from a queue that has a
-- buffer for each requestor.
use mcsim.Common.{
  ◌++◌, get_elem?-lt, subst, some_unique, lt→ltb, ℕ, zero, suc, ◌<◌, ◌≤◌, ◌≡◌, refl, sym, ap, ◌∙◌,
  Bool, true, false, some, List, [], ◌∷◌, ok, Outcome, arith, length, get_elem?, get_elem?-in_range,
  All, List-cases, Bool-cases, inl, inr, if◌then◌else◌, ltb, ◌==◌, ==_iff, find_or-insert, if_true,
  if_false,
}
use mcsim.Packet.{Request}
use mcsim.RequestQueue.{RequestQueue, buffer_of, get_queue_size}
use mcsim.RequestQueue.Removal.{requestor_scheduled}
use mcsim.RequestQueue.Turns.{Front, taken, remove_request_front}
use mcsim.RequestScheduler.{BankTable, update_row_table}
use mcsim.RequestScheduler.Selection.{IsConsistent, hits, is_row_hit-hits}
use mcsim.RequestScheduler.Rotation.{
  next_turn, turns, turns-lt, next_turn-lt, rotate, rotate_full, ne_eq,
}
use mcsim.RequestScheduler.Slots.Choice.{candidate_idle, candidate_front}
use mcsim.RequestScheduler.Direct.{sweep, pass_found, pass_request, serve_queue}
use mcsim.RequestScheduler.Direct.Rounds.{
  tail, Distinct, AllConsistent, one_more, ltb_zero, taken-AllConsistent,
}
use mcsim.RequestScheduler.Direct.Heads.{heads, first_of, front_at_named, heads-taken, Passes}

module _ {G : Type 0} (is_schedulable : G → Request → Bool → Outcome (Bool × G)) where
  -- Every request can be scheduled, as the command generators report.
  abbrev pub AcceptsAll : Type 0
  AcceptsAll =
      (g : G) (r : Request) (open_row : Bool)
      → (g' : G) × (is_schedulable g r open_row ≡ ok (true, g'))

  -- `n` rounds from the place `i` on: the places that they come to have lost their first request, and
  -- the others nothing.
  pub record Swept (n i : ℕ) (t : BankTable) (g : G) (q : RequestQueue) : Type 0 where
    pub table : BankTable
    pub generator : G
    pub queue : RequestQueue
    pub result :
        sweep is_schedulable n t g q i
        ≡ ok (rotate (length q.requestor_order) n i, (table, generator, queue))
    pub requests : List Request
    pub in_turn : requests ≡ heads n i q
    pub passes : Passes is_schedulable t g requests table generator
    pub same_order : queue.requestor_order ≡ q.requestor_order
    pub buffers :
        (k id : ℕ)
        → k < length q.requestor_order
        → get_elem? q.requestor_order k ≡ some id
        → buffer_of queue id ≡ (
            if ltb (turns (length q.requestor_order) i k) n
            then tail (buffer_of q id)
            else buffer_of q id)

  pass_front :
      (t : BankTable) (g g' : G) (q : RequestQueue) (place id : ℕ) (r : Request)
      (rest : List Request)
      → IsConsistent r
      → Front q place id r rest
      → is_schedulable g r (hits t r) ≡ ok (true, g')
      → pass_found is_schedulable t g (some r, requestor_scheduled q id 0)
        ≡ ok (update_row_table t r.address_map.rank r.address_map.bank r.row, g', taken q id rest)
  unfolding pass_found pass_request
  pass_front t g g' q place id r rest c f e =
      rw (is_row_hit-hits t r c) (rw e (rw (remove_request_front q place id r rest f) refl))

  -- A place that has nobody waiting.
  sweep_idle :
      (n i : ℕ) (t : BankTable) (g : G) (q : RequestQueue) (id : ℕ)
      → i < length q.requestor_order
      → n < length q.requestor_order
      → get_elem? q.requestor_order i ≡ some id
      → buffer_of q id ≡ []
      → Distinct q
      → Swept n (next_turn (length q.requestor_order) i) t g q
      → Swept (suc n) i t g q
  unfolding sweep get_queue_size
  sweep_idle n i t g q id hi hn named empty d s = record {
    table = s.table;
    generator = s.generator;
    queue = s.queue;
    result = rw (candidate_idle q i id named empty) s.result;
    requests = s.requests;
    in_turn =
        s.in_turn
        ∙ ap (λ l. l ++ heads n (next_turn (length q.requestor_order) i) q)
            (sym (front_at_named q i id named ∙ ap first_of empty));
    passes = s.passes;
    same_order = s.same_order;
    buffers = λ k j hk at.
        one_more (length q.requestor_order) n i k (buffer_of q j) (buffer_of q j)
          (buffer_of s.queue j) hi hn hk (nothing_lost k j at) (s.buffers k j hk at);
  }
    where
      nothing_lost :
          (k j : ℕ)
          → get_elem? q.requestor_order k ≡ some j
          → buffer_of q j ≡ (if k == i then tail (buffer_of q j) else buffer_of q j)
      nothing_lost k j at = elim (Bool-cases (k == i)) [
        | inl same ↦
            let own : j ≡ id =
              some_unique (get_elem? q.requestor_order k) at
                (ap (get_elem? q.requestor_order) ((==_iff k i).0 same) ∙ named) in
            let none_left : buffer_of q j ≡ [] = ap (buffer_of q) own ∙ empty in
            none_left
            ∙ sym (ap tail none_left)
            ∙ sym (if_true (k == i) (tail (buffer_of q j)) (buffer_of q j) same)
        | inr other ↦ sym (if_false (k == i) (tail (buffer_of q j)) (buffer_of q j) other)
      ]

  -- A place whose requestor has a request waiting.
  sweep_front :
      (n i : ℕ) (t : BankTable) (g : G) (q : RequestQueue) (id : ℕ) (r : Request)
      (rest : List Request)
      → i < length q.requestor_order
      → n < length q.requestor_order
      → Front q i id r rest
      → Distinct q
      → IsConsistent r
      → AcceptsAll
      → ((t' : BankTable) (g' : G)
          → Swept n (next_turn (length q.requestor_order) i) t' g' (taken q id rest))
      → Swept (suc n) i t g q
  unfolding sweep get_queue_size
  sweep_front n i t g q id r rest hi hn f d c accepts later =
      let (g', e) = accepts g r (hits t r) in
      let s = later (update_row_table t r.address_map.rank r.address_map.bank r.row) g' in
      record {
        table = s.table;
        generator = s.generator;
        queue = s.queue;
        result =
            rw (candidate_front q i id r rest f)
              (rw (pass_front t g g' q i id r rest c f e) s.result);
        requests = r ∷ s.requests;
        in_turn =
            ap (λ l. r ∷ l) (s.in_turn ∙ heads-taken n i q id rest hi hn f.named d)
            ∙ ap (λ l. l ++ heads n (next_turn (length q.requestor_order) i) q)
                (sym (front_at_named q i id f.named ∙ ap first_of f.waits));
        passes = (g', e, s.passes);
        same_order = s.same_order;
        buffers = λ k j hk at.
            one_more (length q.requestor_order) n i k (buffer_of q j)
              (buffer_of (taken q id rest) j) (buffer_of s.queue j) hi hn hk (first_lost k j at)
              (s.buffers k j hk at);
      }
    where
      first_lost :
          (k j : ℕ)
          → get_elem? q.requestor_order k ≡ some j
          → buffer_of (taken q id rest) j ≡ (if k == i then tail (buffer_of q j) else buffer_of q j)
      first_lost k j at = elim (Bool-cases (k == i)) [
        | inl same ↦
            let own : j ≡ id =
              some_unique (get_elem? q.requestor_order k) at
                (ap (get_elem? q.requestor_order) ((==_iff k i).0 same) ∙ f.named) in
            find_or-insert q.requestor_buffer id rest j []
            ∙ if_true (j == id) rest (buffer_of q j) ((==_iff j id).1 own)
            ∙ sym (ap tail (ap (buffer_of q) own ∙ f.waits))
            ∙ sym (if_true (k == i) (tail (buffer_of q j)) (buffer_of q j) same)
        | inr other ↦
            find_or-insert q.requestor_buffer id rest j []
            ∙ if_false (j == id) rest (buffer_of q j) (other_id k j at other)
            ∙ sym (if_false (k == i) (tail (buffer_of q j)) (buffer_of q j) other)
      ]
        where
          other_id :
              (k j : ℕ)
              → get_elem? q.requestor_order k ≡ some j
              → (k == i) ≡ false
              → (j == id) ≡ false
          other_id k j at other = elim (Bool-cases (j == id)) [
            | inl same ↦
                absurd (ne_eq k i other (d k i id (at ∙ ap some ((==_iff j id).0 same)) f.named))
            | inr o ↦ o
          ]

  sweep-Swept :
      (n i : ℕ) (t : BankTable) (g : G) (q : RequestQueue)
      → AcceptsAll
      → i < length q.requestor_order
      → n ≤ length q.requestor_order
      → Distinct q
      → AllConsistent q
      → Swept n i t g q
  unfolding sweep
  sweep-Swept zero i t g q accepts hi hn d c = record {
    table = t;
    generator = g;
    queue = q;
    result = refl;
    requests = [];
    in_turn = refl;
    passes = (refl, refl);
    same_order = refl;
    buffers = λ k j hk at. sym (
        if_false (ltb (turns (length q.requestor_order) i k) 0) (tail (buffer_of q j))
          (buffer_of q j) (ltb_zero (turns (length q.requestor_order) i k)));
  }
  sweep-Swept (suc n) i t g q accepts hi hn d c =
      let (id, named) = get_elem?-in_range q.requestor_order i hi in
      elim (List-cases (buffer_of q id)) [
        | inl empty ↦ sweep_idle n i t g q id hi (omega arith) named empty d (
            sweep-Swept n (next_turn (length q.requestor_order) i) t g q accepts
              (next_turn-lt (length q.requestor_order) i hi) (omega arith) d c)
        | inr (r, rest, e) ↦
            let f : Front q i id r rest = record { named = named; waits = e } in
            sweep_front n i t g q id r rest hi (omega arith) f d
              (subst (All IsConsistent) e (c id)).0 accepts
              (λ t' g'.
                sweep-Swept n (next_turn (length q.requestor_order) i) t' g' (taken q id rest)
                  accepts (next_turn-lt (length q.requestor_order) i hi) (omega arith) d
                  (taken-AllConsistent q i id r rest f c))
      ]

  -- The call took one request of every requestor that had one, and its index is where it was.
  pub record OneOfEach (i : ℕ) (t : BankTable) (g : G) (q : RequestQueue) : Type 0 where
    pub table : BankTable
    pub generator : G
    pub queue : RequestQueue
    pub result : serve_queue is_schedulable t g q i ≡ ok (i, (table, generator, queue))
    pub passes : Passes is_schedulable t g (heads (length q.requestor_order) i q) table generator
    pub same_order : queue.requestor_order ≡ q.requestor_order
    pub lost :
        (k id : ℕ)
        → get_elem? q.requestor_order k ≡ some id
        → buffer_of queue id ≡ tail (buffer_of q id)

  -- A queue with a buffer for each requestor, at least one requestor and none in two places, where every
  -- request can be scheduled and has the rank that its address map has. The call is defined. The
  -- oldest requests of the requestors that have one are scheduled, in cyclic order from the requestor
  -- that the index names, each with its row-hit test, and their rows are entered as open. Every
  -- requestor's buffer has lost its oldest request, if it had one, and the index is the same again.
  pub serve_queue-OneOfEach :
      (i : ℕ) (t : BankTable) (g : G) (q : RequestQueue)
      → AcceptsAll
      → q.per_requestor_enable ≡ true
      → i < length q.requestor_order
      → Distinct q
      → AllConsistent q
      → OneOfEach i t g q
  unfolding serve_queue get_queue_size
  serve_queue-OneOfEach i t g q accepts kind hi d c =
      let size = length q.requestor_order in
      let s = sweep-Swept size i t g q accepts hi (omega arith) d c in
      record {
        table = s.table;
        generator = s.generator;
        queue = s.queue;
        result =
            if_true q.per_requestor_enable _ _ kind
            ∙ s.result
            ∙ ap (λ j. ok (j, (s.table, s.generator, s.queue))) (rotate_full size i hi);
        passes = subst (λ rs. Passes is_schedulable t g rs s.table s.generator) s.in_turn s.passes;
        same_order = s.same_order;
        lost = λ k id at.
            let hk = get_elem?-lt q.requestor_order k at in
            s.buffers k id hk at
            ∙ if_true (ltb (turns size i k) size) (tail (buffer_of q id)) (buffer_of q id)
                (lt→ltb _ _ (turns-lt size i k hi hk));
      }
