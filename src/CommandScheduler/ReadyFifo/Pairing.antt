-- ===== src/CommandScheduler/ReadyFifo/Pairing.antt =====
-- What ties the ready commands of system/DCmc/CommandScheduler_DCmc.h to the queues that they stand in.
use mcsim.Common.{
  ℕ, ◌<◌, ◌≡◌, ◌≢◌, sym, ap, ◌∙◌, Bool, true, false, Option, some, List, [], ◌∷◌, ◌++◌, All,
  All-append, All-split, All-map, All-zip, length, get_elem?, set, get_elem?-set_self,
  get_elem?-set_ne, get_elem?-lt, some_unique,
}
use mcsim.Packet.{BusPacket}
use mcsim.CommandQueue.{CommandQueue, front, general_buffer}
use mcsim.CommandScheduler.ReadyFifo.{Entry}

-- The front of the buffer that the last look at the queue has chosen.
abbrev pub marked_front : CommandQueue → Option BusPacket
marked_front q = front (general_buffer q q.scheduled_queue)

-- The entry's command is what a removal from its queue would erase, and its queue is marked as pending.
pub record Holds (queues : List CommandQueue) (pending : List Bool) (e : Entry) : Type 0 where
  pub queue : CommandQueue
  pub here : get_elem? queues e.1 ≡ some queue
  pub at_front : marked_front queue ≡ some e.0
  pub waits : get_elem? pending e.1 ≡ some true

-- No two entries are for one queue.
abbrev pub Apart : List Entry → Type 0
Apart [] = Unit
Apart (e ∷ es) = All (λ x. x.1 ≢ e.1) es × Apart es

pub record Good (queues : List CommandQueue) (pending : List Bool) (entries : List Entry)
    : Type 0 where
  pub held : All (Holds queues pending) entries
  pub apart : Apart entries

Apart-insert :
    (xs : List Entry) (e : Entry) (ys : List Entry)
    → Apart (xs ++ ys)
    → All (λ x. x.1 ≢ e.1) (xs ++ ys)
    → Apart (xs ++ e ∷ ys)
Apart-insert [] e ys a h = (h, a)
Apart-insert (x ∷ xs) e ys a h =
    let (before, after) = All-split _ xs ys a.0 in
    (All-append _ xs (e ∷ ys) before (λ same. h.0 (sym same), after), Apart-insert xs e ys a.1 h.1)

Apart-remove :
    (xs : List Entry) (e : Entry) (ys : List Entry)
    → Apart (xs ++ e ∷ ys)
    → Apart (xs ++ ys) × All (λ x. x.1 ≢ e.1) (xs ++ ys)
Apart-remove [] e ys a = (a.1, a.0)
Apart-remove (x ∷ xs) e ys a =
    let (before, after) = All-split _ xs (e ∷ ys) a.0 in
    let (rest, others) = Apart-remove xs e ys a.1 in
    ((All-append _ xs ys before after.1, rest), (λ same. after.0 (sym same), others))

module _ (queues : List CommandQueue) (pending : List Bool) (k : ℕ) where
  -- An entry of another queue is as before.
  elsewhere :
      (q : CommandQueue) (b : Bool) (x : Entry)
      → x.1 ≢ k
      → Holds queues pending x
      → Holds (set queues k q) (set pending k b) x
  elsewhere q b x other h = record {
    queue = h.queue;
    here = get_elem?-set_ne queues k x.1 q (λ e. other (sym e)) ∙ h.here;
    at_front = h.at_front;
    waits = get_elem?-set_ne pending k x.1 b (λ e. other (sym e)) ∙ h.waits;
  }

  not_pending : get_elem? pending k ≡ some false → (x : Entry) → Holds queues pending x → x.1 ≢ k
  not_pending free x h same =
      true_ne (some_unique (get_elem? pending k) (sym (ap (get_elem? pending) same) ∙ h.waits) free)
    where
      true_ne : true ≡ false → ⊥
      true_ne e = cc

  -- A look at a queue that has no entry.
  pub look-Good :
      (q : CommandQueue) (entries : List Entry)
      → get_elem? pending k ≡ some false
      → Good queues pending entries
      → Good (set queues k q) pending entries
  look-Good q entries free g = record {
    held =
        All-map entries
          (λ x h. record {
            queue = h.queue;
            here = get_elem?-set_ne queues k x.1 q (λ e. not_pending free x h (sym e)) ∙ h.here;
            at_front = h.at_front;
            waits = h.waits;
          })
          g.held;
    apart = g.apart;
  }

  -- A ready command of such a queue gets an entry.
  pub insert-Good :
      (q : CommandQueue) (c : BusPacket) (xs ys : List Entry)
      → k < length queues
      → get_elem? pending k ≡ some false
      → marked_front q ≡ some c
      → Good queues pending (xs ++ ys)
      → Good (set queues k q) (set pending k true) (xs ++ (c, k) ∷ ys)
  insert-Good q c xs ys lt free at g =
      let others = All-map (xs ++ ys) (not_pending free) g.held in
      let kept = All-map (xs ++ ys) (λ x h. elsewhere q true x (not_pending free x h) h) g.held in
      let (before, after) = All-split _ xs ys kept in
      record {
        held = All-append _ xs ((c, k) ∷ ys) before (mine, after);
        apart = Apart-insert xs (c, k) ys g.apart others;
      }
    where
      mine : Holds (set queues k q) (set pending k true) (c, k)
      mine = record {
        queue = q;
        here = get_elem?-set_self queues k q lt;
        at_front = at;
        waits = get_elem?-set_self pending k true (get_elem?-lt pending k free);
      }

  -- The entry of a command that was sent goes.
  pub remove-Good :
      (q : CommandQueue) (c : BusPacket) (xs ys : List Entry)
      → Good queues pending (xs ++ (c, k) ∷ ys)
      → Good (set queues k q) (set pending k false) (xs ++ ys)
  remove-Good q c xs ys g =
      let (rest, others) = Apart-remove xs (c, k) ys g.apart in
      let (before, after) = All-split _ xs ((c, k) ∷ ys) g.held in
      record {
        held =
            All-zip (xs ++ ys) (λ x. elsewhere q false x) others
              (All-append _ xs ys before after.1);
        apart = rest;
      }
