-- ===== src/CommandScheduler/ReadyFifo/Collect.antt =====
-- The first loop of system/DCmc/CommandScheduler_DCmc.h, which collects the commands that are ready.
use mcsim.Common.{
  ℕ, zero, suc, ◌+◌, ◌<◌, ◌≤◌, ◌≡◌, ◌≢◌, refl, sym, ap, ◌∙◌, subst, Bool, true, false, Option, none,
  some, List, [], ◌∷◌, ◌++◌, append_assoc, append-nil, Map, ok, Outcome, length, get_elem?, set,
  if◌then◌else◌, not, ◌&&◌, ap₂, get_elem?-set_self, get_elem?-set_ne, get_elem?-lt,
  get_elem?-in_range, length-set, some_unique, arith, inl, inr, Bool-cases, ==_iff, ◌==◌,
}
use mcsim.Packet.{BusPacket, type_index}
use mcsim.CommandQueue.{CommandQueue}
use mcsim.CommandScheduler.{CommandScheduler, is_ready, elapsed, timers_for}
use mcsim.CommandScheduler.CasFirst.Scan.{looked_at, marked, per_marked, holding, look_lem}
use mcsim.CommandScheduler.ReadyFifo.{
  new, none_pending, Entry, ReadyFifo, push_ready, push_if_ready, look_at, collect,
}
use mcsim.CommandScheduler.ReadyFifo.Fresh.{
  is_kind, add_if, fresh_command, fresh_at, fresh, SameFrom, fresh-same,
}
use mcsim.CommandScheduler.ReadyFifo.Pairing.{marked_front, Good, look-Good, insert-Good}

-- The queues have one buffer of each kind for all requestors, there is a flag for each queue, and each
-- ready command stands at the front that a removal from its queue would erase, with the queue's flag
-- set and no other ready command of the queue.
pub record IsPaired {D : Type 0} (f : ReadyFifo D) : Type 0 where
  pub general :
      (k : ℕ) (q : CommandQueue)
      → get_elem? f.scheduler.command_queue k ≡ some q
      → q.per_requestor_enable ≡ false
  pub same_size : length f.queue_pending ≡ length f.scheduler.command_queue
  pub good : Good f.scheduler.command_queue f.queue_pending (f.cmd_fifo ++ f.srt_fifo)

length-none_pending : (queues : List CommandQueue) → length (none_pending queues) ≡ length queues
length-none_pending [] = refl
length-none_pending (q ∷ qs) = ap suc (length-none_pending qs)

-- A new policy over such queues has nothing ready.
pub new-IsPaired :
    {D : Type 0} (s : CommandScheduler D)
    → ((k : ℕ) (q : CommandQueue)
        → get_elem? s.command_queue k ≡ some q
        → q.per_requestor_enable ≡ false)
    → IsPaired (new s)
unfolding new
new-IsPaired s general = record {
  general = general;
  same_size = length-none_pending s.command_queue;
  good = record { held = tt; apart = tt };
}

pub general_set :
    (queues : List CommandQueue) (k : ℕ) (v : CommandQueue)
    → v.per_requestor_enable ≡ false
    → ((j : ℕ) (q : CommandQueue) → get_elem? queues j ≡ some q → q.per_requestor_enable ≡ false)
    → (j : ℕ) (q : CommandQueue) → get_elem? (set queues k v) j ≡ some q
    → q.per_requestor_enable ≡ false
general_set queues k v new old j q e = elim (Bool-cases (k == j)) [
  | inl same ↦
      let at : get_elem? (set queues k v) k ≡ some q =
        ap (get_elem? (set queues k v)) ((==_iff k j).0 same) ∙ e in
      let lt : k < length queues =
        omega (arith, get_elem?-lt (set queues k v) k at, length-set queues k v) in
      ap (λ (x : CommandQueue). x.per_requestor_enable)
        (some_unique (get_elem? (set queues k v) k) at (get_elem?-set_self queues k v lt))
      ∙ new
  | inr other ↦ old j q (sym (get_elem?-set_ne queues k j v (ne_of k j other)) ∙ e)
]
  where
    ne_of : (a b : ℕ) → (a == b) ≡ false → a ≢ b
    ne_of a b h e = ground arith

front_holding :
    (q : CommandQueue) (high low : List BusPacket) (c : BusPacket)
    → looked_at (holding q high low) ≡ some c
    → marked_front (marked (holding q high low)) ≡ some c
front_holding q [] [] c e = cc
front_holding q [] (d ∷ ds) c e = e
front_holding q (d ∷ ds) low c e = e

front_marked :
    (q : CommandQueue) (c : BusPacket) → looked_at q ≡ some c → marked_front (marked q) ≡ some c
front_marked q c e = front_holding q q.hrt_buffer q.srt_buffer c e

-- Every requestor is in the table of the critical ones.
abbrev pub IsTotal : Map Bool → Type 0
IsTotal critical = (id : ℕ) → (b : Bool) × (critical id ≡ some b)

-- What a round adds is first, and then what the rest adds.
two_parts :
    (xs ys zs before after : List Entry) (l : List Entry)
    → ys ≡ xs ++ before
    → zs ≡ ys ++ after
    → l ≡ before ++ after
    → zs ≡ xs ++ l
two_parts xs ys zs before after l e1 e2 e3 =
    e2 ∙ ap (λ x. x ++ after) e1 ∙ append_assoc xs before after ∙ ap (λ x. xs ++ x) (sym e3)

module _ {D : Type 0} (critical : Map Bool) where
  -- A part of the collection that ends normally, keeps the ready commands paired, and adds `cs` to those of
  -- critical requestors and `ss` to the others.
  pub record Kept (f : ReadyFifo D) (cs ss : List Entry) (m : Outcome (ReadyFifo D)) : Type 0 where
    pub next : ReadyFifo D
    pub result : m ≡ ok next
    pub paired : IsPaired next
    pub queues : length next.scheduler.command_queue ≡ length f.scheduler.command_queue
    pub cmd : next.cmd_fifo ≡ f.cmd_fifo ++ cs
    pub srt : next.srt_fifo ≡ f.srt_fifo ++ ss

  -- A round of the loop, which leaves the queues from `k` on as they are.
  record Step (f : ReadyFifo D) (k : ℕ) (cs ss : List Entry) (m : Outcome (ReadyFifo D))
      : Type 0 where
    kept : Kept f cs ss m
    same : SameFrom k f kept.next

  abbrev relooked : ReadyFifo D → ℕ → CommandQueue → ReadyFifo D
  relooked f k q = record f {
    scheduler = record (f.scheduler) { command_queue = set f.scheduler.command_queue k q };
  }

  module _ (f : ReadyFifo D) (k : ℕ) (q : CommandQueue) (p : IsPaired f)
      (here : get_elem? f.scheduler.command_queue k ≡ some q)
      (free : get_elem? f.queue_pending k ≡ some false) where
    still_general :
        (j : ℕ) (x : CommandQueue)
        → get_elem? (set f.scheduler.command_queue k (marked q)) j ≡ some x
        → x.per_requestor_enable ≡ false
    still_general =
        general_set f.scheduler.command_queue k (marked q) (per_marked q ∙ p.general k q here)
          p.general

    relooked-IsPaired : IsPaired (relooked f k (marked q))
    relooked-IsPaired = record {
      general = still_general;
      same_size = p.same_size ∙ sym (length-set f.scheduler.command_queue k (marked q));
      good =
          look-Good f.scheduler.command_queue f.queue_pending k (marked q)
            (f.cmd_fifo ++ f.srt_fifo) free p.good;
    }

    untouched : SameFrom (k + 1) f (relooked f k (marked q))
    untouched = record {
      flags = λ j l. refl;
      queues = λ j l.
          get_elem?-set_ne f.scheduler.command_queue k j (marked q)
            (λ e. absurd (omega (arith, e, l)));
      rest = refl;
    }

    flagged :
        (b : Bool) {xs ys : List Entry}
        → SameFrom (k + 1) f (record (relooked f k (marked q)) {
          queue_pending = set f.queue_pending k b;
          cmd_fifo = xs;
          srt_fifo = ys;
        })
    flagged b = record {
      flags = λ j l. get_elem?-set_ne f.queue_pending k j b (λ e. absurd (omega (arith, e, l)));
      queues = untouched.queues;
      rest = refl;
    }

    -- The look at a queue does not change the timers that count for it.
    same_timers :
        (id : ℕ)
        → timers_for (relooked f k (marked q)).scheduler k (marked q) id
          ≡ timers_for f.scheduler k q id
    same_timers id =
        ap (λ b. if b then f.scheduler.req_cmd_queue_timer k id else f.scheduler.cmd_queue_timer k)
          (per_marked q)

    pushed :
        (c : BusPacket) (kind : Bool)
        → looked_at q ≡ some c
        → critical c.requestor_id ≡ some kind
        → Step f
            (k + 1)
            (add_if kind c k)
            (add_if (not kind) c k)
            (push_ready critical (relooked f k (marked q)) c k)
    unfolding push_ready
    pushed c true seen known = record {
      kept = record {
        cmd = refl;
        srt = sym (append-nil f.srt_fifo);
        next = record (relooked f k (marked q)) {
          queue_pending = set f.queue_pending k true;
          cmd_fifo = f.cmd_fifo ++ (c, k) ∷ [];
        };
        result = rw known refl;
        paired = record {
          general = still_general;
          same_size = omega (
            arith,
            length-set f.queue_pending k true,
            length-set f.scheduler.command_queue k (marked q),
            p.same_size,
          );
          good =
              subst (Good (set f.scheduler.command_queue k (marked q)) (set f.queue_pending k true))
                (sym (append_assoc f.cmd_fifo ((c, k) ∷ []) f.srt_fifo))
                (insert-Good f.scheduler.command_queue f.queue_pending k (marked q) c f.cmd_fifo
                  f.srt_fifo (get_elem?-lt f.scheduler.command_queue k here) free
                  (front_marked q c seen) p.good);
        };
        queues = length-set f.scheduler.command_queue k (marked q);
      };
      same = flagged true;
    }
    pushed c false seen known = record {
      kept = record {
        cmd = sym (append-nil f.cmd_fifo);
        srt = refl;
        next = record (relooked f k (marked q)) {
          queue_pending = set f.queue_pending k true;
          srt_fifo = f.srt_fifo ++ (c, k) ∷ [];
        };
        result = rw known refl;
        paired = record {
          general = still_general;
          same_size = omega (
            arith,
            length-set f.queue_pending k true,
            length-set f.scheduler.command_queue k (marked q),
            p.same_size,
          );
          good =
              subst (Good (set f.scheduler.command_queue k (marked q)) (set f.queue_pending k true))
                (append_assoc f.cmd_fifo f.srt_fifo ((c, k) ∷ []))
                (insert-Good f.scheduler.command_queue f.queue_pending k (marked q) c
                  (f.cmd_fifo ++ f.srt_fifo) [] (get_elem?-lt f.scheduler.command_queue k here) free
                  (front_marked q c seen)
                  (subst (Good f.scheduler.command_queue f.queue_pending)
                    (sym (append-nil (f.cmd_fifo ++ f.srt_fifo))) p.good));
        };
        queues = length-set f.scheduler.command_queue k (marked q);
      };
      same = flagged true;
    }

    looked :
        (o : Option BusPacket)
        → IsTotal critical
        → looked_at q ≡ o
        → Step f
            (k + 1)
            (fresh_command critical true f.scheduler k q o)
            (fresh_command critical false f.scheduler k q o)
            (push_if_ready critical (relooked f k (marked q)) o k)
    unfolding push_if_ready is_ready
    looked none total e = record {
      kept = record {
        next = relooked f k (marked q);
        result = refl;
        paired = relooked-IsPaired;
        queues = length-set f.scheduler.command_queue k (marked q);
        cmd = sym (append-nil f.cmd_fifo);
        srt = sym (append-nil f.srt_fifo);
      };
      same = untouched;
    }
    looked (some c) total e =
        let lt = get_elem?-lt f.scheduler.command_queue k here in
        let set_here = get_elem?-set_self f.scheduler.command_queue k (marked q) lt in
        let (kind, known) = total c.requestor_id in
        let ready = elapsed (
          timers_for (relooked f k (marked q)).scheduler k (marked q) c.requestor_id
            (type_index c.bus_packet_type)) in
        let here_ready =
          elapsed (timers_for f.scheduler k q c.requestor_id (type_index c.bus_packet_type)) in
        let same : ready ≡ here_ready =
          ap (λ (ts : Map ℕ). elapsed (ts (type_index c.bus_packet_type)))
            (same_timers c.requestor_id) in
        elim (Bool-cases ready) [
          | inl now ↦
              let done = pushed c kind e known in
              let new : (want : Bool)
                  → fresh_command critical want f.scheduler k q (some c)
                    ≡ add_if (is_kind want (some kind)) c k =
                λ want. ap₂ (λ b o. add_if (b && is_kind want o) c k) (sym same ∙ now) known in
              record {
                kept = record {
                  next = done.kept.next;
                  result = rw (set_here, now) done.kept.result;
                  paired = done.kept.paired;
                  queues = done.kept.queues;
                  cmd = done.kept.cmd ∙ ap (λ l. f.cmd_fifo ++ l) (sym (new true));
                  srt = done.kept.srt ∙ ap (λ l. f.srt_fifo ++ l) (sym (new false));
                };
                same = done.same;
              }
          | inr later ↦
              let nothing : (want : Bool)
                  → fresh_command critical want f.scheduler k q (some c) ≡ [] =
                λ want.
                  ap (λ b. add_if (b && is_kind want (critical c.requestor_id)) c k)
                    (sym same ∙ later) in
              record {
                kept = record {
                  next = relooked f k (marked q);
                  result = rw (set_here, later) refl;
                  paired = relooked-IsPaired;
                  queues = length-set f.scheduler.command_queue k (marked q);
                  cmd =
                      sym (append-nil f.cmd_fifo) ∙ ap (λ l. f.cmd_fifo ++ l) (sym (nothing true));
                  srt =
                      sym (append-nil f.srt_fifo) ∙ ap (λ l. f.srt_fifo ++ l) (sym (nothing false));
                };
                same = untouched;
              }
        ]

  look_at-Step :
      (f : ReadyFifo D) (k : ℕ) (q : CommandQueue)
      → IsTotal critical
      → IsPaired f
      → get_elem? f.scheduler.command_queue k ≡ some q
      → get_elem? f.queue_pending k ≡ some false
      → Step f
          (k + 1)
          (fresh_command critical true f.scheduler k q (looked_at q))
          (fresh_command critical false f.scheduler k q (looked_at q))
          (look_at critical f k)
  unfolding look_at
  look_at-Step f k q total p here free =
      let done = looked f k q p here free (looked_at q) total refl in
      record {
        kept = record {
          next = done.kept.next;
          result = rw (here, look_lem q) done.kept.result;
          paired = done.kept.paired;
          queues = done.kept.queues;
          cmd = done.kept.cmd;
          srt = done.kept.srt;
        };
        same = done.same;
      }

  fresh-suc :
      (want : Bool) (f g : ReadyFifo D) (n k : ℕ) (b : Bool) (q : CommandQueue)
      → get_elem? f.queue_pending k ≡ some b
      → get_elem? f.scheduler.command_queue k ≡ some q
      → SameFrom (k + 1) f g
      → fresh critical want f (suc n) k
        ≡ fresh_at critical want f.scheduler k (some b) (some q) ++ fresh critical want g n (k + 1)
  fresh-suc want f g n k b q flag here same =
      ap₂ (λ (x y : List Entry). x ++ y)
        (ap₂ (λ o r. fresh_at critical want f.scheduler k o r) flag here)
        (sym (fresh-same critical want f g n (k + 1) same))

  pub collect-Kept :
      (n k : ℕ) (f : ReadyFifo D)
      → IsTotal critical
      → IsPaired f
      → k + n ≤ length f.scheduler.command_queue
      → Kept f (fresh critical true f n k) (fresh critical false f n k) (collect critical n f k)
  unfolding collect
  collect-Kept zero k f total p fits = record {
    next = f;
    result = refl;
    paired = p;
    queues = refl;
    cmd = sym (append-nil f.cmd_fifo);
    srt = sym (append-nil f.srt_fifo);
  }
  collect-Kept (suc n) k f total p fits =
      let (b, flag) = get_elem?-in_range f.queue_pending k (omega (arith, p.same_size)) in
      let (q, here) = get_elem?-in_range f.scheduler.command_queue k (omega arith) in
      elim (Bool-cases b) [
        | inl waits ↦
            let rest = collect-Kept n (k + 1) f total p (omega arith) in
            let flag' = flag ∙ ap some waits in
            let same : SameFrom (k + 1) f f = record {
              flags = λ j l. refl;
              queues = λ j l. refl;
              rest = refl;
            } in
            record {
              next = rest.next;
              result = rw (flag, waits) rest.result;
              paired = rest.paired;
              queues = rest.queues;
              cmd =
                  rest.cmd
                  ∙ ap (λ l. f.cmd_fifo ++ l) (sym (fresh-suc true f f n k true q flag' here same));
              srt =
                  rest.srt
                  ∙ ap (λ l. f.srt_fifo ++ l)
                      (sym (fresh-suc false f f n k true q flag' here same));
            }
        | inr free ↦
            let flag' = flag ∙ ap some free in
            let one = look_at-Step f k q total p here flag' in
            let g = one.kept.next in
            let rest =
              collect-Kept n (k + 1) g total one.kept.paired (omega (arith, one.kept.queues)) in
            record {
              next = rest.next;
              result = rw (flag, free) (rw one.kept.result rest.result);
              paired = rest.paired;
              queues = rest.queues ∙ one.kept.queues;
              cmd =
                  two_parts f.cmd_fifo g.cmd_fifo rest.next.cmd_fifo _ _ _ one.kept.cmd rest.cmd
                    (fresh-suc true f g n k false q flag' here one.same);
              srt =
                  two_parts f.srt_fifo g.srt_fifo rest.next.srt_fifo _ _ _ one.kept.srt rest.srt
                    (fresh-suc false f g n k false q flag' here one.same);
            }
      ]
