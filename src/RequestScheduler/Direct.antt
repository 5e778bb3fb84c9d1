-- ===== src/RequestScheduler/Direct.antt =====
-- generalScheduler/RequestScheduler_DIRECT.h: a request of each requestor in each call, or first-ready selection where
-- the requestors share the queue. Whether a request can be scheduled is the virtual
-- `isSchedulable`, a parameter, with the state it changes. `roundRobin_Level` is false
-- always, and the `break` that it guards is left out.
pub mod Rounds
pub mod Heads
pub mod Sweep
use mcsim.Common.{
  ℕ, zero, suc, ◌+◌, Bool, true, false, Option, none, some, List, [], ◌∷◌, length, get_elem?, set,
  ltb, if◌then◌else◌, Outcome, ok, undefined_behaviour, ◌>>=◌, defined,
}
use mcsim.Packet.{Request, AddressMap}
use mcsim.RequestQueue.{RequestQueue, get_queue_size, remove_request}
use mcsim.RequestScheduler.{BankTable, is_row_hit, update_row_table, schedule_fr}
use mcsim.RequestScheduler.Rotation.{next_turn}
use mcsim.RequestScheduler.Slots.{candidate}

module _ {G : Type 0} (is_schedulable : G → Request → Bool → Outcome (Bool × G)) where
  -- What a request that was read leaves: the table, the generator and the queue. The row that is entered is
  -- that of `address_map`, or of `rank` and `bank` in the shared queue.
  unfoldable pub pass_request :
      BankTable → G → RequestQueue → Request → ℕ → ℕ → Outcome (BankTable × G × RequestQueue)
  pass_request t g q r rank bank = do
    hit ← is_row_hit t r
    answer ← is_schedulable g r hit
    if answer.0
        then (do q' ← remove_request q; ok (update_row_table t rank bank r.row, answer.1, q'))
        else ok (t, answer.1, q)

  unfoldable pub pass_found :
      BankTable → G → Option Request × RequestQueue → Outcome (BankTable × G × RequestQueue)
  unfolding pass_request
  pass_found t g (none, q) = ok (t, g, q)
  pass_found t g (some r, q) = pass_request t g q r r.address_map.rank r.address_map.bank

  -- The loop over the requestors, with `n` rounds left and `place` as the queue's `requestorIndex`.
  unfoldable pub sweep :
      ℕ → BankTable → G → RequestQueue → ℕ → Outcome (ℕ × (BankTable × G × RequestQueue))
  unfolding pass_found
  sweep zero t g q place = ok (place, (t, g, q))
  sweep (suc n) t g q place = do
    found ← candidate q place
    one ← pass_found t g found
    sweep n one.0 one.1 one.2 (next_turn (get_queue_size q) place)

  -- A queue that all requestors share.
  unfoldable pub pass_first_ready :
      BankTable → G → RequestQueue → Outcome (BankTable × G × RequestQueue)
  unfolding pass_request
  pass_first_ready t g q =
      if ltb 0 (length q.general_buffer)
      then (do
        picked ← schedule_fr t q
        r ← defined picked.0
        pass_request t g picked.1 r r.rank r.bank)
      else ok (t, g, q)

  -- One queue, with its entry of `requestorIndex`.
  unfoldable pub serve_queue :
      BankTable → G → RequestQueue → ℕ → Outcome (ℕ × (BankTable × G × RequestQueue))
  unfolding sweep pass_first_ready
  serve_queue t g q place =
      if q.per_requestor_enable
      then sweep (get_queue_size q) t g q place
      else (do done ← pass_first_ready t g q; ok (place, done))

  -- `requestSchedule`. The constructor makes an entry of `requestorIndex` for each queue: here they
  -- stand together.
  unfoldable pub direct_schedule :
      BankTable → G → List (RequestQueue × ℕ) → Outcome (BankTable × G × List (RequestQueue × ℕ))
  unfolding serve_queue
  direct_schedule t g [] = ok (t, g, [])
  direct_schedule t g ((q, place) ∷ queues) = do
    one ← serve_queue t g q place
    rest ← direct_schedule one.1.0 one.1.1 queues
    ok (rest.0, rest.1, (one.1.2, one.0) ∷ rest.2)
