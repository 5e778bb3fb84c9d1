-- ===== src/MemorySystem/Channels.antt =====
-- How src/MultiChannelMemorySystem.cpp passes a request on to one of its channels.
use mcsim.Common.{
  ℕ, ◌%◌, ◌<◌, ◌≡◌, refl, sym, ap, subst, Bool, false, Bool-cases, inl, inr, some, get_elem?, set,
  get_elem?-set_ne, get_elem?-set_self, get_elem?-lt, Outcome, ok, arith, ◌==◌, ==_iff, lt→ltb,
  length, All,
}
use mcsim.Packet.{Request}
use mcsim.RequestQueue.Arrival.{HasWrites}
use mcsim.MemoryController.State.{MemoryController}
use mcsim.MemoryController.Decode.{queue_number, first_marked, FitsMarked, NoWrap}
use mcsim.MemoryController.Enqueue.{add_request, incoming, levels}
use mcsim.MemoryController.Requests.{Accepted, add_request-Accepted}
use mcsim.MemoryController.Update.{Channel}
use mcsim.MemorySystem.{Parts, MultiChannel, find_channel_number, add_to_channel, add}

-- With at least one channel, the requestor's number modulo the number of channels says which one it is.
find_channel_number_lem : (n id : ℕ) → 0 < n → find_channel_number n id ≡ ok (id % n)
unfolding find_channel_number
find_channel_number_lem n id h = elim (Bool-cases (n == 1)) [
  | inl one ↦
      let at : n ≡ 1 = (==_iff n 1).0 one in
      let by_one : 0 ≡ id % 1 = omega arith in
      let none_left : 0 ≡ id % n = subst (λ k. 0 ≡ id % k) (sym at) by_one in
      rw one (ap ok none_left)
  | inr more ↦
      let some_channels : (n == 0) ≡ false = ground arith in
      let below : id % n < n = omega (arith, h) in
      rw (more, some_channels, lt→ltb (id % n) n below) refl
]

module _ {D R : Type 0} (parts : Parts D R) where
  -- What has become of a request `r`, which came to the channel `ch` at `index`.
  pub record Routed (ms : MultiChannel D R) (ch : Channel D R) (index : ℕ) (r : Request)
      (added : Outcome MemoryController) (result : Outcome (MultiChannel D R)) : Type 0 where
    pub accepted : Accepted ch.controller r added
    pub system : MultiChannel D R
    pub runs : result ≡ ok system
    pub channel : get_elem? system.channels index ≡ some (record ch { controller = accepted.left })
    pub others :
        (j : ℕ) → (index == j) ≡ false → get_elem? system.channels j ≡ get_elem? ms.channels j
    pub same_rest : system ≡ record ms { channels = system.channels }

  -- Let the system have at least one channel, let the address mapping give a request `r`, and let the
  -- channel whose index is the requestor's number modulo the number of channels be there, with a controller that has
  -- the request queues that its structure says, without their number wrapping around, each with a write
  -- queue if it keeps writes apart, and whose memory the address fits. Then `addRequest` of the
  -- system ends normally. The channel's controller has accepted the request, as its own `addRequest` does;
  -- nothing else of this channel, no other channel and nothing else of the system has changed.
  pub add-Accepted :
      (ms : MultiChannel D R) (ch : Channel D R) (id address : ℕ) (r_w : Bool) (size : ℕ)
      (r : Request)
      → 0 < ms.number_channels
      → get_elem? ms.channels (id % ms.number_channels) ≡ some ch
      → parts.address_mapping (incoming ch.controller.clock_cycle id address r_w size) ≡ ok r
      → FitsMarked ch.controller.mem_table
          (levels r.address_map)
          (first_marked ch.controller.req_map 0)
      → NoWrap ch.controller.mem_table (first_marked ch.controller.req_map 0)
      → queue_number ch.controller.mem_table ch.controller.req_map
        ≡ ok (length ch.controller.request_queue)
      → All HasWrites ch.controller.request_queue
      → Routed ms ch
          (id % ms.number_channels)
          r
          (add_request parts.address_mapping ch.controller id address r_w size)
          (add parts ms id address r_w size)
  unfolding add add_to_channel
  add-Accepted ms ch id address r_w size r some_channel here placed fits wraps number writes =
      let i = id % ms.number_channels in
      let a =
        add_request-Accepted parts.address_mapping ch.controller id address r_w size r placed fits
          wraps number writes in
      let ch' = record ch { controller = a.left } in
      record {
        accepted = a;
        system = record ms { channels = set ms.channels i ch' };
        runs = rw (find_channel_number_lem ms.number_channels id some_channel, here, a.runs) refl;
        channel = get_elem?-set_self ms.channels i ch' (get_elem?-lt ms.channels i here);
        others = λ j n. get_elem?-set_ne ms.channels i j ch' (ground arith);
        same_rest = refl;
      }
