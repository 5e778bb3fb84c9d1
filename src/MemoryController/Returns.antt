-- ===== src/MemoryController/Returns.antt =====
-- What the data path of src/MemoryController.cpp makes of a pending list.
use mcsim.Common.{
  ℕ, zero, suc, ◌+◌, ◌*◌, ◌<◌, ◌≡◌, refl, ap, ◌∙◌, true, false, Option, none, some, List, [], ◌∷◌,
  ◌++◌, All, arith, u32_mod, sub_u32, if◌then◌else◌, ◌==◌, if_rule, ==_iff, map, ap₂, Bool-cases,
  inl, inr,
}
use mcsim.Packet.{BusPacket, Request}
use mcsim.MemoryController.State.{MemoryController, is_for, settle, receive_data}

-- The pending requests that data with `p`'s requestor and address is for, and the others.
abbrev pub of_key : BusPacket → List Request → List Request
of_key p [] = []
of_key p (r ∷ rs) = let rest = of_key p rs in if is_for p r then r ∷ rest else rest

abbrev pub of_others : BusPacket → List Request → List Request
of_others p [] = []
of_others p (r ∷ rs) = let rest = of_others p rs in if is_for p r then rest else r ∷ rest

-- One packet serves the oldest of its key, and no other request.
settle-of_others :
    (width : ℕ) (p : BusPacket) (rs : List Request)
    → of_others p (settle width p rs).0 ≡ of_others p rs
unfolding settle
settle-of_others width p [] = refl
settle-of_others width p (r ∷ rs) = ground (arith, settle-of_others width p rs)

settle-of_key :
    (width : ℕ) (p : BusPacket) (rs : List Request)
    → of_key p (settle width p rs).0 ≡ (settle width p (of_key p rs)).0
unfolding settle
settle-of_key width p [] = refl
settle-of_key width p (r ∷ rs) = ground (arith, settle-of_key width p rs)

settle-done :
    (width : ℕ) (p : BusPacket) (rs : List Request)
    → (settle width p rs).1 ≡ (settle width p (of_key p rs)).1
unfolding settle
settle-done width p [] = refl
settle-done width p (r ∷ rs) = ground (arith, settle-done width p rs)

abbrev pub done_list : Option Request → List Request
done_list none = []
done_list (some r) = r ∷ []

-- `n` packets alike.
pub settle_times : ℕ → BusPacket → ℕ → List Request → List Request × List Request
settle_times width p zero rs = (rs, [])
settle_times width p (suc n) rs =
    let one = settle width p rs in
    let rest = settle_times width p n one.0 in (rest.0, done_list one.1 ++ rest.1)

-- The same at the controller: data that returns for `n` reads of one key.
pub receive_times : MemoryController → BusPacket → ℕ → MemoryController × List Request
receive_times m p zero = (m, [])
receive_times m p (suc n) =
    let one = receive_data m p in
    let rest = receive_times one.0 p n in (rest.0, done_list one.1 ++ rest.1)

-- Each request wants `suc k` bursts, for its `k` of the list; a size is an `unsigned int`.
abbrev pub Wants : ℕ → List ℕ → List Request → Type 0
Wants width [] [] = Unit
Wants width (k ∷ ks) (r ∷ rs) =
    (r.request_size ≡ width + k * width) × (r.request_size < u32_mod) × Wants width ks rs
Wants width _ _ = ⊥

-- The bursts in all.
abbrev pub bursts : List ℕ → ℕ
bursts [] = 0
bursts (k ∷ ks) = suc k + bursts ks

-- A request as it is called back, with its last burst outstanding.
abbrev pub finished : ℕ → Request → Request
finished width r = record r { request_size = width }

abbrev pub AllFor : BusPacket → List Request → Type 0
AllFor p = All (λ r. is_for p r ≡ true)

of_key-AllFor : (p : BusPacket) (rs : List Request) → AllFor p (of_key p rs)
of_key-AllFor p [] = tt
of_key-AllFor p (r ∷ rs) =
    if_rule (AllFor p) (is_for p r) (λ e. (e, of_key-AllFor p rs)) (λ _. of_key-AllFor p rs)

settle_last :
    (width : ℕ) (p : BusPacket) (r : Request) (rs : List Request)
    → is_for p r ≡ true
    → r.request_size ≡ width
    → settle width p (r ∷ rs) ≡ (rs, some (finished width r))
unfolding settle
settle_last width p r rs m e = rw m (
    rw ((==_iff r.request_size width).1 e) (ap (λ s. (rs, some (record r { request_size = s }))) e))

settle_more :
    (width k : ℕ) (p : BusPacket) (r : Request) (rs : List Request)
    → 0 < width
    → is_for p r ≡ true
    → r.request_size ≡ width + (width + k * width)
    → r.request_size < u32_mod
    → settle width p (r ∷ rs) ≡ (record r { request_size = width + k * width } ∷ rs, none)
unfolding settle
settle_more width k p r rs w m e h =
    let left : sub_u32 r.request_size width ≡ width + k * width = omega (arith, e, h) in
    let more : (r.request_size == width) ≡ false = ground (arith, e, w) in
    rw m (rw more (ap (λ s. (record r { request_size = s } ∷ rs, none)) left))

-- The requests of one key are completed in order.
settle_times_key :
    (width : ℕ) (p : BusPacket) (ks : List ℕ) (rs : List Request) (n : ℕ)
    → 0 < width
    → n ≡ bursts ks
    → AllFor p rs
    → Wants width ks rs
    → settle_times width p n rs ≡ ([], map (finished width) rs)
unfolding settle_times
settle_times_key width p [] [] zero w e a h = refl
settle_times_key width p [] [] (suc n) w e a h = absurd (omega arith)
settle_times_key width p [] (r ∷ rs) n w e a h = elim h [ ]
settle_times_key width p (k ∷ ks) [] n w e a h = elim h [ ]
settle_times_key width p (k ∷ ks) (r ∷ rs) zero w e a h = absurd (omega arith)
settle_times_key width p (zero ∷ ks) (r ∷ rs) (suc n) w e a h =
    let last = settle_last width p r rs a.0 (omega (arith, h.0)) in
    rw last (rw (settle_times_key width p ks rs n w (omega (arith, e)) a.1 h.2))
settle_times_key width p (suc k ∷ ks) (r ∷ rs) (suc n) w e a h =
    let size : r.request_size ≡ width + (width + k * width) = omega (arith, h.0) in
    let more = settle_more width k p r rs w a.0 size h.1 in
    rw more (
      rw (
        settle_times_key width p (k ∷ ks) (record r { request_size = width + k * width } ∷ rs) n w
          (omega (arith, e)) a (refl, omega (arith, h.0, h.1), h.2)))

-- A run of packets of one key sees only the requests of the key.
settle_times-of_key :
    (width : ℕ) (p : BusPacket) (n : ℕ) (rs : List Request)
    → (of_key p (settle_times width p n rs).0 ≡ (settle_times width p n (of_key p rs)).0)
      × ((settle_times width p n rs).1 ≡ (settle_times width p n (of_key p rs)).1)
      × (of_others p (settle_times width p n rs).0 ≡ of_others p rs)
unfolding settle_times
settle_times-of_key width p zero rs = (refl, refl, refl)
settle_times-of_key width p (suc n) rs =
    let (keys, done, others) = settle_times-of_key width p n (settle width p rs).0 in
    let same = settle-of_key width p rs in
    (
      keys ∙ ap (λ xs. (settle_times width p n xs).0) same,
      ap₂ (λ (o : Option Request) ds. done_list o ++ ds) (settle-done width p rs)
          (done ∙ ap (λ xs. (settle_times width p n xs).1) same),
      others ∙ settle-of_others width p rs,
    )

only_others : (p : BusPacket) (rs : List Request) → of_key p rs ≡ [] → rs ≡ of_others p rs
only_others p [] e = refl
only_others p (r ∷ rs) e = elim (Bool-cases (is_for p r)) [
  | inl m ↦ absurd (cc (rw m at e))
  | inr m ↦ rw m (ap (λ k. r ∷ k) (only_others p rs (rw m at e)))
]

receive_times-settle_times :
    (m : MemoryController) (p : BusPacket) (n : ℕ)
    → ((receive_times m p n).0.pending_read_request
        ≡ (settle_times m.data_bus_width p n m.pending_read_request).0)
      × ((receive_times m p n).1 ≡ (settle_times m.data_bus_width p n m.pending_read_request).1)
unfolding receive_times settle_times receive_data
receive_times-settle_times m p zero = (refl, refl)
receive_times-settle_times m p (suc n) =
    let (rest, done) = receive_times-settle_times (receive_data m p).0 p n in
    (rest, ap (λ ds. done_list (settle m.data_bus_width p m.pending_read_request).1 ++ ds) done)

-- Let the pending reads of one requestor and address want whole numbers of bursts, as listed in
-- `ks`, and let as many read packets return for that key as they want together. Then each of those
-- reads is called back exactly once, in the order of their arrival, with its last burst outstanding;
-- no other request is called back; and what is left pending is exactly the requests of other keys,
-- unchanged.
pub receive_times-completes :
    (m : MemoryController) (p : BusPacket) (ks : List ℕ)
    → 0 < m.data_bus_width
    → Wants m.data_bus_width ks (of_key p m.pending_read_request)
    → let after = receive_times m p (bursts ks) in
      (after.1 ≡ map (finished m.data_bus_width) (of_key p m.pending_read_request))
      × (after.0.pending_read_request ≡ of_others p m.pending_read_request)
receive_times-completes m p ks w h =
    let width = m.data_bus_width in
    let pending = m.pending_read_request in
    let (left, called) = receive_times-settle_times m p (bursts ks) in
    let (keys, done, others) = settle_times-of_key width p (bursts ks) pending in
    let run =
      settle_times_key width p ks (of_key p pending) (bursts ks) w refl (of_key-AllFor p pending)
        h in
    (
      called ∙ done ∙ ap (λ (x : List Request × List Request). x.1) run,
      left ∙ only_others p _ (keys ∙ ap (λ (x : List Request × List Request). x.0) run) ∙ others,
    )
