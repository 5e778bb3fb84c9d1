-- ===== src/Requestor/Outstanding.antt =====
-- How many requests a requestor of src/Requestor.cpp has under way, and what a return does.
use mcsim.Common.{
  ℕ, ◌+◌, ◌≤◌, ◌≡◌, refl, sym, ap, ◌∙◌, subst, Bool, true, false, not, ◌&&◌, Bool-cases, Option,
  none, some, List, [], ◌∷◌, ◌++◌, length, length-append, leb, leb→le, if◌then◌else◌, if_rule, u64,
  ◌==◌, inl, inr, ok, aborted, >>=-eq-ok, ok-injective, arith, All,
}
use mcsim.Packet.{Request}
use mcsim.Requestor.{
  is_read_type, TraceLine, Memory, Requestor, request_buffer_size, sent, send_request,
  take_returned, returned, return_data, due_at, read_line, next_line, reading_trace_file, try_send,
  update,
}

abbrev pub waiting : Option Request → ℕ
waiting none = 0
waiting (some p) = 1

-- At most 33 requests at the memory; in order, at most one at the memory or on its way there.
abbrev pub IsBounded : Requestor → Type 0
IsBounded r =
    (length r.core_pending_data ≤ request_buffer_size + 1)
    × (r.in_order ≡ true → length r.core_pending_data + waiting r.pending_request ≤ 1)

-- What the step keeps of the fields that the bound is about.
due_at-core :
    (r : Requestor) (delay : ℕ)
    → ((due_at r delay).1.core_pending_data ≡ r.core_pending_data)
      × ((due_at r delay).1.in_order ≡ r.in_order)
unfolding due_at
due_at-core r delay = elim (Bool-cases r.in_order) [
  | inl t ↦ (rw t refl, rw t refl)
  | inr f ↦ elim (Bool-cases (delay == 0 && not (r.current_clock_cycle == 1))) [
    | inl t ↦ (rw f (rw t refl), rw f (rw t refl))
    | inr g ↦ (rw f (rw g refl), rw f (rw g refl))
  ]
]

read_line-IsBounded :
    (r : Requestor) (l : Option TraceLine)
    → (r.in_order ≡ true → length r.core_pending_data ≡ 0)
    → IsBounded r
    → IsBounded (read_line r l)
unfolding read_line
read_line-IsBounded r none e b = b
read_line-IsBounded r (some line) e b =
    let (core, order) = due_at-core r line.comp_delay in
    (rw core b.0, λ o. omega (arith, ap (λ (d : List Request). length d) core, e (sym order ∙ o)))

next_line-IsBounded :
    (r : Requestor) (p : Option Request) (ls : List (Option TraceLine))
    → (r.in_order ≡ true → length r.core_pending_data ≡ 0)
    → IsBounded r
    → IsBounded (next_line r p ls).1
unfolding next_line
next_line-IsBounded r (some p) ls e b = b
next_line-IsBounded r none [] e b = b
next_line-IsBounded r none (l ∷ ls) e b = read_line-IsBounded (record r { trans_file = ls }) l e b

reading-IsBounded : (r : Requestor) → IsBounded r → IsBounded (reading_trace_file r).1
unfolding reading_trace_file
reading-IsBounded r b = elim (Bool-cases (r.in_order && not (length r.core_pending_data == 0))) [
  | inl t ↦ rw t b
  | inr f ↦ rw f (
      next_line-IsBounded r r.pending_request r.trans_file
        (λ o.
          ==0 (length r.core_pending_data)
            (sym (ap (λ x. x && not (length r.core_pending_data == 0)) o) ∙ f))
        b)
]
  where
    ==0 : (n : ℕ) → not (n == 0) ≡ false → n ≡ 0
    ==0 n h = ground arith

module _ {M : Type 0} (mem : Memory M) where
  -- A request that goes out takes the place of the one that waited.
  sent-IsBounded :
      (r : Requestor) (p : Request)
      → r.pending_request ≡ some p
      → length r.core_pending_data ≤ request_buffer_size
      → IsBounded r
      → IsBounded (record (sent r p) { pending_request = none })
  unfolding sent
  sent-IsBounded r p e l b =
      let one_more =
        length-append r.core_pending_data
          ((record p { arrive_time = r.current_clock_cycle }) ∷ []) in
      (omega (arith, one_more), λ o. omega (arith, one_more, b.1 o, ap waiting e))

  unsent-IsBounded : (r : Requestor) → IsBounded r → IsBounded (record r { pending_request = none })
  unsent-IsBounded r b = (b.0, λ o. omega (arith, b.1 o))

  send_request-IsBounded :
      (m m' : M) (r r' : Requestor) (p : Request)
      → r.pending_request ≡ some p
      → length r.core_pending_data ≤ request_buffer_size
      → IsBounded r
      → send_request mem m r p ≡ ok (m', r')
      → IsBounded (record r' { pending_request = none })
  unfolding send_request
  send_request-IsBounded m m' r r' p e l b h =
      let ((m1, was_added), _, h') =
        >>=-eq-ok
          (mem.add_request m p.requestor_id p.address (is_read_type p.request_type) p.request_size)
          _ h in
      let same : (if was_added then sent r p else r) ≡ r' =
        ap (λ (x : M × Requestor). x.1) (ok-injective _ _ h') in
      subst (λ x. IsBounded (record x { pending_request = none })) same
        (if_rule (λ x. IsBounded (record x { pending_request = none })) was_added
          (λ _. sent-IsBounded r p e l b) (λ _. unsent-IsBounded r b))

  and-parts : (a b : Bool) → (a && b) ≡ true → (a ≡ true) × (b ≡ true)
  and-parts true b h = (refl, h)
  and-parts false b h = cc

  try_send-IsBounded :
      (m m' : M) (r r' : Requestor) (o : Option Request)
      → r.pending_request ≡ o
      → IsBounded r
      → try_send mem m r o ≡ ok (m', r')
      → IsBounded r'
  unfolding try_send
  try_send-IsBounded m m' r r' none e b h =
      subst IsBounded (ap (λ (x : M × Requestor). x.1) (ok-injective _ _ h)) b
  try_send-IsBounded m m' r r' (some p) e b h =
      let allowed =
        not (mem.is_write_mode m)
        && (leb p.arrive_time r.current_clock_cycle
            && (leb (mem.general_buffer_size m) request_buffer_size
                && leb (length r.core_pending_data) request_buffer_size)) in
      elim (Bool-cases allowed) [
        | inl t ↦
            let ((m1, r1), sends, h') = >>=-eq-ok (send_request mem m r p) _ (rw t at h) in
            let room =
              (and-parts (leb (mem.general_buffer_size m) request_buffer_size) _
                (and-parts (leb p.arrive_time r.current_clock_cycle) _
                  (and-parts (not (mem.is_write_mode m)) _ t).1).1).1 in
            subst IsBounded (ap (λ (x : M × Requestor). x.1) (ok-injective _ _ h'))
              (send_request-IsBounded m m1 r r1 p e (leb→le _ _ room) b sends)
        | inr f ↦ subst IsBounded (ap (λ (x : M × Requestor). x.1) (ok-injective _ _ (rw f at h))) b
      ]

  -- `update` keeps the bound: never more than 33 requests are at the memory, one more than the buffer size
  -- of 32, and a requestor that works in order has one request at most that is at the memory or
  -- waits to be sent. The memory system may be any.
  pub update-IsBounded :
      (m m' : M) (r r' : Requestor) → IsBounded r → update mem m r ≡ ok (m', r') → IsBounded r'
  unfolding update
  update-IsBounded m m' r r' b h =
      let read = reading_trace_file (record r { latency = u64 (r.latency + 1) }) in
      let ((m1, r1), sends, h') =
        >>=-eq-ok (try_send mem m (record (read.1) { sim_done = read.0 }) read.1.pending_request) _
          h in
      let kept : IsBounded r1 =
        try_send-IsBounded m m1 (record (read.1) { sim_done = read.0 }) r1 read.1.pending_request
          refl (reading-IsBounded (record r { latency = u64 (r.latency + 1) }) b) sends in
      subst IsBounded (ap (λ (x : M × Requestor). x.1) (ok-injective _ _ h')) kept

-- No entry is for the address.
abbrev pub NoneFor : ℕ → List Request → Type 0
NoneFor address = All (λ (d : Request). (address == d.address) ≡ false)

-- What a return does.
pub data Answered (r : Requestor) (address : ℕ) : Type 0 where
  taken :
      (before after : List Request) (d : Request) (r' : Requestor)
      → r.core_pending_data ≡ before ++ d ∷ after
      → (address == d.address) ≡ true
      → NoneFor address before
      → return_data r address ≡ ok r'
      → r'.core_pending_data ≡ before ++ after
      → r'.prev_complete ≡ r.current_clock_cycle
      → Answered r address
  unknown :
      NoneFor address r.core_pending_data
      → return_data r address ≡ (
          if length r.core_pending_data == 0
          then ok r
          else if r.latency == 0
          then ok r
          else aborted)
      → Answered r address

data Taken (address : ℕ) (ds : List Request) : Type 0 where
  at :
      (before after : List Request) (d : Request)
      → ds ≡ before ++ d ∷ after
      → (address == d.address) ≡ true
      → NoneFor address before
      → take_returned address ds ≡ some (d, before ++ after)
      → Taken address ds
  nowhere : NoneFor address ds → take_returned address ds ≡ none → Taken address ds

take_returned-Taken : (address : ℕ) (ds : List Request) → Taken address ds
unfolding take_returned
take_returned-Taken address [] = nowhere tt refl
take_returned-Taken address (x ∷ ds) = elim (Bool-cases (address == x.address)) [
  | inl t ↦ at [] ds x refl t tt (rw t refl)
  | inr f ↦ later f (take_returned-Taken address ds)
]
  where
    later : (address == x.address) ≡ false → Taken address ds → Taken address (x ∷ ds)
    later f (at before after d e m n h) =
        at (x ∷ before) after d (ap (λ l. x ∷ l) e) m (f, n) (rw f (rw h refl))
    later f (nowhere n h) = nowhere (f, n) (rw f (rw h refl))

-- `returnData` takes the first request of the address off the list and leaves the others in order. If
-- there is none of the address, then it aborts if requests are under way and there has been a cycle since the
-- last one was sent or came back; else the return is ignored.
pub return_data-Answered : (r : Requestor) (address : ℕ) → Answered r address
unfolding return_data returned
return_data-Answered r address = by_entry (take_returned-Taken address r.core_pending_data)
  where
    filled :
        (before after : List Request) (d : Request) → (length (before ++ d ∷ after) == 0) ≡ false
    filled before after d = ground (arith, length-append before (d ∷ after))

    by_entry : Taken address r.core_pending_data → Answered r address
    by_entry (at before after d e m n h) =
        let full : (length r.core_pending_data == 0) ≡ false =
          ap (λ l. length l == 0) e ∙ filled before after d in
        taken before after d (returned r d (before ++ after)) e m n (rw full (rw h refl)) refl refl
    by_entry (nowhere n h) = unknown n (rw h refl)
