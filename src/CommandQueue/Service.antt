-- ===== src/CommandQueue/Service.antt =====
-- Every requestor that has a command waiting in a queue of src/CommandQueue.cpp can be served: the
-- schedulers reach the buffers by the position in the requestor map only.
use mcsim.Common.{
  ℕ, suc, ◌+◌, ◌<◌, ◌≡◌, refl, sym, ap, ◌∙◌, subst, true, false, List, [], ◌∷◌, if◌then◌else◌, ok,
  arith, ◌>>=◌, defined, ◌==◌, ==_iff, insert, get_elem?, some, none, length, Option, get_or,
  is_some, Bool-cases, inl, inr, leb, require, ◌>>◌, All,
}
use mcsim.Packet.{BusPacket}
use mcsim.CommandQueue.{
  CommandQueue, buffer_of, get_requestor_index, get_requestor_size, get_requestor_command,
  remove_requestor_command, front, erase_front,
}
use mcsim.CommandQueue.WellFormed.{IsWellFormed, IsOf, occurrences}

position :
    (id : ℕ) (ks : List ℕ)
    → 0 < occurrences id ks
    → (num : ℕ) × (num < length ks) × (get_elem? ks num ≡ some id)
position id [] h = absurd (omega arith)
position id (k ∷ ks) h = elim (Bool-cases (k == id)) [
  | inl t ↦ (0, omega arith, ap some ((==_iff k id).0 t))
  | inr n ↦ let (num, l, e) = position id ks (later n) in (suc num, omega (arith, l), e)
]
  where
    later : (k == id) ≡ false → 0 < occurrences id ks
    later n = omega (arith, ap (λ b. (if b then 1 else 0) + occurrences id ks) n, h)

entered :
    (o : Option (List BusPacket)) (c : BusPacket) (rest : List BusPacket)
    → get_or o [] ≡ c ∷ rest
    → is_some o ≡ true
entered none c rest e = cc
entered (some b) c rest e = refl

lt-leb : (a b : ℕ) → a < b → leb a b ≡ true
lt-leb a b h = ground arith

sized :
    (q : CommandQueue) (num id : ℕ) (c : BusPacket) (rest : List BusPacket)
    → num < length q.requestor_map
    → get_elem? q.requestor_map num ≡ some id
    → buffer_of q id ≡ c ∷ rest
    → get_requestor_size q num ≡ ok (suc (length rest))
unfolding get_requestor_size
sized q num id c rest l at e =
    ap
      (λ b.
        require b >> (defined (get_elem? q.requestor_map num) >>= λ k. ok (length (buffer_of q k))))
      (lt-leb num (length q.requestor_map) l)
    ∙ ap (λ o. defined o >>= λ k. ok (length (buffer_of q k))) at
    ∙ ap (λ (b : List BusPacket). ok (length b)) e

removed :
    (q : CommandQueue) (id : ℕ) (c : BusPacket) (rest : List BusPacket)
    → buffer_of q id ≡ c ∷ rest
    → remove_requestor_command q id
      ≡ ok (record q { requestor_buffer = insert q.requestor_buffer id rest })
unfolding remove_requestor_command
removed q id c rest e =
    ap
      (λ b. erase_front b >>= λ left.
        ok (record q { requestor_buffer = insert q.requestor_buffer id left }))
      e

head_owner :
    (q : CommandQueue) (id : ℕ) (c : BusPacket) (rest : List BusPacket)
    → IsWellFormed q
    → buffer_of q id ≡ c ∷ rest
    → c.requestor_id ≡ id
head_owner q id c rest w e = (subst (All (IsOf id)) e (w.owned id)).0

-- How a requestor is served: the call that reads its oldest command, and the removal.
pub record Serviced (q : CommandQueue) (id : ℕ) (c : BusPacket) (rest : List BusPacket)
    : Type 0 where
  pub num : ℕ
  pub in_range : num < get_requestor_index q
  pub size : get_requestor_size q num ≡ ok (suc (length rest))
  pub command : get_requestor_command q num ≡ ok c
  pub owner : c.requestor_id ≡ id
  pub removal :
      remove_requestor_command q c.requestor_id
      ≡ ok (record q { requestor_buffer = insert q.requestor_buffer id rest })

-- In a well-formed queue, a requestor whose buffer is not empty is named by a position that the
-- scheduler goes over: there, the size is that of the buffer, the command read is the oldest one, and
-- its removal is defined and leaves the requestor the others.
pub get_requestor_command-Serviced :
    (q : CommandQueue) (id : ℕ) (c : BusPacket) (rest : List BusPacket)
    → IsWellFormed q
    → buffer_of q id ≡ c ∷ rest
    → Serviced q id c rest
unfolding get_requestor_index get_requestor_size get_requestor_command remove_requestor_command
get_requestor_command-Serviced q id c rest w e =
    let once : occurrences id q.requestor_map ≡ 1 =
      w.indexed id ∙ ap (λ b. if b then 1 else 0) (entered (q.requestor_buffer id) c rest e) in
    let (num, l, at) = position id q.requestor_map (omega (arith, once)) in
    let owned = head_owner q id c rest w e in
    record {
      num = num;
      in_range = l;
      size = sized q num id c rest l at e;
      command =
          ap (λ o. defined o >>= λ k. defined (front (buffer_of q k))) at
          ∙ ap (λ b. defined (front b)) e;
      owner = owned;
      removal =
          subst
            (λ j.
              remove_requestor_command q j
              ≡ ok (record q { requestor_buffer = insert q.requestor_buffer id rest }))
            (sym owned) (removed q id c rest e);
    }
