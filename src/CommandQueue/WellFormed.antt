-- ===== src/CommandQueue/WellFormed.antt =====
-- The index of src/CommandQueue.cpp: `requestorMap` lists the keys of `requestorBuffer`, each
-- once, and a requestor's buffer holds its own commands.
use mcsim.Common.{
  ℕ, ◌+◌, ◌≡◌, refl, Bool, List, [], ◌∷◌, ◌++◌, insert, find_or, is_key, if◌then◌else◌, ok, All,
  All-append, arith, ◌==◌, List-cases, inl, inr, subst, sym, ==_iff, if_rule, find_or-insert,
  is_key-insert,
}
use mcsim.Packet.{BusPacket}
use mcsim.CommandQueue.{
  CommandQueue, new, buffer_of, insert_requestor, insert_command, remove_requestor_command,
}

-- How often a requestor stands in the order.
abbrev pub occurrences : ℕ → List ℕ → ℕ
occurrences id [] = 0
occurrences id (k ∷ ks) = (if k == id then 1 else 0) + occurrences id ks

abbrev pub IsOf : ℕ → BusPacket → Type 0
IsOf id c = c.requestor_id ≡ id

pub record IsWellFormed (q : CommandQueue) : Type 0 where
  pub indexed :
      (id : ℕ) → occurrences id q.requestor_map ≡ (if is_key q.requestor_buffer id then 1 else 0)
  pub owned : (id : ℕ) → All (IsOf id) (buffer_of q id)

pub new-IsWellFormed : (per_requestor : Bool) → IsWellFormed (new per_requestor)
unfolding new
new-IsWellFormed b = record { indexed = λ id. refl; owned = λ id. tt }

occurrences-append :
    (id k : ℕ) (ks : List ℕ)
    → occurrences id (ks ++ k ∷ []) ≡ occurrences id ks + (if k == id then 1 else 0)
occurrences-append id k [] = omega arith
occurrences-append id k (j ∷ ks) = omega (arith, occurrences-append id k ks)

insert_requestor-indexed :
    (q : CommandQueue) (c : BusPacket) (id : ℕ)
    → occurrences id q.requestor_map ≡ (if is_key q.requestor_buffer id then 1 else 0)
    → occurrences id (insert_requestor q c).requestor_map
      ≡ (if is_key (insert_requestor q c).requestor_buffer id then 1 else 0)
unfolding insert_requestor
insert_requestor-indexed q c id h =
    ground (arith, occurrences-append id c.requestor_id q.requestor_map)

insert_requestor-owned :
    (q : CommandQueue) (c : BusPacket) (id : ℕ)
    → All (IsOf id) (buffer_of q id)
    → All (IsOf id) (buffer_of (insert_requestor q c) id)
unfolding insert_requestor
insert_requestor-owned q c id h =
    ground
      (arith, λ (e : c.requestor_id ≡ id). All-append (IsOf id) (buffer_of q id) (c ∷ []) h (e, tt))

-- Inserting a command keeps a well-formed queue well-formed, whichever buffer it goes to.
pub insert_command-IsWellFormed :
    (q : CommandQueue) (c : BusPacket) (critical : Bool)
    → IsWellFormed q
    → IsWellFormed (insert_command q c critical)
unfolding insert_command
insert_command-IsWellFormed q c critical w = record {
  indexed = λ id. ground (arith, w.indexed id, insert_requestor-indexed q c id (w.indexed id));
  owned = λ id. ground (arith, w.owned id, insert_requestor-owned q c id (w.owned id));
}

-- A removal that is defined takes the head of the requestor's buffer, and nothing else.
pub remove_requestor_command_cases :
    (q : CommandQueue) (id : ℕ) {q' : CommandQueue}
    → remove_requestor_command q id ≡ ok q'
    → (c : BusPacket) × (rest : List BusPacket) × (buffer_of q id ≡ c ∷ rest)
      × (q' ≡ record q { requestor_buffer = insert q.requestor_buffer id rest })
unfolding remove_requestor_command
remove_requestor_command_cases q id e = elim (List-cases (buffer_of q id)) [
  | inl none_left ↦ absurd (ground arith)
  | inr (c, rest, split) ↦ (c, rest, split, ground arith)
]

removed-owned :
    (q : CommandQueue) (id j : ℕ) (c : BusPacket) (rest : List BusPacket)
    → buffer_of q id ≡ c ∷ rest
    → All (IsOf id) (buffer_of q id)
    → All (IsOf j) (buffer_of q j)
    → All (IsOf j) (find_or (insert q.requestor_buffer id rest) j [])
removed-owned q id j c rest split h k =
    subst (All (IsOf j)) (sym (find_or-insert q.requestor_buffer id rest j [])) (
      if_rule (All (IsOf j)) (j == id)
        (λ hit. rw ((==_iff j id).0 hit) (subst (All (IsOf id)) split h).1) (λ _. k))

removed-indexed :
    (q : CommandQueue) (id j : ℕ) (c : BusPacket) (rest : List BusPacket)
    → buffer_of q id ≡ c ∷ rest
    → occurrences j q.requestor_map ≡ (if is_key q.requestor_buffer j then 1 else 0)
    → occurrences j q.requestor_map
      ≡ (if is_key (insert q.requestor_buffer id rest) j then 1 else 0)
removed-indexed q id j c rest split h = ground (arith, is_key-insert q.requestor_buffer id rest j)

-- Removing a requestor's oldest command, where that is defined, keeps a well-formed queue well-
-- formed.
pub remove_requestor_command-IsWellFormed :
    (q : CommandQueue) (id : ℕ) (q' : CommandQueue)
    → IsWellFormed q
    → remove_requestor_command q id ≡ ok q'
    → IsWellFormed q'
remove_requestor_command-IsWellFormed q id q' w e =
    let (c, rest, split, same) = remove_requestor_command_cases q id e in
    subst IsWellFormed (sym same) (record {
      indexed = λ j. removed-indexed q id j c rest split (w.indexed j);
      owned = λ j. removed-owned q id j c rest split (w.owned id) (w.owned j);
    })
