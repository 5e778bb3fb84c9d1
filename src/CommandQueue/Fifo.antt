-- ===== src/CommandQueue/Fifo.antt =====
-- The order in which src/CommandQueue.cpp hands commands out. A lane is a requestor's buffer
-- or a general buffer; a run is any sequence of the calls that the schedulers make.
use mcsim.Common.{
  ℕ, ◌≡◌, refl, sym, ap, subst, ◌∙◌, Bool, true, false, List, [], ◌∷◌, ◌++◌, ok, arith, List-cases,
  inl, inr, append_assoc, append-nil, find_or-insert, insert, some, get_elem?, >>=-eq-ok,
  defined-eq-ok, ok-injective, ◌⊎◌, defined, All,
}
use mcsim.Packet.{BusPacket}
use mcsim.CommandQueue.{
  CommandQueue, buffer_of, insert_command, get_command, get_requestor_command,
  remove_requestor_command, remove_command, front,
}
use mcsim.CommandQueue.Lanes.{
  Lane, requestor, hrt, srt, contents, Call, arrive, serve_requestor, serve_general, Served,
  serve_requestor_step, serve_general_step, step, run, departures, arrivals_of, arrivals,
  contents-insert_command, insert_command-kind,
}
use mcsim.CommandQueue.WellFormed.{
  IsWellFormed, IsOf, insert_command-IsWellFormed, remove_requestor_command-IsWellFormed,
  remove_requestor_command_cases,
}

-- A step keeps the kind of the queue and its well-formedness, and each lane obeys first in, first out.
record Keeps (q : CommandQueue) (call : Call) (q' : CommandQueue) (out : Served) : Type 0 where
  same_kind : q'.per_requestor_enable ≡ q.per_requestor_enable
  well_formed : IsWellFormed q'
  in_order :
      (l : Lane)
      → contents q l ++ arrivals_of q.per_requestor_enable l call
        ≡ departures l out ++ contents q' l

arrive-Keeps :
    (q : CommandQueue) (c : BusPacket) (critical : Bool)
    → IsWellFormed q
    → Keeps q (arrive c critical) (insert_command q c critical) []
arrive-Keeps q c critical w = record {
  same_kind = insert_command-kind q c critical;
  well_formed = insert_command-IsWellFormed q c critical w;
  in_order = λ l. sym (contents-insert_command q c critical l);
}

served_requestor-in_order :
    (q : CommandQueue) (id : ℕ) (c : BusPacket) (rest : List BusPacket) (l : Lane)
    → buffer_of q id ≡ c ∷ rest
    → contents q l ++ []
      ≡ departures l ((requestor id, c) ∷ [])
        ++ contents (record q { requestor_buffer = insert q.requestor_buffer id rest }) l
served_requestor-in_order q id c rest (requestor j) split =
    ground (arith, append-nil (buffer_of q j), find_or-insert q.requestor_buffer id rest j [])
served_requestor-in_order q id c rest hrt split = append-nil q.hrt_buffer
served_requestor-in_order q id c rest srt split = append-nil q.srt_buffer

-- What `getRequestorCommand` returns is the head of the buffer of the requestor that it names.
pub get_requestor_command_cases :
    (q : CommandQueue) (num : ℕ) (c : BusPacket)
    → IsWellFormed q
    → get_requestor_command q num ≡ ok c
    → (rest : List BusPacket) × (buffer_of q c.requestor_id ≡ c ∷ rest)
unfolding get_requestor_command
get_requestor_command_cases q num c w e =
    let (id, _, read) = >>=-eq-ok (defined (get_elem? q.requestor_map num)) _ e in
    head_of id (List-cases (buffer_of q id)) (defined-eq-ok _ read)
  where
    head_of :
        (id : ℕ)
        → (buffer_of q id ≡ [])
          ⊎ ((x : BusPacket) × (r : List BusPacket) × (buffer_of q id ≡ x ∷ r))
        → front (buffer_of q id) ≡ some c
        → (rest : List BusPacket) × (buffer_of q c.requestor_id ≡ c ∷ rest)
    head_of id (inl e) f = absurd (cc (rw e at f))
    head_of id (inr (x, r, e)) f =
        let same : x ≡ c = ground arith in
        let own : c.requestor_id ≡ id = rw same at (subst (All (IsOf id)) e (w.owned id)).0 in
        (r, rw own (cc))

removed-Keeps :
    (q : CommandQueue) (num : ℕ) (c : BusPacket) (rest : List BusPacket) (q' : CommandQueue)
    → IsWellFormed q
    → buffer_of q c.requestor_id ≡ c ∷ rest
    → remove_requestor_command q c.requestor_id ≡ ok q'
    → Keeps q (serve_requestor num) q' ((requestor c.requestor_id, c) ∷ [])
removed-Keeps q num c rest q' w split removed =
    let (c', rest', split', same) = remove_requestor_command_cases q c.requestor_id removed in
    let same_rest : rest' ≡ rest = cc in
    record {
      same_kind = ap (λ (x : CommandQueue). x.per_requestor_enable) same;
      well_formed = remove_requestor_command-IsWellFormed q c.requestor_id q' w removed;
      in_order =
          λ l. rw same (rw same_rest (served_requestor-in_order q c.requestor_id c rest l split));
    }

serve_requestor-Keeps :
    (q : CommandQueue) (num : ℕ) (r : CommandQueue × Served)
    → IsWellFormed q
    → serve_requestor_step q num ≡ ok r
    → Keeps q (serve_requestor num) r.0 r.1
unfolding serve_requestor_step
serve_requestor-Keeps q num r w e =
    let (c, got, e') = >>=-eq-ok (get_requestor_command q num) _ e in
    let (q', removed, e'') = >>=-eq-ok (remove_requestor_command q c.requestor_id) _ e' in
    let (rest, split) = get_requestor_command_cases q num c w got in
    subst (λ (x : CommandQueue × Served). Keeps q (serve_requestor num) x.0 x.1)
      (ok-injective _ _ e'') (removed-Keeps q num c rest q' w split removed)

popped_hrt-in_order :
    (q : CommandQueue) (c : BusPacket) (rest : List BusPacket) (l : Lane)
    → q.hrt_buffer ≡ c ∷ rest
    → contents q l ++ []
      ≡ departures l ((hrt, c) ∷ [])
        ++ contents (record q { scheduled_queue = true; hrt_buffer = rest }) l
popped_hrt-in_order q c rest (requestor j) split = append-nil (buffer_of q j)
popped_hrt-in_order q c rest hrt split = append-nil q.hrt_buffer ∙ split
popped_hrt-in_order q c rest srt split = append-nil q.srt_buffer

popped_srt-in_order :
    (q : CommandQueue) (c : BusPacket) (rest : List BusPacket) (l : Lane)
    → q.srt_buffer ≡ c ∷ rest
    → contents q l ++ []
      ≡ departures l ((srt, c) ∷ [])
        ++ contents (record q { scheduled_queue = false; srt_buffer = rest }) l
popped_srt-in_order q c rest (requestor j) split = append-nil (buffer_of q j)
popped_srt-in_order q c rest hrt split = append-nil q.hrt_buffer
popped_srt-in_order q c rest srt split = append-nil q.srt_buffer ∙ split

serve_general-Keeps :
    (q : CommandQueue) (critical : Bool) (r : CommandQueue × Served)
    → IsWellFormed q
    → serve_general_step q critical ≡ ok r
    → Keeps q (serve_general critical) r.0 r.1
unfolding serve_general_step get_command remove_command
serve_general-Keeps q true r w e = elim (List-cases q.hrt_buffer) [
  | inl none_left ↦ absurd (ground arith)
  | inr (c, rest, split) ↦
      let r_eq : ◌≡◌ {A = CommandQueue × Served}
          (record q { scheduled_queue = true; hrt_buffer = rest }, (hrt, c) ∷ []) r =
        ground arith in
      subst (λ (x : CommandQueue × Served). Keeps q (serve_general true) x.0 x.1) r_eq
        (record {
          same_kind = refl;
          well_formed = record { indexed = w.indexed; owned = w.owned };
          in_order = λ l. popped_hrt-in_order q c rest l split;
        })
]
serve_general-Keeps q false r w e = elim (List-cases q.srt_buffer) [
  | inl none_left ↦ absurd (ground arith)
  | inr (c, rest, split) ↦
      let r_eq : ◌≡◌ {A = CommandQueue × Served}
          (record q { scheduled_queue = false; srt_buffer = rest }, (srt, c) ∷ []) r =
        ground arith in
      subst (λ (x : CommandQueue × Served). Keeps q (serve_general false) x.0 x.1) r_eq
        (record {
          same_kind = refl;
          well_formed = record { indexed = w.indexed; owned = w.owned };
          in_order = λ l. popped_srt-in_order q c rest l split;
        })
]

step-Keeps :
    (q : CommandQueue) (call : Call) (r : CommandQueue × Served)
    → IsWellFormed q
    → step q call ≡ ok r
    → Keeps q call r.0 r.1
unfolding step
step-Keeps q (arrive c critical) r w e =
    subst (λ (x : CommandQueue × Served). Keeps q (arrive c critical) x.0 x.1) (ok-injective _ _ e)
      (arrive-Keeps q c critical w)
step-Keeps q (serve_requestor num) r w e = serve_requestor-Keeps q num r w e
step-Keeps q (serve_general critical) r w e = serve_general-Keeps q critical r w e

departures-append :
    (l : Lane) (xs ys : Served) → departures l (xs ++ ys) ≡ departures l xs ++ departures l ys
departures-append l [] ys = refl
departures-append l ((k, c) ∷ xs) ys = ground (arith, departures-append l xs ys)

-- Two balanced steps in a row are balanced.
chain_steps :
    (before came came' out middle out' after : List BusPacket)
    → before ++ came ≡ out ++ middle
    → middle ++ came' ≡ out' ++ after
    → before ++ (came ++ came') ≡ (out ++ out') ++ after
chain_steps before came came' out middle out' after p q =
    sym (append_assoc before came came')
    ∙ ap (λ xs. xs ++ came') p
    ∙ append_assoc out middle came'
    ∙ ap (λ xs. out ++ xs) q
    ∙ sym (append_assoc out out' after)

-- From a well-formed queue, whatever calls are made, and in whatever order: if none of them goes
-- wrong, each lane hands out exactly what it held and what arrived for it, in that order, and still
-- holds the remainder.
pub run_fifo :
    (q : CommandQueue) (calls : List Call) (r : CommandQueue × Served) (l : Lane)
    → IsWellFormed q
    → run q calls ≡ ok r
    → contents q l ++ arrivals q.per_requestor_enable l calls ≡ departures l r.1 ++ contents r.0 l
unfolding run
run_fifo q [] r l w e =
    append-nil (contents q l)
    ∙ ap (λ (x : CommandQueue × Served). departures l x.1 ++ contents x.0 l) (ok-injective _ _ e)
run_fifo q (call ∷ calls) r l w e =
    let (first, stepped, e') = >>=-eq-ok (step q call) _ e in
    let (rest, ran, e'') = >>=-eq-ok (run first.0 calls) _ e' in
    let kept = step-Keeps q call first w stepped in
    let later = run_fifo first.0 calls rest l kept.well_formed ran in
    let kind = kept.same_kind in
    let later' =
      subst
        (λ b. contents first.0 l ++ arrivals b l calls ≡ departures l rest.1 ++ contents rest.0 l)
        kind later in
    let out_eq = departures-append l first.1 rest.1 in
    subst
      (λ (x : CommandQueue × Served).
        contents q l ++ arrivals q.per_requestor_enable l (call ∷ calls)
        ≡ departures l x.1 ++ contents x.0 l)
      (ok-injective _ _ e'')
      (rw out_eq
        (chain_steps (contents q l) _ _ _ (contents first.0 l) _ _ (kept.in_order l) later'))
