-- ===== src/CommandScheduler/Push/Looks.antt =====
-- What the loops of src/generalScheduler/CommandScheduler_PUSH.h see of the queues, and what they change in them.
use mcsim.Common.{
  ℕ, ltb-suc, zero, suc, ◌<◌, ◌≡◌, refl, sym, ap, ◌∙◌, subst, Bool, true, false, ◌&&◌, Bool-cases,
  Option, none, some, some-injective, List, [], ◌∷◌, map, length, length-set, get_elem?,
  get_elem?-in_range, get_elem?-set_self, get_elem?-set_ne, set, ◌==◌, ==_iff, if◌then◌else◌, inl,
  inr, ok, arith, List-cases,
}
use mcsim.Packet.{BusPacket, type_index}
use mcsim.CommandQueue.{CommandQueue, get_size, get_command}
use mcsim.CommandScheduler.{CommandScheduler, Device, elapsed, timers_for, is_ready, is_issuable}
use mcsim.CommandScheduler.Push.{check}

abbrev marked : CommandQueue → CommandQueue
marked q = record q { scheduled_queue = true }

-- A queue without its mark, which says from which buffer a removal would take.
abbrev pub unmarked : CommandQueue → CommandQueue
unmarked q = record q { scheduled_queue = false }

-- The queue at an index would give up the front of its critical buffer.
abbrev pub IsMarked : List CommandQueue → ℕ → Type 0
IsMarked qs j = (q : CommandQueue) × (get_elem? qs j ≡ some q) × (q.scheduled_queue ≡ true)

IsMarked-set :
    (qs : List CommandQueue) (i j : ℕ) (q : CommandQueue)
    → i < length qs
    → IsMarked qs j
    → IsMarked (set qs i (marked q)) j
IsMarked-set qs i j q l (x, at, m) = elim (Bool-cases (i == j)) [
  | inl same ↦ (
    marked q,
    ap (get_elem? (set qs i (marked q))) (sym ((==_iff i j).0 same))
        ∙ get_elem?-set_self qs i (marked q) l,
    refl,
  )
  | inr other ↦ (x, get_elem?-set_ne qs i j (marked q) (ground arith) ∙ at, m)
]

map-set-marked :
    (qs : List CommandQueue) (i : ℕ) (q : CommandQueue)
    → get_elem? qs i ≡ some q
    → map unmarked (set qs i (marked q)) ≡ map unmarked qs
map-set-marked [] i q e = cc
map-set-marked (x ∷ qs) zero q e =
    ap (λ y. unmarked y ∷ map unmarked qs) (sym (some-injective _ _ e))
map-set-marked (x ∷ qs) (suc i) q e = ap (λ l. unmarked x ∷ l) (map-set-marked qs i q e)

module _ {D : Type 0} (device : Device D) where
  -- A command that its timers and the device let go.
  unfoldable pub can_go : CommandScheduler D → ℕ → CommandQueue → BusPacket → Bool
  can_go s index q c =
      elapsed (timers_for s index q c.requestor_id (type_index c.bus_packet_type))
      && is_issuable device s c

  view_front : CommandScheduler D → ℕ → CommandQueue → List BusPacket → Option BusPacket
  view_front s index q [] = none
  view_front s index q (c ∷ cs) = if can_go s index q c then some c else none

  view_queue : CommandScheduler D → ℕ → Option CommandQueue → Option BusPacket
  unfolding view_front
  view_queue s index none = none
  view_queue s index (some q) = view_front s index q q.hrt_buffer

  -- The command at the front of the critical buffer of the queue at `index`, if it can go.
  unfoldable pub candidate : CommandScheduler D → ℕ → Option BusPacket
  unfolding view_queue
  candidate s index = view_queue s index (get_elem? s.command_queue index)

  -- `s` is `s0`, but for the marks of its queues.
  pub record OnlyMarked (s0 s : CommandScheduler D) : Type 0 where
    pub same_rest : s ≡ record s0 { command_queue = s.command_queue }
    pub same_queues : map unmarked s.command_queue ≡ map unmarked s0.command_queue

  -- The scheduler's candidates are `v`, for `n` queues, and it is `s0` but for the marks.
  pub record Shows (s0 : CommandScheduler D) (v : ℕ → Option BusPacket) (n : ℕ)
      (s : CommandScheduler D) : Type 0 where
    pub views : (j : ℕ) → candidate s j ≡ v j
    pub number : length s.command_queue ≡ n
    pub only_marked : OnlyMarked s0 s

  view_front-marked :
      (s : CommandScheduler D) (qs : List CommandQueue) (j : ℕ) (q : CommandQueue) (b : Bool)
      (l : List BusPacket)
      → view_front (record s { command_queue = qs }) j (record q { scheduled_queue = b }) l
        ≡ view_front s j q l
  unfolding view_front can_go is_issuable
  view_front-marked s qs j q b [] = refl
  view_front-marked s qs j q b (c ∷ cs) = refl

  view_queue-queues :
      (s : CommandScheduler D) (qs : List CommandQueue) (j : ℕ) (o : Option CommandQueue)
      → view_queue (record s { command_queue = qs }) j o ≡ view_queue s j o
  unfolding view_queue
  view_queue-queues s qs j none = refl
  view_queue-queues s qs j (some q) = view_front-marked s qs j q q.scheduled_queue q.hrt_buffer

  -- Marking a queue's buffer shows the same candidates.
  candidate-marked :
      (s : CommandScheduler D) (i : ℕ) (q : CommandQueue) (j : ℕ)
      → get_elem? s.command_queue i ≡ some q
      → i < length s.command_queue
      → candidate (record s { command_queue = set s.command_queue i (marked q) }) j ≡ candidate s j
  unfolding candidate view_queue
  candidate-marked s i q j g l = elim (Bool-cases (i == j)) [
    | inl t ↦
        subst
          (λ k.
            candidate (record s { command_queue = set s.command_queue i (marked q) }) k
            ≡ candidate s k)
          ((==_iff i j).0 t)
          (rw (get_elem?-set_self s.command_queue i (marked q) l)
            (rw g (view_front-marked s (set s.command_queue i (marked q)) i q true q.hrt_buffer)))
    | inr f ↦
        rw (get_elem?-set_ne s.command_queue i j (marked q) (ground arith))
          (view_queue-queues s (set s.command_queue i (marked q)) j (get_elem? s.command_queue j))
  ]

  pub record Checked (s0 : CommandScheduler D) (v : ℕ → Option BusPacket) (n : ℕ)
      (s : CommandScheduler D) (i : ℕ) : Type 0 where
    pub after : CommandScheduler D
    pub runs : check device s i ≡ ok (v i, after)
    pub shows : Shows s0 v n after
    pub keeps : (j : ℕ) → IsMarked s.command_queue j → IsMarked after.command_queue j
    pub marks : (c : BusPacket) → v i ≡ some c → IsMarked after.command_queue i

  check_empty :
      (s : CommandScheduler D) (i : ℕ) (q : CommandQueue)
      → get_elem? s.command_queue i ≡ some q
      → q.hrt_buffer ≡ []
      → check device s i ≡ ok (candidate s i, s)
  unfolding check candidate view_queue view_front get_size
  check_empty s i q g e = rw g (rw e refl)

  candidate_empty :
      (s : CommandScheduler D) (i : ℕ) (q : CommandQueue)
      → get_elem? s.command_queue i ≡ some q
      → q.hrt_buffer ≡ []
      → candidate s i ≡ none
  unfolding candidate view_queue view_front
  candidate_empty s i q g e = rw g (rw e refl)

  none≢some : (c : BusPacket) → none ≡ some c → ⊥
  none≢some c e = cc

  check_full :
      (s : CommandScheduler D) (i : ℕ) (q : CommandQueue) (c : BusPacket) (cs : List BusPacket)
      → let full = record q { hrt_buffer = c ∷ cs } in
        get_elem? s.command_queue i ≡ some full
        → i < length s.command_queue
        → check device s i
          ≡ ok (candidate s i, record s { command_queue = set s.command_queue i (marked full) })
  unfolding check candidate view_queue view_front get_size get_command is_ready can_go is_issuable
  check_full s i q c cs g l = rw g (
      rw (ltb-suc (length cs)) (
        rw (get_elem?-set_self s.command_queue i (marked (record q { hrt_buffer = c ∷ cs })) l)
          refl))

  pub check-Checked :
      (s0 : CommandScheduler D) (v : ℕ → Option BusPacket) (n : ℕ) (s : CommandScheduler D) (i : ℕ)
      → Shows s0 v n s
      → i < n
      → Checked s0 v n s i
  check-Checked s0 v n s i h l =
      let l' : i < length s.command_queue = subst (λ k. i < k) (sym h.number) l in
      let (q, g) = get_elem?-in_range s.command_queue i l' in
      elim (List-cases q.hrt_buffer) [
        | inl e ↦ record {
          after = s;
          runs = check_empty s i q g e ∙ ap (λ o. ok (o, s)) (h.views i);
          shows = h;
          keeps = λ j m. m;
          marks =
              λ c shown. absurd (none≢some c (sym (candidate_empty s i q g e) ∙ h.views i ∙ shown));
        }
        | inr (c, cs, e) ↦
            let g' = g ∙ ap (λ b. some (record q { hrt_buffer = b })) e in
            let full = record q { hrt_buffer = c ∷ cs } in
            let s' = record s { command_queue = set s.command_queue i (marked full) } in
            record {
              after = s';
              keeps = λ j m. IsMarked-set s.command_queue i j full l' m;
              marks = λ c shown.
                  (marked full, get_elem?-set_self s.command_queue i (marked full) l', refl);
              runs = check_full s i q c cs g' l' ∙ ap (λ o. ok (o, s')) (h.views i);
              shows = record {
                views = λ j. candidate-marked s i full j g' l' ∙ h.views j;
                number = length-set s.command_queue i (marked full) ∙ h.number;
                only_marked = record {
                  same_rest =
                      ap (λ (x : CommandScheduler D). record x { command_queue = s'.command_queue })
                        (h.only_marked).same_rest;
                  same_queues =
                      map-set-marked s.command_queue i full g' ∙ (h.only_marked).same_queues;
                };
              };
            }
      ]
