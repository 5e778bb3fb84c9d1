-- ===== src/RequestScheduler/RoundRobin/Limited.antt =====
-- system/RTMem/RequestScheduler_RTMem.h: the round-robin policy with a test for room in the command queues.
use mcsim.Common.{
  ℕ, ◌-◌, ◌<◌, ◌≡◌, refl, sym, ap, ◌∙◌, Bool, true, false, ◌||◌, List, [], ◌∷◌, length, leb,
  if◌then◌else◌, Outcome, ok, ◌>>=◌, inl, inr, ◌⊎◌, Bool-cases, if_true, if_false, ok-injective,
}
use mcsim.Packet.{Request}
use mcsim.RequestQueue.{RequestQueue}
use mcsim.RequestQueue.Removal.{requestor_scheduled}
use mcsim.CommandQueue.{CommandQueue}
use mcsim.CommandQueue
use mcsim.RequestQueue.Turns.{taken}
use mcsim.RequestScheduler.Rotation.{next_turn}
use mcsim.RequestScheduler.RoundRobin.{round_robin_schedule}
use mcsim.RequestScheduler.RoundRobin.Single.{
  single, Looked, Answers, StaysIdle, round_robin_schedule-TakesTurn,
}

-- The loop over the command queues: some queue holds two commands of a kind or more.
unfoldable pub some_full : List CommandQueue → Bool
some_full [] = false
some_full (q ∷ qs) =
    if leb 2 (CommandQueue.get_size q true) || leb 2 (CommandQueue.get_size q false)
    then true
    else some_full qs

module _ {G : Type 0} (generate : G → Request → Bool → Outcome G) where
  -- `isSchedulable`
  unfoldable pub limited : List CommandQueue → G → Request → Bool → Outcome (Bool × G)
  unfolding some_full
  limited queues g r open_row =
      if some_full queues then ok (false, g) else (do g' ← generate g r open_row; ok (true, g'))

  -- `generate` is defined.
  abbrev pub Generates : Type 0
  Generates = (g : G) (r : Request) → (g' : G) × (generate g r false ≡ ok g')

  limited_full :
      (queues : List CommandQueue) (g : G) (r : Request) (open_row : Bool)
      → some_full queues ≡ true
      → limited queues g r open_row ≡ ok (false, g)
  unfolding limited
  limited_full queues g r open_row full = if_true (some_full queues) _ _ full

  limited-Answers : (queues : List CommandQueue) → Generates → Answers (limited queues)
  unfolding limited
  limited-Answers queues defined g r = elim (Bool-cases (some_full queues)) [
    | inl full ↦ (false, g, if_true (some_full queues) _ _ full)
    | inr room ↦
        let (g', e) = defined g r in (true, g', if_false (some_full queues) _ _ room ∙ rw e refl)
  ]

  -- One queue with a buffer for each requestor, at the end of a slot. Some command queue holds two
  -- commands, both critical or neither, and `generate` is defined. The call
  -- leaves the generator as it is, and so every requestor's buffer and the turn; if a request waits, a
  -- slot begins all the same.
  pub limited_full-Kept :
      (queues : List CommandQueue) (slot i : ℕ) (g : G) (q : RequestQueue)
      → Generates
      → some_full queues ≡ true
      → q.per_requestor_enable ≡ true
      → i < length q.requestor_order
      → ((l : Looked (limited queues) i g q) × (round_robin_schedule
              (limited queues)
              (single 0 slot i)
              g
              (q ∷ [])
            ≡ ok (single (slot - 1) slot l.place, g, requestor_scheduled q l.id 0 ∷ [])))
        ⊎ StaysIdle (limited queues) slot i g q
  limited_full-Kept queues slot i g q defined full kind hi =
      elim (round_robin_schedule-TakesTurn (limited queues) slot i g q
        (limited-Answers queues defined) kind hi) [
          | inr idle ↦ inr idle
          | inl (l, e) ↦
              let answer : ◌≡◌ {A = Bool × G} (l.scheduled, l.generator) (false, g) =
                ok-injective _ _ (sym l.answered ∙ limited_full queues g l.r false full) in
              inl (
                l,
                e
                    ∙ ap
                        (λ (p : Bool × G). ok (
                          single (slot - 1) slot (
                              if p.0
                              then next_turn (length q.requestor_order) l.place
                              else l.place),
                          p.1,
                          (if p.0 then taken q l.id l.rest else requestor_scheduled q l.id 0) ∷ [],
                        ))
                        answer,
              )
        ]
