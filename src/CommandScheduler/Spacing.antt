-- ===== src/CommandScheduler/Spacing.antt =====
-- The spacing of the commands that leave src/CommandScheduler.cpp: a run is any sequence of ticks,
-- arrivals of commands and sends, where a policy sends only what `isReady` lets through.
use mcsim.Common.{
  ℕ, ◌+◌, ◌≤◌, ◌<◌, ◌≡◌, refl, ap, subst, Bool, true, false, Option, some, none, List, [], ◌∷◌, Map,
  find_or, map_values, get_elem?, set, if◌then◌else◌, Outcome, ok, ◌>>=◌, >>=-eq-ok, ok-injective,
  defined, defined-eq-ok, get_or, map_option, some-injective, if_rule, All, arith,
}
use mcsim.Packet.{BusPacket, type_index}
use mcsim.CommandQueue.{CommandQueue, insert_command}
use mcsim.CommandScheduler.{
  CommandScheduler, Device, timed_types, count_down, with_queue, tick_timers, tick, is_ready,
  elapsed, send_command,
}
use mcsim.CommandScheduler.Timers.{Lane, general, requestor, timer, lane_of, send_command-Raises}
use mcsim.RefreshMachine

count_down-le : (o : Option ℕ) → get_or o 0 ≤ get_or (map_option count_down o) 0 + 1
count_down-le none = omega arith
count_down-le (some n) = ground arith

ticked_general :
    (o : Option CommandQueue) (m : Map ℕ) (type : ℕ)
    → find_or m type 0 ≤ find_or (with_queue o m m (map_values count_down m)) type 0 + 1
ticked_general none m type = omega arith
ticked_general (some q) m type =
    if_rule (λ (k : Map ℕ). find_or m type 0 ≤ find_or k type 0 + 1) q.per_requestor_enable
      (λ _. omega arith) (λ _. count_down-le (m type))

ticked_requestor :
    (o : Option CommandQueue) (m : Map ℕ) (type : ℕ)
    → find_or m type 0 ≤ find_or (with_queue o m (map_values count_down m) m) type 0 + 1
ticked_requestor none m type = omega arith
ticked_requestor (some q) m type =
    if_rule (λ (k : Map ℕ). find_or m type 0 ≤ find_or k type 0 + 1) q.per_requestor_enable
      (λ _. count_down-le (m type)) (λ _. omega arith)

-- A timer falls by one at most in a tick.
timer-tick_timers :
    {D : Type 0} (s : CommandScheduler D) (l : Lane) (type : ℕ)
    → timer s l type ≤ timer (tick_timers s) l type + 1
unfolding tick_timers
timer-tick_timers s (general i) type =
    ticked_general (get_elem? s.command_queue i) (s.cmd_queue_timer i) type
timer-tick_timers s (requestor i id) type =
    ticked_requestor (get_elem? s.command_queue i) (s.req_cmd_queue_timer i id) type

timer-tick :
    {D : Type 0} (s s' : CommandScheduler D)
    → tick s ≡ ok s'
    → (l : Lane) (type : ℕ) → timer s l type ≤ timer s' l type + 1
unfolding tick
timer-tick s s' e l type =
    let (stepped, _, r) = >>=-eq-ok (RefreshMachine.step s.refresh_machine s.command_queue) _ e in
    subst (λ (x : CommandScheduler _). timer s l type ≤ timer x l type + 1) (ok-injective _ _ r)
      (same l)
  where
    same : (l : Lane) → timer s l type ≤ timer (tick_timers s) l type + 1
    same l = timer-tick_timers s l type

-- A command that was sent: when, counted in ticks of the run, and in which lane.
pub record Sent : Type 0 where
  pub time : ℕ
  pub lane : Lane
  pub command : BusPacket

pub data Action : Type 0 where
  ticks : Action
  arrives : ℕ → BusPacket → Bool → Action
  sends : BusPacket → ℕ → Bool → Action

module _ {D : Type 0} (device : Device D) where
  open device use {command_timing}

  -- The scheduler, the ticks so far, and the commands sent, newest first.
  pub record Play : Type 0 where
    pub scheduler : CommandScheduler D
    pub now : ℕ
    pub log : List Sent

  send_if : Play → BusPacket → ℕ → Bool → Bool → Outcome Play
  send_if p cmd index bypass false = ok p
  send_if p cmd index bypass true = do
    lane ← defined (lane_of p.scheduler cmd index)
    s' ← send_command device p.scheduler cmd index bypass
    ok (record p {
      scheduler = s';
      log = record { time = p.now; lane = lane; command = cmd } ∷ p.log;
    })

  arrive : CommandScheduler D → ℕ → BusPacket → Bool → CommandQueue → CommandScheduler D
  arrive s index cmd critical q = record s {
    command_queue = set s.command_queue index (insert_command q cmd critical);
  }

  perform : Play → Action → Outcome Play
  unfolding send_if arrive
  perform p ticks = do s' ← tick p.scheduler; ok (record p { scheduler = s'; now = p.now + 1 })
  perform p (arrives index cmd critical) = do
    q ← defined (get_elem? p.scheduler.command_queue index)
    ok (record p { scheduler = arrive p.scheduler index cmd critical q })
  perform p (sends cmd index bypass) = do
    ready ← is_ready p.scheduler cmd index
    send_if p cmd index bypass ready

  unfoldable pub run : Play → List Action → Outcome Play
  unfolding perform
  run p [] = ok p
  run p (a ∷ as') = do p' ← perform p a; run p' as'

  -- The commands that `e` follows in its lane are older by the constraint of each on `e`.
  abbrev pub Follows : Sent → Sent → Type 0
  Follows e old =
      old.lane ≡ e.lane
      → type_index e.command.bus_packet_type < timed_types
      → old.time + command_timing old.command (type_index e.command.bus_packet_type) ≤ e.time

  -- Each command keeps the constraints of all that were sent before it.
  abbrev pub IsSpaced : List Sent → Type 0
  IsSpaced [] = Unit
  IsSpaced (e ∷ log) = All (Follows e) log × IsSpaced log

  -- The timers still hold what is left of the constraints of a command sent.
  Remembers : CommandScheduler D → ℕ → Sent → Type 0
  Remembers s now e =
      (type : ℕ)
      → type < timed_types
      → e.time + command_timing e.command type ≤ timer s e.lane type + now

  record Inv (p : Play) : Type 0 where
    remembers : All (Remembers p.scheduler p.now) p.log
    spaced : IsSpaced p.log

  Remembers-map :
      (s s' : CommandScheduler D) (now now' : ℕ) (log : List Sent)
      → ((l : Lane) (type : ℕ) → timer s l type + now ≤ timer s' l type + now')
      → All (Remembers s now) log
      → All (Remembers s' now') log
  unfolding Remembers
  Remembers-map s s' now now' [] f h = tt
  Remembers-map s s' now now' (e ∷ log) f h =
      (λ type lt. omega (arith, h.0 type lt, f e.lane type), Remembers-map s s' now now' log f h.1)

  Follows-ready :
      (s : CommandScheduler D) (now : ℕ) (lane : Lane) (cmd : BusPacket) (log : List Sent)
      → timer s lane (type_index cmd.bus_packet_type) ≡ 0
      → All (Remembers s now) log
      → All (Follows (record { time = now; lane = lane; command = cmd })) log
  unfolding Remembers
  Follows-ready s now lane cmd [] e h = tt
  Follows-ready s now lane cmd (old ∷ log) e h = (
    λ same lt.
        omega (arith, h.0 _ lt, ap (λ l. timer s l (type_index cmd.bus_packet_type)) same, e),
    Follows-ready s now lane cmd log e h.1,
  )

  elapsed-zero : (o : Option ℕ) → elapsed o ≡ true → get_or o 0 ≡ 0
  elapsed-zero none e = refl
  elapsed-zero (some n) e = ground arith

  ready_at :
      (s : CommandScheduler D) (cmd : BusPacket) (index : ℕ) (lane : Lane) (b : Bool) (type : ℕ)
      → elapsed (
          (if b then s.req_cmd_queue_timer index cmd.requestor_id else s.cmd_queue_timer index)
            type)
        ≡ true
      → (if b then some (requestor index cmd.requestor_id) else some (general index)) ≡ some lane
      → timer s lane type ≡ 0
  ready_at s cmd index lane true type e l =
      subst (λ k. timer s k type ≡ 0) (some-injective _ _ l)
        (elapsed-zero (s.req_cmd_queue_timer index cmd.requestor_id type) e)
  ready_at s cmd index lane false type e l =
      subst (λ k. timer s k type ≡ 0) (some-injective _ _ l)
        (elapsed-zero (s.cmd_queue_timer index type) e)

  is_ready-timer :
      (s : CommandScheduler D) (cmd : BusPacket) (index : ℕ) (lane : Lane)
      → is_ready s cmd index ≡ ok true
      → lane_of s cmd index ≡ some lane
      → timer s lane (type_index cmd.bus_packet_type) ≡ 0
  unfolding is_ready
  is_ready-timer s cmd index lane e l =
      let (q, found, e') = >>=-eq-ok (defined (get_elem? s.command_queue index)) _ e in
      let here : get_elem? s.command_queue index ≡ some q = defined-eq-ok _ found in
      ready_at s cmd index lane q.per_requestor_enable _ (ok-injective _ _ e') (rw here at l)

  send_if-Inv :
      (p p' : Play) (cmd : BusPacket) (index : ℕ) (bypass ready : Bool)
      → is_ready p.scheduler cmd index ≡ ok ready
      → send_if p cmd index bypass ready ≡ ok p'
      → Inv p
      → Inv p'
  unfolding send_if
  send_if-Inv p p' cmd index bypass false r e v = subst Inv (ok-injective _ _ e) v
  send_if-Inv p p' cmd index bypass true r e v =
      let (lane, named, e') = >>=-eq-ok (defined (lane_of p.scheduler cmd index)) _ e in
      let (s', sent, e'') = >>=-eq-ok (send_command device p.scheduler cmd index bypass) _ e' in
      let here : lane_of p.scheduler cmd index ≡ some lane = defined-eq-ok _ named in
      let raises = send_command-Raises device p.scheduler s' cmd index bypass lane sent here in
      subst Inv (ok-injective _ _ e'') (record {
        remembers = (
          unfold Remembers in λ type lt. omega (arith, raises.covered type lt),
          Remembers-map p.scheduler s' p.now p.now p.log
              (λ l type. omega (arith, raises.none_falls l type)) v.remembers,
        );
        spaced = (
          Follows-ready p.scheduler p.now lane cmd p.log
              (is_ready-timer p.scheduler cmd index lane r here) v.remembers,
          v.spaced,
        );
      })

  perform-Inv : (p p' : Play) (a : Action) → perform p a ≡ ok p' → Inv p → Inv p'
  unfolding perform
  perform-Inv p p' ticks e v =
      let (s', ticked, e') = >>=-eq-ok (tick p.scheduler) _ e in
      subst Inv (ok-injective _ _ e') (record {
        remembers =
            Remembers-map p.scheduler s' p.now (p.now + 1) p.log
              (λ l type. omega (arith, timer-tick p.scheduler s' ticked l type)) v.remembers;
        spaced = v.spaced;
      })
  perform-Inv p p' (arrives index cmd critical) e v =
      let (q, _, e') = >>=-eq-ok (defined (get_elem? p.scheduler.command_queue index)) _ e in
      subst Inv (ok-injective _ _ e') (record {
        remembers =
            Remembers-map p.scheduler _ p.now p.now p.log (λ l type. arrive-timer q l type)
              v.remembers;
        spaced = v.spaced;
      })
    where
      arrive-timer :
          (q : CommandQueue) (l : Lane) (type : ℕ)
          → timer p.scheduler l type + p.now
            ≤ timer (arrive p.scheduler index cmd critical q) l type + p.now
      arrive-timer q (general i) type = omega arith
      arrive-timer q (requestor i id) type = omega arith
  perform-Inv p p' (sends cmd index bypass) e v =
      let (ready, r, e') = >>=-eq-ok (is_ready p.scheduler cmd index) _ e in
      send_if-Inv p p' cmd index bypass ready r e' v

  run-Inv : (p p' : Play) (actions : List Action) → run p actions ≡ ok p' → Inv p → Inv p'
  unfolding run
  run-Inv p p' [] e v = subst Inv (ok-injective _ _ e) v
  run-Inv p p' (a ∷ rest) e v =
      let (p1, first, e') = >>=-eq-ok (perform p a) _ e in
      run-Inv p1 p' rest e' (perform-Inv p p1 a first v)

  -- In any run that starts with no command sent, and in which a command goes out only when `isReady`
  -- lets it, two commands of one lane (a general buffer, or a requestor's buffer, of one queue) are
  -- apart by at least the constraint that the device puts between the earlier one and the type of
  -- the later one, for every type that has a timer.
  pub run-IsSpaced :
      (s : CommandScheduler D) (actions : List Action) (p' : Play)
      → run (record { scheduler = s; now = 0; log = [] }) actions ≡ ok p'
      → IsSpaced p'.log
  run-IsSpaced s actions p' e =
      (run-Inv _ p' actions e (record { remembers = tt; spaced = tt })).spaced
