-- ===== src/CommandScheduler/Timers.antt =====
-- The timers of src/CommandScheduler.cpp: what `sendCommand` and `tick` make of them.
use mcsim.Common.{
  ℕ, zero, suc, ◌+◌, ◌≤◌, ◌<◌, ◌≡◌, refl, sym, ap, Bool, true, false, Map, insert, find_or, max,
  arith, ◌&&◌, leb, ltb, ◌==◌, if◌then◌else◌, find_or-insert, Option, some, none, get_elem?, ok,
  >>=-eq-ok, ok-injective, defined, if_rule, ==_iff, subst, some-injective, defined-eq-ok,
}
use mcsim.Packet.{BusPacket}
use mcsim.CommandQueue.{CommandQueue, remove_command, remove_requestor_command}
use mcsim.CommandScheduler.{
  CommandScheduler, Device, raise_timers, raised, timed_types, with_queue, send_requestor,
  send_general, send_command, replace_queue,
}

-- A raised timer is the larger of its old value and the constraint; the others are as they were.
raise_timers-find_or :
    (timing : ℕ → ℕ) (timers : Map ℕ) (start n type : ℕ)
    → find_or (raise_timers timing timers start n) type 0 ≡ (
        if leb start type && ltb type (start + n)
        then max (find_or timers type 0) (timing type)
        else find_or timers type 0)
unfolding raise_timers
raise_timers-find_or timing timers start zero type = ground arith
raise_timers-find_or timing timers start (suc n) type = ground (
  arith,
  raise_timers-find_or timing (insert timers start (max (find_or timers start 0) (timing start)))
      (start + 1) n type,
  find_or-insert timers start (max (find_or timers start 0) (timing start)) type 0,
)

-- A set of timers: those of a queue's general buffers, or those of one requestor in a queue.
pub data Lane : Type 0 where
  general : ℕ → Lane
  requestor : ℕ → ℕ → Lane

-- What a lane's timer for a command type stands at.
abbrev pub timer : {D : Type 0} → CommandScheduler D → Lane → ℕ → ℕ
timer s (general index) type = find_or (s.cmd_queue_timer index) type 0
timer s (requestor index id) type = find_or (s.req_cmd_queue_timer index id) type 0

-- The lane of a command of the queue at `index`, if there is such a queue.
abbrev pub lane_of : {D : Type 0} → CommandScheduler D → BusPacket → ℕ → Option Lane
lane_of s cmd index =
    with_queue (get_elem? s.command_queue index) none (some (requestor index cmd.requestor_id))
      (some (general index))

module _ {D : Type 0} (device : Device D) where
  open device use {command_timing}

  raised-ge_old :
      (cmd : BusPacket) (timers : Map ℕ) (type : ℕ)
      → find_or timers type 0 ≤ find_or (raised device cmd timers) type 0
  unfolding raised
  raised-ge_old cmd timers type =
      ground (arith, raise_timers-find_or (command_timing cmd) timers 0 timed_types type)

  raised-ge_timing :
      (cmd : BusPacket) (timers : Map ℕ) (type : ℕ)
      → type < timed_types
      → command_timing cmd type ≤ find_or (raised device cmd timers) type 0
  unfolding raised
  raised-ge_timing cmd timers type h =
      ground (arith, raise_timers-find_or (command_timing cmd) timers 0 timed_types type)

  -- What a send does to the timers: none falls, and those of its own lane cover the constraints.
  pub record Raises (s s' : CommandScheduler D) (cmd : BusPacket) (lane : Lane) : Type 0 where
    pub none_falls : (l : Lane) (type : ℕ) → timer s l type ≤ timer s' l type
    pub covered : (type : ℕ) → type < timed_types → command_timing cmd type ≤ timer s' lane type

  general_raises :
      (s : CommandScheduler D) (cmd : BusPacket) (index i type : ℕ)
      → find_or (s.cmd_queue_timer i) type 0
        ≤ find_or
            (if i == index then raised device cmd (s.cmd_queue_timer i) else s.cmd_queue_timer i)
            type
            0
  general_raises s cmd index i type =
      if_rule (λ (m : Map ℕ). find_or (s.cmd_queue_timer i) type 0 ≤ find_or m type 0) (i == index)
        (λ _. raised-ge_old cmd (s.cmd_queue_timer i) type) (λ _. omega arith)

  requestor_raises :
      (s : CommandScheduler D) (cmd : BusPacket) (index i id type : ℕ)
      → find_or (s.req_cmd_queue_timer i id) type 0
        ≤ find_or
            (if i == index
              then (if id == cmd.requestor_id
                  then raised device cmd (s.req_cmd_queue_timer i id)
                  else s.req_cmd_queue_timer i id)
              else s.req_cmd_queue_timer i id)
            type
            0
  requestor_raises s cmd index i id type =
      let P : Map ℕ → Type 0 =
        λ m. find_or (s.req_cmd_queue_timer i id) type 0 ≤ find_or m type 0 in
      if_rule P (i == index)
        (λ _.
          if_rule P (id == cmd.requestor_id)
            (λ _. raised-ge_old cmd (s.req_cmd_queue_timer i id) type) (λ _. omega arith))
        (λ _. omega arith)

  general_covered :
      (s : CommandScheduler D) (cmd : BusPacket) (index type : ℕ)
      → type < timed_types
      → command_timing cmd type
        ≤ find_or
            (if index == index
              then raised device cmd (s.cmd_queue_timer index)
              else s.cmd_queue_timer index)
            type
            0
  general_covered s cmd index type h =
      rw ((==_iff index index).1 refl) (raised-ge_timing cmd (s.cmd_queue_timer index) type h)

  general_Raises :
      (s s' : CommandScheduler D) (cmd : BusPacket) (index : ℕ)
      → s'.cmd_queue_timer
        ≡ (λ i. if i == index then raised device cmd (s.cmd_queue_timer i) else s.cmd_queue_timer i)
      → s'.req_cmd_queue_timer ≡ s.req_cmd_queue_timer
      → Raises s s' cmd (general index)
  general_Raises s s' cmd index e f = record {
    none_falls = none_falls;
    covered = λ type h. rw e (general_covered s cmd index type h);
  }
    where
      none_falls : (l : Lane) (type : ℕ) → timer s l type ≤ timer s' l type
      none_falls (general i) type = rw e (general_raises s cmd index i type)
      none_falls (requestor i id) type = rw f (omega arith)

  requestor_covered :
      (s : CommandScheduler D) (cmd : BusPacket) (index type : ℕ)
      → type < timed_types
      → command_timing cmd type
        ≤ find_or
            (if index == index
              then (if cmd.requestor_id == cmd.requestor_id
                  then raised device cmd (s.req_cmd_queue_timer index cmd.requestor_id)
                  else s.req_cmd_queue_timer index cmd.requestor_id)
              else s.req_cmd_queue_timer index cmd.requestor_id)
            type
            0
  requestor_covered s cmd index type h = rw ((==_iff index index).1 refl) (
      rw ((==_iff cmd.requestor_id cmd.requestor_id).1 refl)
        (raised-ge_timing cmd (s.req_cmd_queue_timer index cmd.requestor_id) type h))

  requestor_Raises :
      (s s' : CommandScheduler D) (cmd : BusPacket) (index : ℕ)
      → s'.cmd_queue_timer ≡ s.cmd_queue_timer
      → s'.req_cmd_queue_timer ≡ (λ i id.
        if i == index
        then (if id == cmd.requestor_id
            then raised device cmd (s.req_cmd_queue_timer i id)
            else s.req_cmd_queue_timer i id)
        else s.req_cmd_queue_timer i id)
      → Raises s s' cmd (requestor index cmd.requestor_id)
  requestor_Raises s s' cmd index e f = record {
    none_falls = none_falls;
    covered = λ type h. rw f (requestor_covered s cmd index type h);
  }
    where
      none_falls : (l : Lane) (type : ℕ) → timer s l type ≤ timer s' l type
      none_falls (general i) type = rw e (omega arith)
      none_falls (requestor i id) type = rw f (requestor_raises s cmd index i id type)

  send_general-Raises :
      (s s' : CommandScheduler D) (cmd : BusPacket) (index : ℕ) (bypass : Bool) (q : CommandQueue)
      → send_general device s cmd index bypass q ≡ ok s'
      → Raises s s' cmd (general index)
  unfolding send_general replace_queue
  send_general-Raises s s' cmd index true q e =
      let e' = ok-injective _ _ e in
      general_Raises s s' cmd index (sym (ap (λ (x : CommandScheduler D). x.cmd_queue_timer) e'))
        (sym (ap (λ (x : CommandScheduler D). x.req_cmd_queue_timer) e'))
  send_general-Raises s s' cmd index false q e =
      let (q', _, r) = >>=-eq-ok (remove_command q) _ e in
      let e' = ok-injective _ _ r in
      general_Raises s s' cmd index (sym (ap (λ (x : CommandScheduler D). x.cmd_queue_timer) e'))
        (sym (ap (λ (x : CommandScheduler D). x.req_cmd_queue_timer) e'))

  send_requestor-Raises :
      (s s' : CommandScheduler D) (cmd : BusPacket) (index : ℕ) (q : CommandQueue)
      → send_requestor device s cmd index q ≡ ok s'
      → Raises s s' cmd (requestor index cmd.requestor_id)
  unfolding send_requestor replace_queue
  send_requestor-Raises s s' cmd index q e =
      let (q', _, r) = >>=-eq-ok (remove_requestor_command q cmd.requestor_id) _ e in
      let e' = ok-injective _ _ r in
      requestor_Raises s s' cmd index (sym (ap (λ (x : CommandScheduler D). x.cmd_queue_timer) e'))
        (sym (ap (λ (x : CommandScheduler D). x.req_cmd_queue_timer) e'))

  -- The part of `sendCommand` before the device, at a queue of either kind.
  send_Raises :
      (s s' : CommandScheduler D) (cmd : BusPacket) (index : ℕ) (bypass : Bool) (q : CommandQueue)
      (lane : Lane) (per_requestor : Bool)
      → (if per_requestor
          then send_requestor device s cmd index q
          else send_general device s cmd index bypass q)
        ≡ ok s'
      → (if per_requestor then some (requestor index cmd.requestor_id) else some (general index))
        ≡ some lane
      → Raises s s' cmd lane
  send_Raises s s' cmd index bypass q lane true e l =
      subst (Raises s s' cmd) (some-injective _ _ l) (send_requestor-Raises s s' cmd index q e)
  send_Raises s s' cmd index bypass q lane false e l =
      subst (Raises s s' cmd) (some-injective _ _ l) (send_general-Raises s s' cmd index bypass q e)

  pub send_command-Raises :
      (s s' : CommandScheduler D) (cmd : BusPacket) (index : ℕ) (bypass : Bool) (lane : Lane)
      → send_command device s cmd index bypass ≡ ok s'
      → lane_of s cmd index ≡ some lane
      → Raises s s' cmd lane
  unfolding send_command
  send_command-Raises s s' cmd index bypass lane e l =
      let (q, found, e') = >>=-eq-ok (defined (get_elem? s.command_queue index)) _ e in
      let (s1, sent, e'') =
        >>=-eq-ok
          (if q.per_requestor_enable
            then send_requestor device s cmd index q
            else send_general device s cmd index bypass q)
          _ e' in
      let here : get_elem? s.command_queue index ≡ some q = defined-eq-ok _ found in
      let raises =
        send_Raises s s1 cmd index bypass q lane q.per_requestor_enable sent (rw here at l) in
      subst (λ x. Raises s x cmd lane) (ok-injective _ _ e'')
        (record { none_falls = raises.none_falls; covered = raises.covered })
