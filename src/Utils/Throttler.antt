-- ===== src/Utils/Throttler.antt =====
-- python/shim-service/src/utils/throttler.py, with utils/signal_event.py: a worker thread that calls
-- its caller some time after it was asked to, once for all that asked meanwhile. Each block under the
-- mutex is one step, as are the wait, the call and the test after it.
pub mod Spacing
pub mod Waits
use shim_service.Base.{
  ℕ, ◌+◌, ◌-◌, Bool, true, false, ◌||◌, Option, none, some, List, [], ◌∷◌, leb, if◌then◌else◌,
}

pub record SignalEvent : Type 0 where
  pub manual_reset : Bool
  pub signalled : Bool

abbrev pub new_event : SignalEvent
new_event = record { manual_reset = false; signalled = false }

unfoldable pub notify : Bool → SignalEvent → SignalEvent
notify keep_signalled e = record {
  manual_reset = keep_signalled || e.manual_reset;
  signalled = true;
}

-- `wait`, told whether the condition it may wait on is notified in time.
unfoldable pub wait : Bool → SignalEvent → Bool × SignalEvent
wait notified e =
    if e.signalled || notified
    then (true, (if e.manual_reset then e else record e { signalled = false }))
    else (false, e)

-- Where the worker is: in `wait`, before the mutex, before or in the call, before the last test, or
-- done.
pub data Phase : Type 0 where
  waiting woken calling testing stopped : Phase

-- The fields, and the variables of the worker.
pub record Throttler : Type 0 where
  pub event : SignalEvent
  pub any_waiting : Bool
  pub shutdown : Bool
  pub started : Bool
  pub phase : Phase
  pub start_time : Option ℕ
  pub sleep_time : ℕ

abbrev pub new_throttler : Throttler
new_throttler = record {
  event = new_event;
  any_waiting = false;
  shutdown = false;
  started = false;
  phase = Phase.waiting;
  start_time = none;
  sleep_time = 10000;
}

-- `none` is the assertion's failure.
unfoldable pub add_invocation : Throttler → Option Throttler
unfolding notify
add_invocation t =
    if t.shutdown
    then none
    else some (record t { any_waiting = true; started = true; event = notify false t.event })

-- What `close` does before it joins the thread.
unfoldable pub close : Throttler → Throttler
unfolding notify
close t =
    if t.shutdown
    then t
    else record t { shutdown = true; event = if t.started then notify true t.event else t.event }

-- What a step of the worker, or another thread's call, is.
pub data Act : Type 0 where
  adds closes calls tests : Act
  wakes : Bool → Act
  looks : ℕ → Act

abbrev pub is_calling : Phase → Bool
is_calling Phase.calling = true
is_calling p = false

-- The time of the look that decided to call, if the step is one.
abbrev pub called_at : Act → Throttler → Option ℕ
called_at (Act.looks now) t = if is_calling t.phase then some now else none
called_at a t = none

abbrev pub and_call : Option ℕ → List ℕ → List ℕ
and_call none times = times
and_call (some now) times = now ∷ times

abbrev pub test : Throttler → Throttler
test t = record t { phase = if t.shutdown then Phase.stopped else Phase.waiting }

module _ (throttle_millis : ℕ) where
  abbrev invoke : Throttler → Throttler
  invoke t = record t {
    any_waiting = false;
    start_time = none;
    sleep_time = 10000;
    phase = Phase.calling;
  }

  -- The two times on the clock are of a clock that may go back.
  elapsed_since : Option ℕ → ℕ → Throttler → Throttler
  elapsed_since none now t = record t {
    start_time = some now;
    sleep_time = throttle_millis;
    phase = Phase.testing;
  }
  elapsed_since (some start) now t =
      if leb (start + throttle_millis) now
      then invoke t
      else record t { sleep_time = (start + throttle_millis) - now; phase = Phase.testing }

  -- The worker's block under the mutex, at a time.
  unfoldable pub look : ℕ → Throttler → Throttler
  unfolding elapsed_since
  look now t =
      if t.any_waiting
      then (if t.shutdown then invoke t else elapsed_since t.start_time now t)
      else record t { phase = Phase.testing }

  -- The worker's step where it is in the phase for it.
  abbrev pub work : Phase → Act → Throttler → Option Throttler
  work Phase.waiting (Act.wakes notified) t =
      if t.started
      then some (record t { event = (wait notified t.event).1; phase = Phase.woken })
      else none
  work Phase.woken (Act.looks now) t = some (look now t)
  work Phase.calling Act.calls t = some (record t { phase = Phase.testing })
  work Phase.testing Act.tests t = some (test t)
  work p a t = none

  -- A step; `none` where there is none of that kind.
  unfoldable pub step : Act → Throttler → Option Throttler
  step Act.adds t = add_invocation t
  step Act.closes t = some (close t)
  step a t = work t.phase a t

  -- The times at which a run decides to call, as far as its steps are ones that can be taken.
  unfoldable pub call_times : List Act → Throttler → List ℕ
  call_times [] t = []
  call_times (a ∷ acts) t = elim (step a t) [
    | none ↦ []
    | some t' ↦ and_call (called_at a t') (call_times acts t')
  ]

  -- A run, where all its steps can be taken.
  unfoldable pub run : List Act → Throttler → Option Throttler
  run [] t = some t
  run (a ∷ acts) t = elim (step a t) [ none ↦ none | some t' ↦ run acts t' ]
