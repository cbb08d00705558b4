-- ===== src/Wait/Call.antt =====
-- `rmw_wait` itself: the sleep and the loops that detach, after the attaching of Wait.
use rmw_zenoh_pico.Prelude.{
  ltb, leb, ◌&&◌, Option, some, ℕ, zero, suc, ◌+◌, ◌^◌, ◌/◌, ◌%◌, Bool, true, false, not, ◌&&◌,
  ◌||◌, Bytes, Option, none, some, List, [], ◌∷◌, ◌==◌, if◌then◌else◌, length,
}
use rmw_zenoh_pico.Memory.{Ptr, null}
use rmw_zenoh_pico.Rmw.{
  RmwRet, ret_ok, ret_error, ret_timeout, ret_invalid_argument, ret_incorrect_rmw_implementation,
  identifier_matches,
}
use rmw_zenoh_pico.Wait.{
  World, Collections, assign, wait_condition_triggered, check_and_attach_condition,
  guard_condition_detach_and_is_trigger_set, zenoh_pico_condition_detach_and_queue_is_empty,
}

-- `rmw_time_t`, and the fields of `struct timespec`.
pub record RmwTime : Type 0 where
  pub sec : ℕ
  pub nsec : ℕ

-- The absolute time that `z_condvar_timewait` computes from the clock and the time to wait. The fields of a
-- `struct timespec` are signed words of 64 bits, written as their bit patterns: the caller's `uint64_t`
-- values keep theirs. `none` is the overflow of the signed sum of the nanoseconds, which happens only if both
-- are positive; the sum of the seconds is unsigned, since `_nsec_time` is a `uint64_t`. The clock's values
-- are below 2 ^ 63.
unfoldable pub timewait_deadline : (now wait_timeout : RmwTime) → Option RmwTime
timewait_deadline now wait_timeout =
    if ltb wait_timeout.nsec (2 ^ 63) && leb (2 ^ 63) (now.nsec + wait_timeout.nsec)
    then none
    else let nsec_time = (now.nsec + wait_timeout.nsec) % 2 ^ 64 in
      some (record {
        sec = (now.sec + (wait_timeout.sec + nsec_time / 1000000000) % 2 ^ 64) % 2 ^ 64;
        nsec = nsec_time % 1000000000;
      })

-- In `z_condvar_wait`: another thread's turn ends the wait if it signals the condition variable, and
-- then the loop looks at the flag again. `none` is a wait that does not end.
unfoldable pub in_wait : List (World → World) → (wait_set : Ptr) → World → Option World
in_wait [] wait_set w = none
in_wait (others ∷ rest) wait_set w =
    let w1 = others w in
    let later = in_wait rest wait_set w1 in
    if (w1.wait_sets wait_set).signals == (w.wait_sets wait_set).signals
    then later
    else if (w1.wait_sets wait_set).triggered
    then some w1
    else later

-- `while(!wait_set_data->triggered) z_condvar_wait(cv, lock);`
unfoldable pub wait_loop : List (World → World) → (wait_set : Ptr) → World → Option World
unfolding in_wait
wait_loop turns wait_set w =
    if (w.wait_sets wait_set).triggered then some w else in_wait turns wait_set w

-- A timed wait ends once, by a signal or by the clock, after the others' first turn.
timed_wait : List (World → World) → World → World
timed_wait [] w = w
timed_wait (others ∷ rest) w = others w

unfoldable pub sleep :
    List (World → World) → (wait_timeout : Option RmwTime) → (wait_set : Ptr) → World → Option World
unfolding wait_loop timed_wait
sleep turns none wait_set w = wait_loop turns wait_set w
sleep turns (some t) wait_set w =
    if t.sec == 0 && t.nsec == 0 then some w else some (timed_wait turns w)

-- `wait_set_data->triggered = false`
unfoldable pub reset_triggered : Ptr → World → World
reset_triggered wait_set w = record w {
  wait_sets = assign w.wait_sets wait_set (wait_condition_triggered (w.wait_sets wait_set) false);
}

-- A loop that detaches: entries that are not ready become NULL. The flag says whether one was ready.
unfoldable pub detach_loop :
    (Ptr → World → World × Bool) → List Ptr → World → List Ptr × World × Bool
detach_loop ready [] w = ([], w, false)
detach_loop ready (p ∷ ps) w =
    let rest = detach_loop ready ps in
    if p == null
    then (let (ps', w', any) = rest w in (null ∷ ps', w', any))
    else let (w1, is_ready) = ready p w in
      let (ps', w', any) = rest w1 in ((if is_ready then p else null) ∷ ps', w', is_ready || any)

-- Subscriptions, services and clients are ready if their queue is not empty.
unfoldable pub condition_ready : Ptr → World → World × Bool
condition_ready p w =
    let (w1, empty) = zenoh_pico_condition_detach_and_queue_is_empty p w in (w1, not empty)

-- The two nested loops over the events: the first entry that is not NULL is detached, its queue is
-- reported as empty (see Event) and `rmw_wait` returns `true`.
unfoldable pub detach_events : List Ptr → World → World × Bool
detach_events [] w = (w, false)
detach_events (p ∷ ps) w =
    let rest = detach_events ps w in
    if p == null
    then rest
    else (record w { event_wait_sets = assign w.event_wait_sets p null }, true)

unfoldable pub repeat_events : ℕ → List Ptr → World → World × Bool
unfolding detach_events
repeat_events zero events w = (w, false)
repeat_events (suc rounds) events w =
    let (w1, returned) = detach_events events w in
    let rest = repeat_events rounds events w1 in if returned then (w1, true) else rest

pub data WaitOutcome : Type 0 where
  returned : RmwRet → Collections → World → WaitOutcome
  asleep : WaitOutcome

-- The part of `rmw_wait` behind the sleep. `return true` is the code 1, RMW_RET_ERROR.
unfoldable pub detach_all : Collections → World → WaitOutcome
unfolding detach_loop repeat_events condition_ready
detach_all c w =
    let (guard_conditions, w1, any1) =
      detach_loop guard_condition_detach_and_is_trigger_set c.guard_conditions w in
    let (w2, failed) = repeat_events (length c.events) c.events w1 in
    let (subscriptions, w3, any3) = detach_loop condition_ready c.subscriptions w2 in
    let (services, w4, any4) = detach_loop condition_ready c.services w3 in
    let (clients, w5, any5) = detach_loop condition_ready c.clients w4 in
    if failed
    then returned ret_error (record c { guard_conditions = guard_conditions }) w2
    else returned (if any1 || (any3 || (any4 || any5)) then ret_ok else ret_timeout)
        (record {
          subscriptions = subscriptions;
          guard_conditions = guard_conditions;
          services = services;
          clients = clients;
          events = c.events;
        })
        w5

-- The world in which the entries are detached, unless the sleep does not end.
unfoldable pub attach_and_sleep :
    List (World → World) → Collections → (wait_set : Ptr) → Option RmwTime → World → Option World
unfolding sleep reset_triggered
attach_and_sleep turns c wait_set wait_timeout w =
    let (w1, skip_wait) = check_and_attach_condition c wait_set w in
    if skip_wait then some w1 else elim (sleep turns wait_timeout wait_set w1) [
      | none ↦ none
      | some w2 ↦ some (reset_triggered wait_set w2)
    ]

-- The wait set handle: its implementation identifier and its data, NULL or not.
pub record RmwWaitSet : Type 0 where
  pub implementation_identifier : Option Bytes
  pub wait_data : Ptr

unfoldable pub rmw_wait :
    List (World → World) → Collections → Option RmwWaitSet → Option RmwTime → World → WaitOutcome
unfolding attach_and_sleep detach_all
rmw_wait turns c none wait_timeout w = returned ret_invalid_argument c w
rmw_wait turns c (some ws) wait_timeout w =
    if not (identifier_matches ws.implementation_identifier)
    then returned ret_incorrect_rmw_implementation c w
    else if ws.wait_data == null
    then returned ret_error c w
    else elim (attach_and_sleep turns c ws.wait_data wait_timeout w) [
      | none ↦ asleep
      | some w1 ↦ detach_all c w1
    ]
