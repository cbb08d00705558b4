-- ===== src/Wait.antt =====
-- Wait sets: rmw_wait.c, the conditions of zenoh_pico_condition.c and the guard conditions of
-- rmw_guard_condition.c. The objects that other threads reach as well live in a world, and the
-- collections of `rmw_wait` are lists of pointers into it. What other threads do while `rmw_wait`
-- sleeps is an argument: a list of functions on the world, one for each turn of another thread.
pub mod Call
pub mod Detach
pub mod Ready
pub mod Trigger
pub mod Attach
pub mod Check
pub mod Attached
pub mod Kept
pub mod Wake
pub mod Deadline
pub mod Handles
mod Tests
use rmw_zenoh_pico.Prelude.{
  ℕ, suc, ◌+◌, Bool, true, false, not, ◌&&◌, ◌||◌, Bytes, Option, none, some, List, [], ◌∷◌, ◌==◌,
  if◌then◌else◌,
}
use rmw_zenoh_pico.Memory.{Ptr, null}
use rmw_zenoh_pico.MessageList.{ReceiveMessageDataList, recv_msg_list_empty}
use rmw_zenoh_pico.Rmw.{
  RmwRet, ret_ok, ret_error, ret_timeout, ret_invalid_argument, ret_incorrect_rmw_implementation,
  identifier_matches,
}

-- `ZenohPicoWaitSetData`, with the number of signals that its condition variable was sent.
pub record ZenohPicoWaitSetData : Type 0 where
  pub triggered : Bool
  pub signals : ℕ

-- What a subscription, service or client shows to `rmw_wait`: `ZenohPicoWaitCondition` names its queue
-- of received messages and its pointer to a wait set.
pub record ZenohPicoWaitCondition : Type 0 where
  pub msg_queue : ReceiveMessageDataList
  pub wait_set_data : Ptr

pub record ZenohPicoGuardConditionData : Type 0 where
  pub triggered : Bool
  pub wait_set_data : Ptr

-- The wait set pointers of the event managers stand apart from their callbacks.
pub record World : Type 0 where
  pub wait_sets : Ptr → ZenohPicoWaitSetData
  pub conditions : Ptr → ZenohPicoWaitCondition
  pub guards : Ptr → ZenohPicoGuardConditionData
  pub event_wait_sets : Ptr → Ptr

abbrev pub assign {ℓ} : {A : Type ℓ} → (Ptr → A) → Ptr → A → Ptr → A
assign f p a q = if q == p then a else f q

-- `wait_condition_triggered` and `wait_condition_signal`
abbrev pub wait_condition_triggered : ZenohPicoWaitSetData → Bool → ZenohPicoWaitSetData
wait_condition_triggered d value = record d { triggered = value }

abbrev pub wait_condition_signal : ZenohPicoWaitSetData → ZenohPicoWaitSetData
wait_condition_signal d = record d { signals = d.signals + 1 }

unfoldable pub zenoh_pico_condition_trigger : Ptr → World → World
zenoh_pico_condition_trigger cond w =
    let set = (w.conditions cond).wait_set_data in
    if set == null then w else record w {
      wait_sets =
          assign w.wait_sets set
            (wait_condition_signal (wait_condition_triggered (w.wait_sets set) true));
    }

unfoldable pub zenoh_pico_condition_check_and_attach : Ptr → (wait_set : Ptr) → World → World × Bool
unfolding recv_msg_list_empty
zenoh_pico_condition_check_and_attach cond wait_set w =
    let c = w.conditions cond in
    if not (recv_msg_list_empty c.msg_queue) then (w, true) else (
      record w { conditions = assign w.conditions cond (record c { wait_set_data = wait_set }) },
      false,
    )

unfoldable pub zenoh_pico_condition_detach_and_queue_is_empty : Ptr → World → World × Bool
unfolding recv_msg_list_empty
zenoh_pico_condition_detach_and_queue_is_empty cond w =
    let c = w.conditions cond in
    (
      record w { conditions = assign w.conditions cond (record c { wait_set_data = null }) },
      recv_msg_list_empty c.msg_queue,
    )

-- The flag of the wait set is set, but its condition variable is not signalled.
unfoldable pub guard_condition_trigger : Ptr → World → World
guard_condition_trigger guard w =
    let g = w.guards guard in
    let w1 = record w { guards = assign w.guards guard (record g { triggered = true }) } in
    if g.wait_set_data == null then w1 else record w1 {
      wait_sets =
          assign w.wait_sets g.wait_set_data
            (wait_condition_triggered (w.wait_sets g.wait_set_data) true);
    }

unfoldable pub guard_condition_check_and_attach : Ptr → (wait_set : Ptr) → World → World × Bool
guard_condition_check_and_attach guard wait_set w =
    let g = w.guards guard in
    if g.triggered then (w, true) else if wait_set == null then (w, false) else (
      record w { guards = assign w.guards guard (record g { wait_set_data = wait_set }) },
      false,
    )

-- The flag stays set.
unfoldable pub guard_condition_detach_and_is_trigger_set : Ptr → World → World × Bool
guard_condition_detach_and_is_trigger_set guard w =
    let g = w.guards guard in
    (record w { guards = assign w.guards guard (record g { wait_set_data = null }) }, g.triggered)

-- `event_condition_check_and_attach`: no event is ever pending, see Event.
unfoldable pub event_check_and_attach : Ptr → (wait_set : Ptr) → World → World × Bool
event_check_and_attach event wait_set w =
    (record w { event_wait_sets = assign w.event_wait_sets event wait_set }, false)

-- One loop of `_check_and_attach_condition`, with its early return.
unfoldable pub attach_loop : (Ptr → World → World × Bool) → List Ptr → World → World × Bool
attach_loop check [] w = (w, false)
attach_loop check (p ∷ ps) w =
    let rest = attach_loop check ps in
    if p == null
    then rest w
    else let (w1, ready) = check p w in if ready then (w1, true) else rest w1

-- A later loop runs only if the earlier ones found nothing ready.
abbrev pub or_else : (World → World × Bool) → (World → World × Bool) → World → World × Bool
or_else f g w = let (w1, ready) = f w in if ready then (w1, true) else g w1

-- The five collections; a NULL collection is the empty list.
pub record Collections : Type 0 where
  pub subscriptions : List Ptr
  pub guard_conditions : List Ptr
  pub services : List Ptr
  pub clients : List Ptr
  pub events : List Ptr

unfoldable pub check_and_attach_condition : Collections → (wait_set : Ptr) → World → World × Bool
unfolding attach_loop
check_and_attach_condition c wait_set =
    or_else (attach_loop (λ p. guard_condition_check_and_attach p wait_set) c.guard_conditions) (
      or_else (attach_loop (λ p. event_check_and_attach p wait_set) c.events) (
        or_else
          (attach_loop (λ p. zenoh_pico_condition_check_and_attach p wait_set) c.subscriptions)
          (or_else (attach_loop (λ p. zenoh_pico_condition_check_and_attach p wait_set) c.services)
            (attach_loop (λ p. zenoh_pico_condition_check_and_attach p wait_set) c.clients))))
