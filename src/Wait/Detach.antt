-- ===== src/Wait/Detach.antt =====
-- What `rmw_wait` reports, and that it leaves no pointer to the wait set behind.
use rmw_zenoh_pico.Prelude.{
  ℕ, ◌≡◌, refl, ap, Bool, false, not, ◌||◌, List, [], ◌∷◌, if◌then◌else◌, arith, length, suc, zero,
}
use rmw_zenoh_pico.Memory.{Ptr, null}
use rmw_zenoh_pico.Rmw.{ret_ok, ret_timeout}
use rmw_zenoh_pico.MessageList.{recv_msg_list_empty}
use rmw_zenoh_pico.Wait.{
  World, Collections, guard_condition_detach_and_is_trigger_set,
  zenoh_pico_condition_detach_and_queue_is_empty,
}
use rmw_zenoh_pico.Wait.Call.{
  detach_loop, condition_ready, detach_events, repeat_events, returned, detach_all,
}
use rmw_zenoh_pico.Wait.Ready.{
  keep_all, any_ready, Each, Each-map, detach_loop-keeps, detach_loop-ready, detach_loop-each,
}

-- The queues and the guards' flags, which detaching leaves alone.
abbrev pub SameReady : World → World → Type 0
SameReady w v =
    ((p : Ptr) → (v.conditions p).msg_queue ≡ (w.conditions p).msg_queue)
    × ((p : Ptr) → (v.guards p).triggered ≡ (w.guards p).triggered)

-- A subscription, service or client is ready if a message is queued, a guard condition if it is
-- triggered.
abbrev pub queued : World → Ptr → Bool
queued w p = not (recv_msg_list_empty (w.conditions p).msg_queue)

abbrev pub triggered_guard : World → Ptr → Bool
triggered_guard w p = (w.guards p).triggered

abbrev pub ready_collections : Collections → World → Collections
ready_collections c w = record {
  subscriptions = keep_all (queued w) c.subscriptions;
  guard_conditions = keep_all (triggered_guard w) c.guard_conditions;
  services = keep_all (queued w) c.services;
  clients = keep_all (queued w) c.clients;
  events = c.events;
}

abbrev pub some_ready : Collections → World → Bool
some_ready c w =
    any_ready (triggered_guard w) c.guard_conditions
    || (any_ready (queued w) c.subscriptions
        || (any_ready (queued w) c.services || any_ready (queued w) c.clients))

abbrev pub AllNull : List Ptr → Type 0
AllNull [] = Unit
AllNull (p ∷ ps) = (p ≡ null) × AllNull ps

abbrev pub IsDetached : Collections → World → Type 0
IsDetached c v =
    Each (λ p. (v.guards p).wait_set_data ≡ null) c.guard_conditions
    × Each (λ p. (v.conditions p).wait_set_data ≡ null) c.subscriptions
    × Each (λ p. (v.conditions p).wait_set_data ≡ null) c.services
    × Each (λ p. (v.conditions p).wait_set_data ≡ null) c.clients

pub guard-same :
    (w : World) (p : Ptr) (v : World)
    → SameReady w v
    → SameReady w (guard_condition_detach_and_is_trigger_set p v).0
unfolding guard_condition_detach_and_is_trigger_set
guard-same w p v h = (h.0, (λ q. ground (arith, h.1 q, h.1 p)))

condition-same :
    (w : World) (p : Ptr) (v : World) → SameReady w v → SameReady w (condition_ready p v).0
unfolding condition_ready zenoh_pico_condition_detach_and_queue_is_empty
condition-same w p v h = ((λ q. ground (arith, h.0 q, h.0 p)), h.1)

pub guard-says :
    (w : World) (p : Ptr) (v : World)
    → SameReady w v
    → (guard_condition_detach_and_is_trigger_set p v).1 ≡ triggered_guard w p
unfolding guard_condition_detach_and_is_trigger_set
guard-says w p v h = h.1 p

condition-says :
    (w : World) (p : Ptr) (v : World) → SameReady w v → (condition_ready p v).1 ≡ queued w p
unfolding condition_ready zenoh_pico_condition_detach_and_queue_is_empty
condition-says w p v h = ap (λ q. not (recv_msg_list_empty q)) (h.0 p)

abbrev GuardFree : Ptr → World → Type 0
GuardFree p v = (v.guards p).wait_set_data ≡ null

abbrev ConditionFree : Ptr → World → Type 0
ConditionFree p v = (v.conditions p).wait_set_data ≡ null

guard-sets : (p : Ptr) (v : World) → GuardFree p (guard_condition_detach_and_is_trigger_set p v).0
unfolding guard_condition_detach_and_is_trigger_set
guard-sets p v = ground arith

guard-keeps :
    (p q : Ptr) (v : World)
    → GuardFree p v
    → GuardFree p (guard_condition_detach_and_is_trigger_set q v).0
unfolding guard_condition_detach_and_is_trigger_set
guard-keeps p q v h = ground (arith, h)

condition-sets : (p : Ptr) (v : World) → ConditionFree p (condition_ready p v).0
unfolding condition_ready zenoh_pico_condition_detach_and_queue_is_empty
condition-sets p v = ground arith

condition-keeps :
    (p q : Ptr) (v : World) → ConditionFree p v → ConditionFree p (condition_ready q v).0
unfolding condition_ready zenoh_pico_condition_detach_and_queue_is_empty
condition-keeps p q v h = ground (arith, h)

condition-keeps_guard :
    (p q : Ptr) (v : World) → GuardFree p v → GuardFree p (condition_ready q v).0
unfolding condition_ready zenoh_pico_condition_detach_and_queue_is_empty
condition-keeps_guard p q v h = h

-- What holds of each entry of one collection still holds after the loop over another one.
later :
    (D : Ptr → World → Type 0)
    → ((p q : Ptr) (v : World) → D p v → D p (condition_ready q v).0)
    → (ps qs : List Ptr) (w : World) → Each (λ p. D p w) ps
    → Each (λ p. D p (detach_loop condition_ready qs w).1) ps
later D keeps ps qs w =
    Each-map (λ p. D p w) (λ p. D p (detach_loop condition_ready qs w).1)
      (λ p. detach_loop-keeps condition_ready (D p) (keeps p) qs w) ps

pass_null : (events : List Ptr) (w : World) → AllNull events → detach_events events w ≡ (w, false)
unfolding detach_events
pass_null [] w h = refl
pass_null (p ∷ ps) w (is_null, rest) = rw (is_null, pass_null ps w rest) refl

repeat_null :
    (rounds : ℕ) (events : List Ptr) (w : World)
    → AllNull events
    → repeat_events rounds events w ≡ (w, false)
unfolding repeat_events
repeat_null zero events w h = refl
repeat_null (suc rounds) events w h = rw (pass_null events w h) (repeat_null rounds events w h)

-- The same as below, for what was ready in an earlier world with the same queues and flags.
pub detach_all-from :
    (c : Collections) (w0 w : World)
    → SameReady w0 w
    → AllNull c.events
    → (v : World) × (detach_all c w
        ≡ returned (if some_ready c w0 then ret_ok else ret_timeout) (ready_collections c w0) v)
      × IsDetached c v
      × SameReady w0 v
unfolding detach_all
detach_all-from c w0 w same0 no_events =
    let w1 = (detach_loop guard_condition_detach_and_is_trigger_set c.guard_conditions w).1 in
    let w3 = (detach_loop condition_ready c.subscriptions w1).1 in
    let w4 = (detach_loop condition_ready c.services w3).1 in
    let w5 = (detach_loop condition_ready c.clients w4).1 in
    let same1 : SameReady w0 w1 =
      detach_loop-keeps guard_condition_detach_and_is_trigger_set (SameReady w0) (guard-same w0)
        c.guard_conditions w same0 in
    let each = detach_loop-each condition_ready ConditionFree condition-sets condition-keeps in
    let (guards, any1) =
      detach_loop-ready guard_condition_detach_and_is_trigger_set (SameReady w0)
        (triggered_guard w0) (guard-same w0) (guard-says w0) c.guard_conditions w same0 in
    let step = detach_loop-keeps condition_ready (SameReady w0) (condition-same w0) in
    let ready =
      detach_loop-ready condition_ready (SameReady w0) (queued w0) (condition-same w0)
        (condition-says w0) in
    let same3 = step c.subscriptions w1 same1 in
    let same4 = step c.services w3 same3 in
    let (subs, any3) = ready c.subscriptions w1 same1 in
    let (servs, any4) = ready c.services w3 same3 in
    let (clis, any5) = ready c.clients w4 same4 in
    (
      w5,
      rw
          (
            repeat_null (length c.events) c.events w1 no_events,
            guards,
            any1,
            subs,
            any3,
            servs,
            any4,
            clis,
            any5,
          )
          refl,
      (
        later GuardFree condition-keeps_guard c.guard_conditions c.clients w4 (
            later GuardFree condition-keeps_guard c.guard_conditions c.services w3 (
              later GuardFree condition-keeps_guard c.guard_conditions c.subscriptions w1 (
                detach_loop-each guard_condition_detach_and_is_trigger_set GuardFree guard-sets
                  guard-keeps c.guard_conditions w))),
        later ConditionFree condition-keeps c.subscriptions c.clients w4 (
            later ConditionFree condition-keeps c.subscriptions c.services w3
              (each c.subscriptions w1)),
        later ConditionFree condition-keeps c.services c.clients w4 (each c.services w3),
        each c.clients w4,
      ),
      step c.clients w4 same4,
    )

-- Without events, the part of rmw_wait behind the sleep returns: the entries whose queue is not empty, or
-- whose guard is triggered, stay and the others become NULL, the code is RMW_RET_OK if one stays
-- and RMW_RET_TIMEOUT otherwise, no entry keeps its pointer to a wait set, and the queues and
-- the guards' flags are as before.
pub detach_all-lem :
    (c : Collections) (w : World)
    → AllNull c.events
    → (v : World) × (detach_all c w
        ≡ returned (if some_ready c w then ret_ok else ret_timeout) (ready_collections c w) v)
      × IsDetached c v
      × SameReady w v
detach_all-lem c w = detach_all-from c w w ((λ p. refl), (λ p. refl))
