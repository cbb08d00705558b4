-- ===== src/Wait/Trigger.antt =====
-- What wakes `rmw_wait`: a message that another thread queues, and a guard condition that it triggers.
use rmw_zenoh_pico.Prelude.{
  ℕ, ◌≡◌, refl, ap, ◌∙◌, true, false, none, some, List, [], ◌∷◌, ◌==◌, arith, Bool-cases, inl, inr,
  ◌+◌, ==_refl,
}
use rmw_zenoh_pico.Memory.{Ptr, null}
use rmw_zenoh_pico.MessageList.{ReceiveMessageDataList}
use rmw_zenoh_pico.Wait.{World, assign, zenoh_pico_condition_trigger, guard_condition_trigger}
use rmw_zenoh_pico.Wait.Call.{in_wait, wait_loop}

-- `add_new_subscription_message`, seen from the wait set: the append leaves the queue `queue`, and the
-- condition is triggered. The data callback in between does not reach wait sets.
abbrev pub with_queue : Ptr → (queue : ReceiveMessageDataList) → World → World
with_queue p queue w = record w {
  conditions = assign w.conditions p (record (w.conditions p) { msg_queue = queue });
}

unfoldable pub deliver : Ptr → (queue : ReceiveMessageDataList) → World → World
deliver p queue w = zenoh_pico_condition_trigger p (with_queue p queue w)

pub trigger-conditions :
    (p : Ptr) (w : World) → (zenoh_pico_condition_trigger p w).conditions ≡ w.conditions
unfolding zenoh_pico_condition_trigger
trigger-conditions p w = elim (Bool-cases ((w.conditions p).wait_set_data == null)) [
  | inl none_set ↦ rw none_set refl
  | inr some_set ↦ rw some_set refl
]

-- A trigger sets the flag of the wait set that the condition points to, and sends it one signal.
pub trigger-set :
    (p wait_set : Ptr) (w : World)
    → (w.conditions p).wait_set_data ≡ wait_set
    → (wait_set == null) ≡ false
    → (((zenoh_pico_condition_trigger p w).wait_sets wait_set).triggered ≡ true)
      × (((zenoh_pico_condition_trigger p w).wait_sets wait_set).signals
          ≡ (w.wait_sets wait_set).signals + 1)
unfolding zenoh_pico_condition_trigger
trigger-set p wait_set w attached is_set = rw (attached, is_set, ==_refl wait_set) (refl, refl)

pub deliver-queue :
    (p : Ptr) (queue : ReceiveMessageDataList) (w : World)
    → ((deliver p queue w).conditions p).msg_queue ≡ queue
unfolding deliver
deliver-queue p queue w =
    ap (λ f. (f p).msg_queue) (trigger-conditions p (with_queue p queue w)) ∙ ground arith

more_signals : (n : ℕ) → ((n + 1) == n) ≡ false
more_signals n = ground arith

-- If a condition points to a wait set that is not NULL and whose flag is unset, a sleep of rmw_wait on
-- that wait set without a timeout ends as soon as a message is delivered to the condition.
pub deliver-wakes :
    (p : Ptr) (queue : ReceiveMessageDataList) (wait_set : Ptr) (w : World)
    → (w.conditions p).wait_set_data ≡ wait_set
    → (wait_set == null) ≡ false
    → (w.wait_sets wait_set).triggered ≡ false
    → (later : List (World → World))
    → wait_loop (deliver p queue ∷ later) wait_set w ≡ some (deliver p queue w)
unfolding deliver wait_loop in_wait
deliver-wakes p queue wait_set w attached is_set unset later =
    let (set, signalled) =
      trigger-set p wait_set (with_queue p queue w) (ground (arith, attached)) is_set in
    rw (unset, signalled, more_signals (w.wait_sets wait_set).signals, set) refl

abbrev pub guard_turns : List Ptr → List (World → World)
guard_turns [] = []
guard_turns (g ∷ gs) = guard_condition_trigger g ∷ guard_turns gs

trigger-signals :
    (g wait_set : Ptr) (w : World)
    → ((guard_condition_trigger g w).wait_sets wait_set).signals ≡ (w.wait_sets wait_set).signals
unfolding guard_condition_trigger
trigger-signals g wait_set w = elim (Bool-cases ((w.guards g).wait_set_data == null)) [
  | inl none_set ↦ rw none_set refl
  | inr some_set ↦ rw some_set ground arith
]

in_wait-guards :
    (gs : List Ptr) (wait_set : Ptr) (w : World) → in_wait (guard_turns gs) wait_set w ≡ none
unfolding in_wait
in_wait-guards [] wait_set w = refl
in_wait-guards (g ∷ gs) wait_set w =
    rw (trigger-signals g wait_set w, ==_refl (w.wait_sets wait_set).signals)
      (in_wait-guards gs wait_set (guard_condition_trigger g w))

-- While the flag of the wait set is unset at its start, a sleep without a timeout never ends by guard
-- conditions that are triggered during it, however many: the condition variable is not signalled.
pub guards-never_wake :
    (gs : List Ptr) (wait_set : Ptr) (w : World)
    → (w.wait_sets wait_set).triggered ≡ false
    → wait_loop (guard_turns gs) wait_set w ≡ none
unfolding wait_loop
guards-never_wake gs wait_set w unset = rw unset (in_wait-guards gs wait_set w)
