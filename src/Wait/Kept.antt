-- ===== src/Wait/Kept.antt =====
-- What `_check_and_attach_condition` leaves alone.
use rmw_zenoh_pico.Prelude.{◌≡◌, refl, ◌==◌, Bool-cases, inl, inr}
use rmw_zenoh_pico.Memory.{Ptr, null}
use rmw_zenoh_pico.MessageList.{recv_msg_list_empty}
use rmw_zenoh_pico.Wait.{
  World, Collections, or_else, guard_condition_check_and_attach, event_check_and_attach,
  zenoh_pico_condition_check_and_attach, check_and_attach_condition,
}
use rmw_zenoh_pico.Wait.Attach.{attach_loop-keeps, or_else-keeps}
use rmw_zenoh_pico.Wait.Check.{in_guards, in_events, in_queues}

module _ (ws : Ptr) where
  -- What the three checks keep, _check_and_attach_condition keeps.
  pub check_and_attach-keeps :
      (I : World → Type 0)
      → ((p : Ptr) (w : World) → I w → I (guard_condition_check_and_attach p ws w).0)
      → ((p : Ptr) (w : World) → I w → I (event_check_and_attach p ws w).0)
      → ((p : Ptr) (w : World) → I w → I (zenoh_pico_condition_check_and_attach p ws w).0)
      → (c : Collections) (w : World) → I w
      → I (check_and_attach_condition c ws w).0
  unfolding check_and_attach_condition
  check_and_attach-keeps I kg ke kc c =
      let queue = attach_loop-keeps (λ p. zenoh_pico_condition_check_and_attach p ws) I kc in
      let last = or_else (in_queues ws c.services) (in_queues ws c.clients) in
      let last_keeps =
        or_else-keeps I (in_queues ws c.services) (in_queues ws c.clients) (queue c.services)
          (queue c.clients) in
      let queues = or_else (in_queues ws c.subscriptions) last in
      let queues_keep =
        or_else-keeps I (in_queues ws c.subscriptions) last (queue c.subscriptions) last_keeps in
      let events = attach_loop-keeps (λ p. event_check_and_attach p ws) I ke c.events in
      or_else-keeps I (in_guards ws c.guard_conditions) (or_else (in_events ws c.events) queues)
        (attach_loop-keeps (λ p. guard_condition_check_and_attach p ws) I kg c.guard_conditions)
        (or_else-keeps I (in_events ws c.events) queues events queues_keep)

  guard-wait_sets :
      (w : World) (p : Ptr) (v : World)
      → v.wait_sets ≡ w.wait_sets
      → (guard_condition_check_and_attach p ws v).0.wait_sets ≡ w.wait_sets
  unfolding guard_condition_check_and_attach
  guard-wait_sets w p v h = elim (Bool-cases (v.guards p).triggered) [
    | inl set ↦ rw set h
    | inr unset ↦ elim (Bool-cases (ws == null)) [
      | inl no_set ↦ rw (unset, no_set) h
      | inr is_set ↦ rw (unset, is_set) h
    ]
  ]

  condition-wait_sets :
      (w : World) (p : Ptr) (v : World)
      → v.wait_sets ≡ w.wait_sets
      → (zenoh_pico_condition_check_and_attach p ws v).0.wait_sets ≡ w.wait_sets
  unfolding zenoh_pico_condition_check_and_attach
  condition-wait_sets w p v h = elim (Bool-cases (recv_msg_list_empty (v.conditions p).msg_queue)) [
    | inl empty ↦ rw empty h
    | inr some_msg ↦ rw some_msg h
  ]

  -- Attaching changes no wait set.
  pub check_and_attach-wait_sets :
      (c : Collections) (w : World) → (check_and_attach_condition c ws w).0.wait_sets ≡ w.wait_sets
  unfolding event_check_and_attach
  check_and_attach-wait_sets c w =
      check_and_attach-keeps (λ v. v.wait_sets ≡ w.wait_sets) (guard-wait_sets w) (λ p v h. h)
        (condition-wait_sets w) c w refl
