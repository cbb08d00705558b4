-- ===== src/Wait/Check.antt =====
-- What `_check_and_attach_condition` decides: whether `rmw_wait` sleeps.
use rmw_zenoh_pico.Prelude.{
  ◌≡◌, refl, ◌∙◌, sym, Bool, false, ◌||◌, List, ◌==◌, arith, Bool-cases, inl, inr,
}
use rmw_zenoh_pico.Memory.{Ptr, null}
use rmw_zenoh_pico.MessageList.{recv_msg_list_empty}
use rmw_zenoh_pico.Wait.{
  World, Collections, attach_loop, or_else, guard_condition_check_and_attach,
  event_check_and_attach, zenoh_pico_condition_check_and_attach, check_and_attach_condition,
}
use rmw_zenoh_pico.Wait.Ready.{any_ready}
use rmw_zenoh_pico.Wait.Detach.{SameReady, queued, triggered_guard, some_ready}
use rmw_zenoh_pico.Wait.Attach.{
  attach_loop-keeps, attach_loop-ready, or_else-keeps, or_else-ready, no_events,
}

module _ (ws : Ptr) where
  guard-same :
      (w : World) (p : Ptr) (v : World)
      → SameReady w v
      → SameReady w (guard_condition_check_and_attach p ws v).0
  unfolding guard_condition_check_and_attach
  guard-same w p v h = elim (Bool-cases (v.guards p).triggered) [
    | inl set ↦ rw set h
    | inr unset ↦ elim (Bool-cases (ws == null)) [
      | inl no_set ↦ rw (unset, no_set) h
      | inr is_set ↦ rw (unset, is_set) (h.0, (λ q. ground (arith, h.1 q, h.1 p, unset)))
    ]
  ]

  guard-says :
      (w : World) (p : Ptr) (v : World)
      → SameReady w v
      → (guard_condition_check_and_attach p ws v).1 ≡ triggered_guard w p
  unfolding guard_condition_check_and_attach
  guard-says w p v h = ground (arith, h.1 p)

  condition-same :
      (w : World) (p : Ptr) (v : World)
      → SameReady w v
      → SameReady w (zenoh_pico_condition_check_and_attach p ws v).0
  unfolding zenoh_pico_condition_check_and_attach
  condition-same w p v h = elim (Bool-cases (recv_msg_list_empty (v.conditions p).msg_queue)) [
    | inl empty ↦ rw empty ((λ q. ground (arith, h.0 q, h.0 p)), h.1)
    | inr some_msg ↦ rw some_msg h
  ]

  condition-says :
      (w : World) (p : Ptr) (v : World)
      → SameReady w v
      → (zenoh_pico_condition_check_and_attach p ws v).1 ≡ queued w p
  unfolding zenoh_pico_condition_check_and_attach
  condition-says w p v h = rw (sym (h.0 p)) ground arith

  event-same :
      (w : World) (p : Ptr) (v : World)
      → SameReady w v
      → SameReady w (event_check_and_attach p ws v).0
  unfolding event_check_and_attach
  event-same w p v h = h

  abbrev pub in_guards : List Ptr → World → World × Bool
  in_guards = attach_loop (λ p. guard_condition_check_and_attach p ws)

  abbrev pub in_events : List Ptr → World → World × Bool
  in_events = attach_loop (λ p. event_check_and_attach p ws)

  abbrev pub in_queues : List Ptr → World → World × Bool
  in_queues = attach_loop (λ p. zenoh_pico_condition_check_and_attach p ws)

  queues-same :
      (w : World) (ps : List Ptr) (v : World) → SameReady w v → SameReady w (in_queues ps v).0
  queues-same w =
      attach_loop-keeps (λ p. zenoh_pico_condition_check_and_attach p ws) (SameReady w)
        (condition-same w)

  queues-ready :
      (w : World) (ps : List Ptr) (v : World)
      → SameReady w v
      → (in_queues ps v).1 ≡ any_ready (queued w) ps
  queues-ready w =
      attach_loop-ready (λ p. zenoh_pico_condition_check_and_attach p ws) (SameReady w) (queued w)
        (condition-same w) (condition-says w)

  events-ready :
      (w : World) (ps : List Ptr) (v : World) → SameReady w v → (in_events ps v).1 ≡ false
  unfolding event_check_and_attach
  events-ready w ps v h =
      attach_loop-ready (λ p. event_check_and_attach p ws) (SameReady w) (λ p. false) (event-same w)
        (λ p v h. refl) ps v h
      ∙ no_events ps

  -- _check_and_attach_condition reports, and so skips the sleep, exactly if a guard condition is triggered
  -- or a message is queued for a subscription, a service or a client; events never count. It changes
  -- neither the queues nor the guards' flags.
  pub check_and_attach-ready :
      (c : Collections) (w : World)
      → ((check_and_attach_condition c ws w).1 ≡ some_ready c w)
        × SameReady w (check_and_attach_condition c ws w).0
  unfolding check_and_attach_condition
  check_and_attach-ready c w =
      let I = SameReady w in
      let same0 : SameReady w w = ((λ p. refl), (λ p. refl)) in
      let guards_same =
        attach_loop-keeps (λ p. guard_condition_check_and_attach p ws) I (guard-same w)
          c.guard_conditions in
      let guards_ready =
        attach_loop-ready (λ p. guard_condition_check_and_attach p ws) I (triggered_guard w)
          (guard-same w) (guard-says w) c.guard_conditions in
      let events_same =
        attach_loop-keeps (λ p. event_check_and_attach p ws) I (event-same w) c.events in
      let last = or_else (in_queues c.services) (in_queues c.clients) in
      let last_same =
        or_else-keeps I (in_queues c.services) (in_queues c.clients) (queues-same w c.services)
          (queues-same w c.clients) in
      let queues = or_else (in_queues c.subscriptions) last in
      let queues_same =
        or_else-keeps I (in_queues c.subscriptions) last (queues-same w c.subscriptions)
          last_same in
      let rest = or_else (in_events c.events) queues in
      let rest_same = or_else-keeps I (in_events c.events) queues events_same queues_same in
      let last_ready =
        or_else-ready I (in_queues c.services) (in_queues c.clients)
          (any_ready (queued w) c.services) (any_ready (queued w) c.clients)
          (queues-same w c.services) (queues-ready w c.services) (queues-ready w c.clients) in
      let queues_ready =
        or_else-ready I (in_queues c.subscriptions) last (any_ready (queued w) c.subscriptions)
          (any_ready (queued w) c.services || any_ready (queued w) c.clients)
          (queues-same w c.subscriptions) (queues-ready w c.subscriptions) last_ready in
      let rest_ready =
        or_else-ready I (in_events c.events) queues false
          (any_ready (queued w) c.subscriptions
            || (any_ready (queued w) c.services || any_ready (queued w) c.clients))
          events_same (events-ready w c.events) queues_ready in
      (
        or_else-ready I (in_guards c.guard_conditions) rest
            (any_ready (triggered_guard w) c.guard_conditions)
            (any_ready (queued w) c.subscriptions
              || (any_ready (queued w) c.services || any_ready (queued w) c.clients))
            guards_same guards_ready rest_ready w same0,
        or_else-keeps I (in_guards c.guard_conditions) rest guards_same rest_same w same0,
      )
