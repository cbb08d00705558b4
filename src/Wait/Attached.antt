-- ===== src/Wait/Attached.antt =====
-- What `_check_and_attach_condition` leaves behind when it lets `rmw_wait` sleep.
use rmw_zenoh_pico.Prelude.{◌≡◌, ◌∙◌, subst, false, List, ◌==◌, arith, Bool-cases, inl, inr}
use rmw_zenoh_pico.Memory.{Ptr, null}
use rmw_zenoh_pico.MessageList.{recv_msg_list_empty}
use rmw_zenoh_pico.Wait.{
  World, Collections, or_else, guard_condition_check_and_attach, event_check_and_attach,
  zenoh_pico_condition_check_and_attach, check_and_attach_condition,
}
use rmw_zenoh_pico.Wait.Ready.{Each, Each-map}
use rmw_zenoh_pico.Wait.Attach.{attach_loop-keeps, attach_loop-each, or_else-idle}
use rmw_zenoh_pico.Wait.Check.{in_guards, in_events, in_queues}

module _ (ws : Ptr) where
  abbrev pub GuardAttached : Ptr → World → Type 0
  GuardAttached p v = (v.guards p).wait_set_data ≡ ws

  abbrev pub ConditionAttached : Ptr → World → Type 0
  ConditionAttached p v = (v.conditions p).wait_set_data ≡ ws

  -- The entries that `rmw_wait` waits for point to its wait set.
  abbrev pub IsAttached : Collections → World → Type 0
  IsAttached c v =
      Each (λ p. GuardAttached p v) c.guard_conditions
      × Each (λ p. ConditionAttached p v) c.subscriptions
      × Each (λ p. ConditionAttached p v) c.services
      × Each (λ p. ConditionAttached p v) c.clients

  guard-sets :
      (p : Ptr) (v : World)
      → (ws == null) ≡ false
      → (guard_condition_check_and_attach p ws v).1 ≡ false
      → GuardAttached p (guard_condition_check_and_attach p ws v).0
  unfolding guard_condition_check_and_attach
  guard-sets p v is_set idle = elim (Bool-cases (v.guards p).triggered) [
    | inl set ↦ ground (arith, set, idle)
    | inr unset ↦ rw (unset, is_set) ground arith
  ]

  guard-keeps :
      (p q : Ptr) (v : World)
      → GuardAttached p v
      → GuardAttached p (guard_condition_check_and_attach q ws v).0
  unfolding guard_condition_check_and_attach
  guard-keeps p q v h = elim (Bool-cases (v.guards q).triggered) [
    | inl set ↦ rw set h
    | inr unset ↦ elim (Bool-cases (ws == null)) [
      | inl no_set ↦ rw (unset, no_set) h
      | inr is_set ↦ rw (unset, is_set) ground (arith, h)
    ]
  ]

  condition-sets :
      (p : Ptr) (v : World)
      → (zenoh_pico_condition_check_and_attach p ws v).1 ≡ false
      → ConditionAttached p (zenoh_pico_condition_check_and_attach p ws v).0
  unfolding zenoh_pico_condition_check_and_attach
  condition-sets p v idle = elim (Bool-cases (recv_msg_list_empty (v.conditions p).msg_queue)) [
    | inl empty ↦ rw empty ground arith
    | inr some_msg ↦ ground (arith, some_msg, idle)
  ]

  condition-keeps :
      (p q : Ptr) (v : World)
      → ConditionAttached p v
      → ConditionAttached p (zenoh_pico_condition_check_and_attach q ws v).0
  unfolding zenoh_pico_condition_check_and_attach
  condition-keeps p q v h = elim (Bool-cases (recv_msg_list_empty (v.conditions q).msg_queue)) [
    | inl empty ↦ rw empty ground (arith, h)
    | inr some_msg ↦ rw some_msg h
  ]

  condition-keeps_guard :
      (p q : Ptr) (v : World)
      → GuardAttached p v
      → GuardAttached p (zenoh_pico_condition_check_and_attach q ws v).0
  unfolding zenoh_pico_condition_check_and_attach
  condition-keeps_guard p q v h =
      elim (Bool-cases (recv_msg_list_empty (v.conditions q).msg_queue)) [
        | inl empty ↦ rw empty h
        | inr some_msg ↦ rw some_msg h
      ]

  queues-keep :
      (D : Ptr → World → Type 0)
      → ((p q : Ptr) (v : World) → D p v → D p (zenoh_pico_condition_check_and_attach q ws v).0)
      → (ps qs : List Ptr) (w : World) → Each (λ p. D p w) ps
      → Each (λ p. D p (in_queues ws qs w).0) ps
  queues-keep D keeps ps qs w =
      Each-map (λ p. D p w) (λ p. D p (in_queues ws qs w).0)
        (λ p.
          attach_loop-keeps (λ q. zenoh_pico_condition_check_and_attach q ws) (D p) (keeps p) qs w)
        ps

  events-keep :
      (ps qs : List Ptr) (w : World)
      → Each (λ p. GuardAttached p w) ps
      → Each (λ p. GuardAttached p (in_events ws qs w).0) ps
  unfolding event_check_and_attach
  events-keep ps qs w =
      Each-map (λ p. GuardAttached p w) (λ p. GuardAttached p (in_events ws qs w).0)
        (λ p.
          attach_loop-keeps (λ q. event_check_and_attach q ws) (GuardAttached p) (λ q v h. h) qs w)
        ps

  -- If _check_and_attach_condition lets rmw_wait sleep on a wait set that is not NULL, every entry of
  -- the guard conditions, subscriptions, services and clients points to that wait set.
  pub check_and_attach-IsAttached :
      (c : Collections) (w : World)
      → (ws == null) ≡ false
      → (check_and_attach_condition c ws w).1 ≡ false
      → IsAttached c (check_and_attach_condition c ws w).0
  unfolding check_and_attach_condition
  check_and_attach-IsAttached c w is_set idle =
      let last = or_else (in_queues ws c.services) (in_queues ws c.clients) in
      let queues = or_else (in_queues ws c.subscriptions) last in
      let rest = or_else (in_events ws c.events) queues in
      let (g_idle, idle1, eq1) = or_else-idle (in_guards ws c.guard_conditions) rest w idle in
      let w1 = (in_guards ws c.guard_conditions w).0 in
      let (e_idle, idle2, eq2) = or_else-idle (in_events ws c.events) queues w1 idle1 in
      let w2 = (in_events ws c.events w1).0 in
      let (s_idle, idle3, eq3) = or_else-idle (in_queues ws c.subscriptions) last w2 idle2 in
      let w3 = (in_queues ws c.subscriptions w2).0 in
      let (v_idle, c_idle, eq4) =
        or_else-idle (in_queues ws c.services) (in_queues ws c.clients) w3 idle3 in
      let w4 = (in_queues ws c.services w3).0 in
      let each =
        attach_loop-each (λ p. zenoh_pico_condition_check_and_attach p ws) ConditionAttached
          condition-sets condition-keeps in
      let final = subst (IsAttached c) (eq4 ∙ (eq3 ∙ (eq2 ∙ eq1))) in
      final (
        queues-keep GuardAttached condition-keeps_guard c.guard_conditions c.clients w4 (
            queues-keep GuardAttached condition-keeps_guard c.guard_conditions c.services w3 (
              queues-keep GuardAttached condition-keeps_guard c.guard_conditions c.subscriptions w2
                (events-keep c.guard_conditions c.events w1 (
                  attach_loop-each (λ p. guard_condition_check_and_attach p ws) GuardAttached
                    (λ p v. guard-sets p v is_set) guard-keeps c.guard_conditions w g_idle)))),
        queues-keep ConditionAttached condition-keeps c.subscriptions c.clients w4 (
            queues-keep ConditionAttached condition-keeps c.subscriptions c.services w3
              (each c.subscriptions w2 s_idle)),
        queues-keep ConditionAttached condition-keeps c.services c.clients w4
            (each c.services w3 v_idle),
        each c.clients w4 c_idle,
      )
