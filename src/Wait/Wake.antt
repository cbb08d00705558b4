-- ===== src/Wait/Wake.antt =====
-- `rmw_wait` from its call to its return: what it finds at once, and what wakes it.
use rmw_zenoh_pico.Prelude.{
  ◌≡◌, refl, ap, ◌∙◌, sym, subst, Bool, true, false, not, ◌||◌, none, some, List, [], ◌∷◌, ◌==◌,
  if◌then◌else◌, arith, Bool-cases, inl, inr, ==_iff,
}
use rmw_zenoh_pico.Memory.{Ptr, null}
use rmw_zenoh_pico.Rmw.{ret_ok, ret_timeout, identifier_matches}
use rmw_zenoh_pico.MessageList.{ReceiveMessageDataList, recv_msg_list_empty}
use rmw_zenoh_pico.Wait.{World, Collections, check_and_attach_condition}
use rmw_zenoh_pico.Wait.Call.{
  RmwTime, wait_loop, sleep, reset_triggered, returned, attach_and_sleep, RmwWaitSet, rmw_wait,
}
use rmw_zenoh_pico.Wait.Ready.{keep_all, any_ready, Each}
use rmw_zenoh_pico.Wait.Detach.{
  SameReady, queued, ready_collections, some_ready, AllNull, IsDetached, detach_all-from,
  detach_all-lem,
}
use rmw_zenoh_pico.Wait.Check.{check_and_attach-ready}
use rmw_zenoh_pico.Wait.Attached.{check_and_attach-IsAttached}
use rmw_zenoh_pico.Wait.Kept.{check_and_attach-wait_sets}
use rmw_zenoh_pico.Wait.Trigger.{deliver, deliver-queue, deliver-wakes}

reset-same : (ws : Ptr) (w v : World) → SameReady w v → SameReady w (reset_triggered ws v)
unfolding reset_triggered
reset-same ws w v h = h

abbrev no_time : RmwTime
no_time = record { sec = 0; nsec = 0 }

-- With a zero timeout, or when something is ready already, nobody else gets a turn.
no_sleep :
    (turns : List (World → World)) (c : Collections) (ws : Ptr) (w : World)
    → (v : World) × (attach_and_sleep turns c ws (some no_time) w ≡ some v) × SameReady w v
unfolding attach_and_sleep sleep
no_sleep turns c ws w =
    let (ready, same) = check_and_attach-ready ws c w in
    let w1 = (check_and_attach_condition c ws w).0 in
    elim (Bool-cases (check_and_attach_condition c ws w).1) [
      | inl skip ↦ (w1, rw skip refl, same)
      | inr idle ↦ (reset_triggered ws w1, rw idle refl, reset-same ws w w1 same)
    ]

-- rmw_wait with a zero timeout, a valid wait set and no events returns: the entries that are ready at the
-- call stay, the others become NULL, and the code is RMW_RET_OK if an entry stays and
-- RMW_RET_TIMEOUT otherwise; no entry keeps its pointer to the wait set, and no queue and no
-- guard's flag changes.
pub rmw_wait-poll :
    (turns : List (World → World)) (c : Collections) (ws : RmwWaitSet) (w : World)
    → identifier_matches ws.implementation_identifier ≡ true
    → (ws.wait_data == null) ≡ false
    → AllNull c.events
    → (v : World) × (rmw_wait turns c (some ws) (some (record { sec = 0; nsec = 0 })) w
        ≡ returned (if some_ready c w then ret_ok else ret_timeout) (ready_collections c w) v)
      × IsDetached c v
      × SameReady w v
unfolding rmw_wait
rmw_wait-poll turns c ws w ours is_set no_events =
    let (w1, awake, same) = no_sleep turns c ws.wait_data w in
    let (v, result, detached, same2) = detach_all-from c w w1 same no_events in
    (v, rw (ours, is_set, awake) result, detached, same2)

not_same : (q p : Ptr) (r : Ptr → Bool) → r p ≡ true → r q ≡ false → (q == p) ≡ false
not_same q p r yes_p no_q = elim (Bool-cases (q == p)) [
  | inl same ↦ absurd (ground (arith, sym no_q ∙ (ap r ((==_iff q p).0 same) ∙ yes_p)))
  | inr other ↦ other
]

stays :
    (r : Ptr → Bool) (p : Ptr) (ps : List Ptr)
    → any_ready (λ q. q == p) ps ≡ true
    → r p ≡ true
    → (any_ready (λ q. q == p) (keep_all r ps) ≡ true) × (any_ready r ps ≡ true)
stays r p [] is_in ready = ground (arith, is_in)
stays r p (q ∷ qs) is_in ready = elim (Bool-cases (q == null)) [
  | inl no_entry ↦
      let is_in' =
        sym (
          ap (λ b. if b then any_ready (λ x. x == p) qs else (q == p) || any_ready (λ x. x == p) qs)
            no_entry)
        ∙ is_in in
      let (kept, any) = stays r p qs is_in' ready in rw no_entry (kept, any)
  | inr entry ↦ elim (Bool-cases (r q)) [
    | inl is_ready ↦ elim (Bool-cases (q == p)) [
      | inl same ↦ rw (entry, is_ready) (rw (entry, same) refl, refl)
      | inr other ↦
          let (kept, any) = stays r p qs (ground (arith, entry, other, is_in)) ready in
          rw (entry, is_ready) (rw (entry, other) kept, refl)
    ]
    | inr not_ready ↦
        let other : (q == p) ≡ false = not_same q p r ready not_ready in
        let (kept, any) = stays r p qs (ground (arith, entry, other, is_in)) ready in
        rw (entry, not_ready) (kept, any)
  ]
]

each-in :
    (P : Ptr → Type 0) (p : Ptr) (ps : List Ptr)
    → Each P ps
    → any_ready (λ q. q == p) ps ≡ true
    → P p
each-in P p [] h is_in = absurd (ground (arith, is_in))
each-in P p (q ∷ qs) (first, rest) is_in = elim (Bool-cases (q == null)) [
  | inl no_entry ↦ each-in P p qs rest (ground (arith, no_entry, is_in))
  | inr entry ↦ elim (Bool-cases (q == p)) [
    | inl same ↦ subst P ((==_iff q p).0 same) (first (λ eq. ground (arith, eq, entry)))
    | inr other ↦ each-in P p qs rest (ground (arith, entry, other, is_in))
  ]
]

attach_and_sleep-awake :
    (turns : List (World → World)) (c : Collections) (ws : Ptr) (w v : World)
    → (check_and_attach_condition c ws w).1 ≡ false
    → wait_loop turns ws (check_and_attach_condition c ws w).0 ≡ some v
    → attach_and_sleep turns c ws none w ≡ some (reset_triggered ws v)
unfolding attach_and_sleep sleep
attach_and_sleep-awake turns c ws w v idle awake = rw (idle, awake) refl

deliver-queued :
    (p ws : Ptr) (queue : ReceiveMessageDataList) (w : World)
    → recv_msg_list_empty queue ≡ false
    → queued (reset_triggered ws (deliver p queue w)) p ≡ true
unfolding reset_triggered
deliver-queued p ws queue w message =
    ap (λ q. not (recv_msg_list_empty q)) (deliver-queue p queue w) ∙ ap not message

-- rmw_wait without a timeout, where nothing is ready at the call: when another thread puts a message in
-- the queue of one of the subscriptions, it returns RMW_RET_OK and that subscription stays in
-- its collection. The wait set is valid and its flag unset, and there are no events.
pub rmw_wait-wakes :
    (c : Collections) (ws : RmwWaitSet) (w : World) (p : Ptr) (queue : ReceiveMessageDataList)
    → identifier_matches ws.implementation_identifier ≡ true
    → (ws.wait_data == null) ≡ false
    → (w.wait_sets ws.wait_data).triggered ≡ false
    → AllNull c.events
    → some_ready c w ≡ false
    → any_ready (λ q. q == p) c.subscriptions ≡ true
    → recv_msg_list_empty queue ≡ false
    → (later : List (World → World))
    → (kept : Collections) × (v : World) × (rmw_wait (deliver p queue ∷ later) c (some ws) none w
        ≡ returned ret_ok kept v)
      × (any_ready (λ q. q == p) kept.subscriptions ≡ true)
      × IsDetached c v
unfolding rmw_wait
rmw_wait-wakes c ws w p queue ours is_set unset no_events idle is_in message later =
    let set = ws.wait_data in
    let (flag, same) = check_and_attach-ready set c w in
    let idle1 = flag ∙ idle in
    let (guards, subs, servs, clis) = check_and_attach-IsAttached set c w is_set idle1 in
    let w1 = (check_and_attach_condition c set w).0 in
    let unset1 = ap (λ f. (f set).triggered) (check_and_attach-wait_sets set c w) ∙ unset in
    let attached =
      each-in (λ q. (w1.conditions q).wait_set_data ≡ set) p c.subscriptions subs is_in in
    let awake =
      attach_and_sleep-awake (deliver p queue ∷ later) c set w (deliver p queue w1) idle1
        (deliver-wakes p queue set w1 attached is_set unset1 later) in
    let w2 = reset_triggered set (deliver p queue w1) in
    let (v, result, detached, same2) = detach_all-lem c w2 no_events in
    let (kept, any) =
      stays (queued w2) p c.subscriptions is_in (deliver-queued p set queue w1 message) in
    let found : some_ready c w2 ≡ true = ground (arith, any) in
    (
      ready_collections c w2,
      v,
      rw (ours, is_set, awake)
          (result
            ∙ ap (λ b. returned (if b then ret_ok else ret_timeout) (ready_collections c w2) v)
                found),
      kept,
      detached,
    )
