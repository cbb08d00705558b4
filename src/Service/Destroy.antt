-- ===== src/Service/Destroy.antt =====
-- `zenoh_pico_destroy_service_data` (src/rmw_service.c), for services and clients: the node and the entity of
-- the service are let go, both of its queues are emptied, and its struct is freed.
mod Tests
use rmw_zenoh_pico.Prelude.{
  ℕ, ◌<◌, ◌≡◌, refl, ap, ◌∙◌, Bool, true, false, Option, none, some, [], ◌∷◌, arith, ◌==◌,
  if◌then◌else◌, length, dec, is_zero, Option-cases, inl, inr,
}
use rmw_zenoh_pico.Memory.{Ptr, null, Memory, Cmd, Run, pure, ok, fault, out_of_fuel, ◌>>=◌}
use rmw_zenoh_pico.MessageList.{ReceiveMessageDataList}
use rmw_zenoh_pico.MessageList.Chain.{Messages, has, IsQueue, IsQueue-same}
use rmw_zenoh_pico.MessageList.Ends.{Ensures, Ensures-bind}
use rmw_zenoh_pico.MessageList.Drain.{
  Drained, drain_queue, drain_queue-Drained, Unshared, owned_by_all,
}
use rmw_zenoh_pico.Object.{
  Object, Heap, Action, upd, load, release, destroy, zenoh_pico_destroy_node_data,
  zenoh_pico_destroy_entity, destroy_endpoint_parts, destroy_endpoint_data,
}
use rmw_zenoh_pico.Object.Steps.{less, load-ok, release-ok}
use rmw_zenoh_pico.Object.Stages.{Stages, stages}
use rmw_zenoh_pico.Service.{ServiceQueues}

-- A step on the structs of endpoints, which live apart from the messages.
on_heap : {A : Type 0} → Action A → Heap → Cmd (A × Heap)
on_heap step h s = elim (step h) [ none ↦ fault | some (a, h') ↦ ok (a, h') s ]

on_heap-ok :
    {A : Type 0} (step : Action A) (h h' : Heap) (a : A) (s : Memory)
    → step h ≡ some (a, h')
    → on_heap step h s ≡ ok (a, h') s
unfolding on_heap
on_heap-ok step h h' a s e = rw (on_heap, e) refl

-- What the last reference to a service or client takes with it.
destroy_service_parts : (fuel : ℕ) → Ptr → ServiceQueues → Heap → Cmd (ServiceQueues × Heap)
destroy_service_parts fuel p q h = do
  (data_, h1) ← on_heap (load p) h
  (_, h2) ← on_heap (zenoh_pico_destroy_node_data data_.node) h1
  (_, h3) ← on_heap (zenoh_pico_destroy_entity data_.entity) h2
  requests ← drain_queue fuel q.request_queue
  responses ← drain_queue fuel q.response_queue
  (_, h4) ← on_heap (destroy p) h3
  pure (record { request_queue = requests; response_queue = responses }, h4)

pub zenoh_pico_destroy_service_data :
    (fuel : ℕ) → Ptr → ServiceQueues → Heap → Cmd (Bool × ServiceQueues × Heap)
unfolding destroy_service_parts
zenoh_pico_destroy_service_data fuel p q h = if p == null then pure (false, q, h) else do
  (last, h1) ← on_heap (release p) h
  if last
      then (do (q', h2) ← destroy_service_parts fuel p q h1; pure (true, q', h2))
      else pure (true, q, h1)

-- The queues of the service are empty, the messages of both are freed with what they owned, and nothing
-- else changes in their memory.
abbrev pub BothDrained : Memory → (xs ys : Messages) → ServiceQueues → Memory → Type 0
BothDrained s xs ys q s' =
    IsQueue s' q.request_queue []
    × IsQueue s' q.response_queue []
    × ((a : Ptr) → s'.cell a ≡ (if has a ys then none else (if has a xs then none else s.cell a)))
    × (s'.released ≡ owned_by_all ys (owned_by_all xs s.released))

one_after_other :
    (s s1 s2 : Memory) (xs ys : Messages) (l1 l2 : ReceiveMessageDataList)
    → Drained s xs l1 s1
    → Drained s1 ys l2 s2
    → BothDrained s xs ys (record { request_queue = l1; response_queue = l2 }) s2
one_after_other s s1 s2 xs ys l1 l2 (queue1, cells1, back1) (queue2, cells2, back2) = (
  IsQueue-same s1 s2 l1 [] queue1 (λ a i. ground (arith, i)),
  queue2,
  (λ a. cells2 a ∙ ap (λ c. if has a ys then none else c) (cells1 a)),
  back2 ∙ ap (owned_by_all ys) back1,
)

service_parts_drained :
    (fuel : ℕ) (p : Ptr) (o : Object) (q : ServiceQueues) (h h' : Heap) (s : Memory)
    (xs ys : Messages)
    → (p == null) ≡ false
    → h p ≡ some o
    → is_zero (dec o.ref) ≡ true
    → destroy_endpoint_data p h ≡ some (true, h')
    → IsQueue s q.request_queue xs
    → IsQueue s q.response_queue ys
    → ((a : Ptr) → has a ys ≡ true → has a xs ≡ false)
    → Unshared xs
    → Unshared ys
    → length xs < fuel
    → length ys < fuel
    → Ensures
        (λ (q', end) s'. (end ≡ h') × BothDrained s xs ys q' s')
        (destroy_service_parts fuel p q (upd h p (some (less o))) s)
unfolding destroy_service_parts
service_parts_drained fuel p o q h h' s xs ys live at last freed requests responses apart one_x
      one_y enough_x enough_y =
    let st : Stages p o h h' = stages p o h h' live at last freed in
    let h1 : Heap = upd h p (some (less o)) in
    let at1 : h1 p ≡ some (less o) = ground arith in
    let P : ServiceQueues × Heap → Memory → Type 0 =
      λ (q', end) s'. (end ≡ h') × BothDrained s xs ys q' s' in
    rw
      (
        destroy_service_parts,
        ◌>>=◌,
        on_heap-ok (load p) h1 h1 (less o) s (load-ok h1 p (less o) live at1),
        ◌>>=◌,
        on_heap-ok (zenoh_pico_destroy_node_data o.node) h1 st.without_node st.node_done s
            st.node_gone,
        ◌>>=◌,
        on_heap-ok (zenoh_pico_destroy_entity o.entity) st.without_node st.without_entity
            st.entity_done s st.entity_gone,
      )
      (Ensures-bind P (drain_queue fuel q.request_queue s) _
        (drain_queue-Drained fuel s q.request_queue xs requests one_x enough_x)
        λ l1 s1 first.
          let waiting : IsQueue s1 q.response_queue ys =
            IsQueue-same s s1 q.response_queue ys responses
              (λ a i. first.1 a ∙ rw (apart a i) refl) in
          Ensures-bind P (drain_queue fuel q.response_queue s1) _
            (drain_queue-Drained fuel s1 q.response_queue ys waiting one_y enough_y)
            λ l2 s2 second.
              rw (on_heap-ok (destroy p) st.without_entity h' tt s2 st.struct_gone)
                (refl, one_after_other s s1 s2 xs ys l1 l2 first second))

-- Destroying a service or client, where its last reference is let go and the structs that it refers to are
-- let go without a fault: both of its queues, which share no message, are emptied, and every message that
-- waited in them is freed with what it owned, in the order of the queues; the structs are left as
-- `destroy_endpoint_data` leaves them. The messages have no other holder; one round for each message of a
-- queue and one more is enough.
pub destroy_service_data-BothDrained :
    (fuel : ℕ) (p : Ptr) (o : Object) (q : ServiceQueues) (h h' : Heap) (s : Memory)
    (xs ys : Messages)
    → (p == null) ≡ false
    → h p ≡ some o
    → is_zero (dec o.ref) ≡ true
    → destroy_endpoint_data p h ≡ some (true, h')
    → IsQueue s q.request_queue xs
    → IsQueue s q.response_queue ys
    → ((a : Ptr) → has a ys ≡ true → has a xs ≡ false)
    → Unshared xs
    → Unshared ys
    → length xs < fuel
    → length ys < fuel
    → Ensures
        (λ (done, q', end) s'. (done ≡ true) × (end ≡ h') × BothDrained s xs ys q' s')
        (zenoh_pico_destroy_service_data fuel p q h s)
unfolding zenoh_pico_destroy_service_data
destroy_service_data-BothDrained fuel p o q h h' s xs ys live at last freed requests responses apart
      one_x one_y enough_x enough_y =
    let P : Bool × ServiceQueues × Heap → Memory → Type 0 =
      λ (done, q', end) s'. (done ≡ true) × (end ≡ h') × BothDrained s xs ys q' s' in
    rw
      (
        zenoh_pico_destroy_service_data,
        live,
        ◌>>=◌,
        on_heap-ok (release p) h (upd h p (some (less o))) (is_zero (dec o.ref)) s
            (release-ok h p o live at),
        last,
      )
      (Ensures-bind P (destroy_service_parts fuel p q (upd h p (some (less o))) s) _
        (service_parts_drained fuel p o q h h' s xs ys live at last freed requests responses apart
          one_x one_y enough_x enough_y)
        λ (q', end) s' (same, drained). (refl, same, drained))
