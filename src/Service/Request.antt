-- ===== src/Service/Request.antt =====
-- A request that `rmw_take_request` hands out, and the header by which its response finds it.
use rmw_zenoh_pico.Prelude.{
  ◌≡◌, refl, ap, subst, ◌∙◌, true, false, Option, [], ◌∷◌, ◌++◌, arith, ◌==◌,
}
use rmw_zenoh_pico.Message.{ReceiveMessageData}
use rmw_zenoh_pico.Memory.{Ptr, null, Memory, Holds, load-ok}
use rmw_zenoh_pico.MessageList.{recv_msg_list_pop, recv_msg_list_append}
use rmw_zenoh_pico.MessageList.Chain.{Messages, has, ne_of_has, cell_of, IsQueue, IsQueue-same}
use rmw_zenoh_pico.MessageList.Ends.{Ensures, Ensures-bind, pop-IsQueue, append-IsQueue}
use rmw_zenoh_pico.Rmw.{ret_ok}
use rmw_zenoh_pico.Serialize.{MessageTypeSupport}
use rmw_zenoh_pico.Service.{
  RmwServiceInfo, ServiceQueues, TakenRequest, rmw_zenoh_pico_deserialize_request_msg, take_request,
}

module _ {Request : Type 0} (callbacks : MessageTypeSupport Request) where
  -- The first request has moved to the end of the requests that wait for their response.
  abbrev pub Moved :
      Ptr
      → ReceiveMessageData
      → (xs ys : Messages) → Option RmwServiceInfo
      → TakenRequest Request
      → Memory
      → Type 0
  Moved p m xs ys header t s' =
      (t.ret ≡ ret_ok)
      × (t.request ≡ rmw_zenoh_pico_deserialize_request_msg callbacks m header)
      × IsQueue s' t.queues.request_queue xs
      × IsQueue s' t.queues.response_queue (ys ++ (p, m) ∷ [])

  -- take_request, on a service whose two queues are well formed and share no message: the first
  -- request leaves the request queue and stands last among the requests that wait for their
  -- response, the other requests keep their order, and the code is RMW_RET_OK; the caller gets
  -- the request and its header exactly if the payload can be read.
  pub take_request-moves :
      (s : Memory) (q : ServiceQueues) (p : Ptr) (m : ReceiveMessageData) (xs ys : Messages)
      (header : Option RmwServiceInfo)
      → IsQueue s q.request_queue ((p, m) ∷ xs)
      → IsQueue s q.response_queue ys
      → has p ys ≡ false
      → ((a : Ptr) → has a xs ≡ true → has a ys ≡ false)
      → Ensures (Moved p m xs ys header) (take_request callbacks q header s)
  unfolding take_request
  take_request-moves s q p m xs ys header requests responses out apart =
      Ensures-bind (Moved p m xs ys header) (recv_msg_list_pop q.request_queue s) _
        (pop-IsQueue s q.request_queue p m xs requests)
        λ (l1, a) s1 (got, queue, at, same).
          let live : (a == null) ≡ false = ground (arith, at.0, got) in
          let at_a : Holds s1 a (cell_of null m) =
            (ground (arith, at.0, got), ap s1.cell got ∙ at.1) in
          let out_a : has a ys ≡ false = ap (λ b. has b ys) got ∙ out in
          let responses1 : IsQueue s1 q.response_queue ys =
            IsQueue-same s s1 q.response_queue ys responses
              (λ b i. same.0 b (ground (arith, ne_of_has b p ys i out))) in
          rw (live, load-ok s1 a at_a)
            (Ensures-bind (Moved p m xs ys header) (recv_msg_list_append q.response_queue a s1) _
              (append-IsQueue s1 q.response_queue ys a (cell_of null m) responses1 at_a out_a)
              λ (l2, b) s2 (_, queue2, same2). (
                refl,
                refl,
                IsQueue-same s1 s2 l1 xs queue (λ b i.
                    same2.0 b
                      (ground (arith, got, ne_of_has b p xs i requests.distinct.0, apart b i))),
                subst (λ b. IsQueue s2 l2 (ys ++ (b, m) ∷ [])) got queue2,
              ))
