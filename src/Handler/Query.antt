-- ===== src/Handler/Query.antt =====
-- A query that arrives is queued as a request of its service, and its arrival is told.
use rmw_zenoh_pico.Prelude.{
  ℕ, ◌≡◌, ◌≢◌, refl, ap, subst, ◌∙◌, true, false, Option, some, [], ◌∷◌, ◌++◌, ◌==◌, arith, length,
}
use rmw_zenoh_pico.Message.{ZenohPicoAttachemtData, ReceiveMessageData, query}
use rmw_zenoh_pico.Memory.{Ptr, null, Cell, Memory, Holds, write, upd_self, upd_ne}
use rmw_zenoh_pico.MessageList.{receive_message_data_generate, recv_msg_list_append}
use rmw_zenoh_pico.MessageList.Chain.{Messages, IsQueue, IsQueue-same, cell_of, has, ne_of_has}
use rmw_zenoh_pico.MessageList.Ends.{Ensures, Ensures-bind, append-IsQueue}
use rmw_zenoh_pico.Attachment.{ZeSerializer, attachment_data_get}
use rmw_zenoh_pico.Receive.{
  ReceivedQuery, read_attachment, rmw_zenoh_pico_generate_recv_query_msg_data,
}
use rmw_zenoh_pico.Handler.{Inbox, request_handler, add_new_message}
use rmw_zenoh_pico.Handler.Queued.{Arrived}

-- The struct that a query becomes.
abbrev pub received_query :
    (z : ReceivedQuery) → (recv_ts : ℕ) → ZenohPicoAttachemtData → ReceiveMessageData
received_query z recv_ts attached = record receive_message_data_generate {
  payload_start = some z.payload;
  payload_size = length z.payload;
  recv_timestamp = recv_ts;
  attachment = attached;
  message_type = query;
  query_rc = z.query_rc;
  keyexpr = z.keyexpr;
}

abbrev blank_query : Memory → Ptr → Memory
blank_query s p =
    write s p (some (cell_of null (record receive_message_data_generate { message_type = query })))

module _ (ze : ZeSerializer) (s : Memory) (p : Ptr) (z : ReceivedQuery) (recv_ts : ℕ)
    (attached : ZenohPicoAttachemtData) (ne : p ≢ null)
    (readable : attachment_data_get ze z.attachment receive_message_data_generate.attachment
      ≡ (attached, true)) where
  generate_query-ok :
      Ensures
        (λ q s'.
          (q ≡ p)
          × Holds s' p (cell_of null (received_query z recv_ts attached))
          × ((a : Ptr) → a ≢ p → s'.cell a ≡ s.cell a))
        (rmw_zenoh_pico_generate_recv_query_msg_data ze p true z recv_ts s)
  unfolding rmw_zenoh_pico_generate_recv_query_msg_data read_attachment
  generate_query-ok =
      let live : (p == null) ≡ false = ground (arith, ne) in
      let filled : Option Cell = some (cell_of null (received_query z recv_ts attached)) in
      rw (live, readable)
        (
          refl,
          (ne, upd_self (blank_query s p).cell p filled),
          (λ a other.
              upd_ne (blank_query s p).cell p a filled other
              ∙ upd_ne s.cell p a
                  (some
                    (cell_of null (record receive_message_data_generate { message_type = query })))
                  other),
        )

  -- When a query arrives whose attachment can be read, and memory is at hand, it is put behind the others
  -- of the service; data_callback_trigger has run once, and the wait condition is triggered once.
  pub request_handler-Arrived :
      (inbox : Inbox) (xs : Messages)
      → IsQueue s inbox.queue xs
      → has p xs ≡ false
      → Ensures
          (Arrived inbox xs p (received_query z recv_ts attached))
          (request_handler ze p true recv_ts z (some inbox) s)
  unfolding request_handler add_new_message
  request_handler-Arrived inbox xs is out =
      let m = received_query z recv_ts attached in
      let Q = Arrived inbox xs p m in
      Ensures-bind Q (rmw_zenoh_pico_generate_recv_query_msg_data ze p true z recv_ts s) _
        generate_query-ok
        λ q s1 (got, at, same).
          let live : (q == null) ≡ false = ground (arith, ne, got) in
          let at_q : Holds s1 q (cell_of null m) =
            (ground (arith, ne, got), ap s1.cell got ∙ at.1) in
          let queue1 : IsQueue s1 inbox.queue xs =
            IsQueue-same s s1 inbox.queue xs is (λ a i. same a (ne_of_has a p xs i out)) in
          rw live (
            Ensures-bind Q (recv_msg_list_append inbox.queue q s1) _
              (append-IsQueue s1 inbox.queue xs q (cell_of null m) queue1 at_q
                (ap (λ a. has a xs) got ∙ out))
              λ (l, b) s2 (_, queue2, same2).
                (l, refl, refl, subst (λ a. IsQueue s2 l (xs ++ (a, m) ∷ [])) got queue2))
