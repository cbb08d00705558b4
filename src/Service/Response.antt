-- ===== src/Service/Response.antt =====
-- The response to a request: which message it answers, what is sent, and what is left.
use rmw_zenoh_pico.Prelude.{
  ℕ, ◌<◌, ◌≡◌, ◌≢◌, refl, sym, ap, subst, ◌∙◌, Bool, true, false, Bytes, some, none, [], ◌∷◌, arith,
  ◌==◌, if◌then◌else◌, length, drop, pos, Bool-cases, inl, inr, append-nil, take-eq_self,
  drop-eq-nil, bytes_eq_refl, ==_refl, ltb,
}
use rmw_zenoh_pico.Message.{ReceiveMessageData}
use rmw_zenoh_pico.Memory.{
  Ptr, null, Memory, Run, Cmd, ok, fault, out_of_fuel, continue, Holds, load-ok, load-null, write,
  upd_self, upd_ne,
}
use rmw_zenoh_pico.MessageList.{
  ReceiveMessageDataList, recv_msg_list_pickup, zenoh_pico_delete_recv_msg_data,
}
use rmw_zenoh_pico.MessageList.Chain.{
  Messages, Distinct, has, ne_of_has, cell_of, IsQueue, IsQueue-same,
}
use rmw_zenoh_pico.MessageList.Ends.{Ensures, Ensures-bind}
use rmw_zenoh_pico.MessageList.Pickup.{IsPicked, picked, without_picked, pickup-IsQueue}
use rmw_zenoh_pico.MessageList.Destroy.{delete-last_reference}
use rmw_zenoh_pico.Rmw.{ret_ok, ret_error}
use rmw_zenoh_pico.Attachment.{ZeSerializer, attachment_gen}
use rmw_zenoh_pico.Serialize.{MessageTypeSupport, rmw_zenoh_pico_serialize}
use rmw_zenoh_pico.Take.{copy_gid}
use rmw_zenoh_pico.Service.{
  RmwRequestId, RmwServiceInfo, fill_request_header, compare_responce_msg, Reply, SentResponse,
  reply_to, send_response,
}

picked-has :
    (func : ReceiveMessageData → Bool) (ys : Messages) (p : Ptr) (m : ReceiveMessageData)
    → picked func ys ≡ some (p, m)
    → has p ys ≡ true
picked-has func [] p m hit = ground (arith, hit)
picked-has func ((a, n) ∷ ys) p m hit = ground (arith, hit, picked-has func ys p m)

picked-gone :
    (func : ReceiveMessageData → Bool) (ys : Messages) (p : Ptr) (m : ReceiveMessageData)
    → Distinct ys
    → picked func ys ≡ some (p, m)
    → has p (without_picked func ys) ≡ false
picked-gone func [] p m d hit = refl
picked-gone func ((a, n) ∷ ys) p m d hit = elim (Bool-cases (func n)) [
  | inl here ↦
      let same : a ≡ p = ground (arith, hit, here) in rw here (ap (λ q. has q ys) (sym same) ∙ d.0)
  | inr later ↦
      let behind : picked func ys ≡ some (p, m) = ground (arith, hit, later) in
      let apart : p ≢ a = ne_of_has p a ys (picked-has func ys p m behind) d.0 in
      rw later (ground (arith, apart, picked-gone func ys p m d.1 behind))
]

faults :
    {A B : Type 0} {P : A → Memory → Type 0} (r : Run A) (k : A → Cmd B)
    → Ensures P r
    → ((a : A) (s : Memory) → P a s → k a s ≡ fault)
    → continue r k ≡ fault
faults (ok a s) k h next = next a s h
faults fault k h next = refl
faults out_of_fuel k h next = absurd h

-- A gid that fills the array is copied whole.
pub copy_gid-fits : (array gid : Bytes) → length gid ≡ length array → copy_gid array gid ≡ gid
unfolding copy_gid
copy_gid-fits array gid fits =
    let fits_in : ltb (length array) (length gid) ≡ false = ground (arith, fits) in
    let used_up : drop (length gid) array ≡ [] =
      drop-eq-nil (length gid) array (omega (arith, fits)) in
    rw (fits_in, used_up) (append-nil gid)

-- The header that a taken request comes with selects that request: _compare_responce_msg accepts it, if
-- the gid is not empty and has as many bytes as the header has room for.
pub compare-fill :
    (m : ReceiveMessageData) (h : RmwServiceInfo)
    → (length m.attachment.gid == 0) ≡ false
    → length m.attachment.gid ≡ length h.request_id.writer_guid
    → compare_responce_msg (fill_request_header m h).request_id m ≡ true
unfolding compare_responce_msg fill_request_header
compare-fill m h some_gid fits =
    let gid = m.attachment.gid in
    let copied : copy_gid h.request_id.writer_guid gid ≡ gid =
      copy_gid-fits h.request_id.writer_guid gid fits in
    rw (compare_responce_msg, copied)
      (rw
        (
          some_gid,
          take-eq_self (length gid) gid (omega arith),
          bytes_eq_refl gid,
          ==_refl m.attachment.sequence_num,
        )
        refl)

module _ {Response : Type 0} (callbacks : MessageTypeSupport Response) (ze : ZeSerializer)
    (z_query_reply : Reply → Bool) where
  -- If no request waits that fits the header, send_response reads the attachment of a NULL message:
  -- the missing request is not reported to the caller.
  pub send_response-no_request :
      (fuel now : ℕ) (s : Memory) (l : ReceiveMessageDataList) (ys : Messages) (id : RmwRequestId)
      (response : Response)
      → IsQueue s l ys
      → length ys < fuel
      → picked (compare_responce_msg id) ys ≡ none
      → send_response callbacks ze z_query_reply fuel now true l id response s ≡ fault
  unfolding send_response reply_to rmw_zenoh_pico_serialize
  send_response-no_request fuel now s l ys id response is enough no_request =
      faults (recv_msg_list_pickup fuel l (compare_responce_msg id) s) _
        (pickup-IsQueue (compare_responce_msg id) fuel s l ys is enough)
        λ (l1, q) s1 (got, queue, same).
          let nothing : q ≡ null = subst (λ o. IsPicked o q s1) no_request got in
          rw (nothing, load-null s1) refl

  -- The reply is sent and the request that it answers is freed; the other requests wait on.
  abbrev pub Answered : Ptr → (rest : Messages) → Reply → SentResponse → Memory → Type 0
  Answered p rest r t s' =
      IsQueue s' t.response_queue rest
      × (t.reply ≡ some r)
      × (t.ret ≡ (if z_query_reply r then ret_ok else ret_error))
      × (s'.cell p ≡ none)

  reply_to-Answered :
      (now : ℕ) (s : Memory) (l : ReceiveMessageDataList) (p : Ptr) (m : ReceiveMessageData)
      (rest : Messages) (msg_bytes attachment : Bytes)
      → Holds s p (cell_of null m)
      → m.ref ≡ pos 1
      → IsQueue s l rest
      → has p rest ≡ false
      → (attachment_gen ze now m.attachment).1 ≡ some attachment
      → Ensures
          (Answered p rest
            (record { query_rc = m.query_rc; payload = msg_bytes; attachment = attachment }))
          (reply_to callbacks ze z_query_reply now l p msg_bytes s)
  unfolding reply_to
  reply_to-Answered now s l p m rest msg_bytes attachment at one queue out generated =
      let r : Reply = record {
        query_rc = m.query_rc;
        payload = msg_bytes;
        attachment = attachment;
      } in
      let c2 = cell_of null (record m { attachment = (attachment_gen ze now m.attachment).0 }) in
      let s1 = write s p (some c2) in
      rw (reply_to, load-ok s p at, generated)
        (Ensures-bind (Answered p rest r) (zenoh_pico_delete_recv_msg_data p s1) _
          (delete-last_reference s1 p c2 (at.0, upd_self s.cell p (some c2)) one)
          λ done s2 (_, gone, keep, back). (
            IsQueue-same s s2 l rest queue (λ a i.
                let ne = ne_of_has a p rest i out in keep a ne ∙ upd_ne s.cell p a (some c2) ne),
            refl,
            refl,
            gone,
          ))

  -- send_response, where a request waits that fits the header and has no other holder, and whose
  -- attachment can be written: the reply goes to the query of the first such request, with the
  -- serialized response and with that request's attachment at the time of sending; that request
  -- is freed, the others wait on in their order, and the code is that of z_query_reply.
  pub send_response-Answered :
      (fuel now : ℕ) (s : Memory) (l : ReceiveMessageDataList) (ys : Messages) (id : RmwRequestId)
      (response : Response) (p : Ptr) (m : ReceiveMessageData) (msg_bytes attachment : Bytes)
      (size : ℕ)
      → IsQueue s l ys
      → length ys < fuel
      → picked (compare_responce_msg id) ys ≡ some (p, m)
      → m.ref ≡ pos 1
      → rmw_zenoh_pico_serialize callbacks true response ≡ some (msg_bytes, size)
      → (attachment_gen ze now m.attachment).1 ≡ some attachment
      → Ensures
          (Answered p
            (without_picked (compare_responce_msg id) ys)
            (record { query_rc = m.query_rc; payload = msg_bytes; attachment = attachment }))
          (send_response callbacks ze z_query_reply fuel now true l id response s)
  unfolding send_response
  send_response-Answered fuel now s l ys id response p m msg_bytes attachment size is enough hit one
        serialized generated =
      let func = compare_responce_msg id in
      let rest = without_picked func ys in
      let Q =
        Answered p rest
          (record { query_rc = m.query_rc; payload = msg_bytes; attachment = attachment }) in
      rw (send_response, serialized)
        (Ensures-bind Q (recv_msg_list_pickup fuel l func s) _
          (pickup-IsQueue func fuel s l ys is enough)
          λ (l1, q) s1 (got, queue, same).
            let (e, at) = subst (λ o. IsPicked o q s1) hit got in
            subst (λ a. Ensures Q (reply_to callbacks ze z_query_reply now l1 a msg_bytes s1))
              (sym e)
              (reply_to-Answered now s1 l1 p m rest msg_bytes attachment at one queue
                (picked-gone func ys p m is.distinct hit) generated))
