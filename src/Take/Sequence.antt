-- ===== src/Take/Sequence.antt =====
-- `rmw_take_sequence` over a queue whose messages can be read.
use rmw_zenoh_pico.Prelude.{
  ℕ, zero, suc, ◌≡◌, ◌≢◌, refl, ap, ◌∙◌, true, false, some, none, Option, List, [], ◌∷◌, arith,
  ◌==◌, if◌then◌else◌, length, take, drop, ltb, inl, inr, Bool-cases, ==_iff,
}
use rmw_zenoh_pico.Message.{ReceiveMessageData}
use rmw_zenoh_pico.Memory.{Ptr, Memory}
use rmw_zenoh_pico.MessageList.{ReceiveMessageDataList}
use rmw_zenoh_pico.MessageList.Chain.{Messages, has, IsQueue}
use rmw_zenoh_pico.MessageList.Ends.{Ensures, Ensures-bind}
use rmw_zenoh_pico.MessageList.Drain.{Unshared, owned_by_all}
use rmw_zenoh_pico.Rmw.{RmwRet, ret_ok, ret_error}
use rmw_zenoh_pico.Serialize.{MessageTypeSupport, rmw_zenoh_pico_deserialize}
use rmw_zenoh_pico.Take.{
  RmwMessageInfo, Taken, TakenSequence, RmwSubscription, fill_message_info,
  rmw_zenoh_pico_deserialize_topic_msg, rmw_zenoh_pico_take_one, take_loop, take_checks,
  sequence_checks, rmw_take_sequence,
}
use rmw_zenoh_pico.Take.One.{FirstTaken, take_one_empty, take_one-first}

ltb-suc : (a b : ℕ) → ltb a b ≡ ltb (suc a) (suc b)
ltb-suc a b = ground arith

module _ {RosMessage : Type 0} (callbacks : MessageTypeSupport RosMessage)
    (decode : ReceiveMessageData → RosMessage) where
  -- Each message's payload is read as `decode` says.
  abbrev pub Readable : Messages → Type 0
  Readable [] = Unit
  Readable ((a, m) ∷ xs) =
      (rmw_zenoh_pico_deserialize callbacks m.payload_start m.payload_size ≡ some (decode m))
      × Readable xs

  -- The messages with their infos, in the order of the queue.
  abbrev pub in_order : (ℕ → RmwMessageInfo) → Messages → List (RosMessage × Option RmwMessageInfo)
  in_order infos [] = []
  in_order infos ((a, m) ∷ xs) =
      (decode m, some (fill_message_info m (infos 0))) ∷ in_order (λ i. infos (suc i)) xs

  abbrev pub code_of : (room : ℕ) → Messages → RmwRet → RmwRet
  code_of zero xs ret = ret
  code_of (suc room) [] ret = ret_error
  code_of (suc room) (x ∷ xs) ret = code_of room xs ret_ok

  abbrev pub SequenceTaken :
      Memory
      → ℕ
      → (ℕ → RmwMessageInfo)
      → Messages
      → RmwRet
      → TakenSequence RosMessage
      → Memory
      → Type 0
  SequenceTaken s room infos xs ret t s' =
      (t.messages ≡ in_order infos (take room xs))
      × IsQueue s' t.queue (drop room xs)
      × (t.ret ≡ code_of room xs ret)
      × ((a : Ptr) → s'.cell a ≡ (if has a (take room xs) then none else s.cell a))
      × (s'.released ≡ owned_by_all (take room xs) s.released)

  read-message :
      (m : ReceiveMessageData) (info : RmwMessageInfo)
      → rmw_zenoh_pico_deserialize callbacks m.payload_start m.payload_size ≡ some (decode m)
      → rmw_zenoh_pico_deserialize_topic_msg callbacks m (some info)
        ≡ some (decode m, some (fill_message_info m info))
  unfolding rmw_zenoh_pico_deserialize_topic_msg
  read-message m info readable = rw (rmw_zenoh_pico_deserialize_topic_msg, readable) refl

  has-take : (a : Ptr) (room : ℕ) (xs : Messages) → has a xs ≡ false → has a (take room xs) ≡ false
  has-take a zero xs out = refl
  has-take a (suc room) [] out = refl
  has-take a (suc room) ((b, m) ∷ xs) out = ground (arith, out, has-take a room xs)

  one_round :
      (s s1 s2 : Memory) (room : ℕ) (infos : ℕ → RmwMessageInfo) (p : Ptr) (m : ReceiveMessageData)
      (xs : Messages) (one : Taken RosMessage) (t : TakenSequence RosMessage) (ret : RmwRet)
      → has p xs ≡ false
      → FirstTaken callbacks s p m xs (decode m, some (fill_message_info m (infos 0))) one s1
      → SequenceTaken s1 room (λ i. infos (suc i)) xs ret_ok t s2
      → SequenceTaken s
          (suc room)
          infos
          ((p, m) ∷ xs)
          ret
          (record t { messages = (decode m, some (fill_message_info m (infos 0))) ∷ t.messages })
          s2
  one_round s s1 s2 room infos p m xs one t ret out (code, got, queue, gone, keep, back)
        (messages, left, codes, cells, released) =
      (
        ap (λ ms. (decode m, some (fill_message_info m (infos 0))) ∷ ms) messages,
        left,
        codes,
        (λ a. elim (Bool-cases (a == p)) [
          | inl here ↦
              let e : a ≡ p = (==_iff a p).0 here in
              let absent : has a (take room xs) ≡ false =
                ap (λ q. has q (take room xs)) e ∙ has-take p room xs out in
              rw here (cells a ∙ rw absent (ap s1.cell e ∙ gone))
          | inr away ↦
              let ne : a ≢ p = λ e. ground (arith, e) in
              rw away (cells a ∙ ap (λ c. if has a (take room xs) then none else c) (keep a ne))
        ]),
        released ∙ ap (owned_by_all (take room xs)) back,
      )

  pub take_loop-SequenceTaken :
      (room : ℕ) (infos : ℕ → RmwMessageInfo) (s : Memory) (l : ReceiveMessageDataList)
      (xs : Messages) (ret : RmwRet)
      → IsQueue s l xs
      → Unshared xs
      → Readable xs
      → Ensures (SequenceTaken s room infos xs ret) (take_loop callbacks room infos l ret s)
  unfolding take_loop
  take_loop-SequenceTaken zero infos s l xs ret is one readable =
      (refl, is, refl, (λ a. refl), refl)
  take_loop-SequenceTaken (suc room) infos s l [] ret is one readable =
      rw (take_one_empty callbacks s l (some (infos 0)) is) (refl, is, refl, (λ a. refl), refl)
  take_loop-SequenceTaken (suc room) infos s l ((p, m) ∷ xs) ret is (one, ones) (read, reads) =
      let Q = SequenceTaken s (suc room) infos ((p, m) ∷ xs) ret in
      let item : RosMessage × Option RmwMessageInfo =
        (decode m, some (fill_message_info m (infos 0))) in
      Ensures-bind Q (rmw_zenoh_pico_take_one callbacks l (some (infos 0)) s) _
        (take_one-first callbacks s l p m xs (some (infos 0)) item is one
          (read-message m (infos 0) read))
        λ taken s1 (code, got, queue, gone, keep, back).
          rw (got, code)
            (Ensures-bind Q (take_loop callbacks room (λ i. infos (suc i)) taken.queue ret_ok s1) _
              (take_loop-SequenceTaken room (λ i. infos (suc i)) s1 taken.queue xs ret_ok queue ones
                reads)
              λ t s2 rest.
                one_round s s1 s2 room infos p m xs taken t ret is.distinct.0
                  (code, got, queue, gone, keep, back) rest)

  code_of_count :
      (count : ℕ) (xs : Messages)
      → code_of count xs ret_ok ≡ (if ltb (length xs) count then ret_error else ret_ok)
  code_of_count zero xs = ground arith
  code_of_count (suc n) [] = ground arith
  code_of_count (suc n) (x ∷ xs) = code_of_count n xs ∙ rw (ltb-suc (length xs) n) refl

  code_of_call :
      (count : ℕ) (xs : Messages)
      → (count == 0) ≡ false
      → code_of count xs ret_error ≡ (if ltb (length xs) count then ret_error else ret_ok)
  code_of_call zero xs some_count = ground (arith, some_count)
  code_of_call (suc n) [] some_count = ground arith
  code_of_call (suc n) (x ∷ xs) some_count = code_of_count n xs ∙ rw (ltb-suc (length xs) n) refl

  -- rmw_take_sequence, called with arguments that pass its checks, on a queue whose messages can be read
  -- and have no other holder: it hands out the first `count` messages in the order of the queue,
  -- all of them if there are fewer, each with its info, and frees exactly those; the others stay
  -- queued. Its code is RMW_RET_OK if there were `count` messages; if there were fewer it is RMW_RET_ERROR,
  -- the code of the round that found the queue empty.
  pub take_sequence-in_order :
      (sub : RmwSubscription) (count capacity info_capacity : ℕ) (infos : ℕ → RmwMessageInfo)
      (s : Memory) (l : ReceiveMessageDataList) (xs : Messages)
      → take_checks callbacks (some sub) true ≡ none
      → sequence_checks callbacks count capacity info_capacity ≡ none
      → (count == 0) ≡ false
      → sub.message_queue ≡ some l
      → IsQueue s l xs
      → Unshared xs
      → Readable xs
      → Ensures
          (λ result s'.
            (t : TakenSequence RosMessage) × (result ≡ inr t)
            × (t.messages ≡ in_order infos (take count xs))
            × IsQueue s' t.queue (drop count xs)
            × (t.ret ≡ (if ltb (length xs) count then ret_error else ret_ok))
            × ((a : Ptr) → s'.cell a ≡ (if has a (take count xs) then none else s.cell a))
            × (s'.released ≡ owned_by_all (take count xs) s.released))
          (rmw_take_sequence callbacks (some sub) true count capacity info_capacity infos s)
  unfolding rmw_take_sequence
  take_sequence-in_order sub count capacity info_capacity infos s l xs checked fits some_count
        has_queue is one readable =
      rw (rmw_take_sequence, checked, fits, has_queue)
        (Ensures-bind
          (λ result s'.
            (t : TakenSequence RosMessage) × (result ≡ inr t)
            × (t.messages ≡ in_order infos (take count xs))
            × IsQueue s' t.queue (drop count xs)
            × (t.ret ≡ (if ltb (length xs) count then ret_error else ret_ok))
            × ((a : Ptr) → s'.cell a ≡ (if has a (take count xs) then none else s.cell a))
            × (s'.released ≡ owned_by_all (take count xs) s.released))
          (take_loop callbacks count infos l ret_error s) _
          (take_loop-SequenceTaken count infos s l xs ret_error is one readable)
          λ t s' (messages, queue, code, cells, released).
            (t, refl, messages, queue, code ∙ code_of_call count xs some_count, cells, released))
