-- ===== src/Service/Checks.antt =====
-- `rmw_take_request`, `rmw_send_response` and `rmw_send_request` with the checks at their heads. A NULL
-- pointer is `none`, or `false` where only its presence matters; `inl` is the code of a failed
-- check. The tests of the service name that only set an error message are left out.
use rmw_zenoh_pico.Prelude.{ℕ, Bool, Bytes, Option, none, some, ◌⊎◌, inl, inr}
use rmw_zenoh_pico.Message.{ZenohPicoAttachemtData}
use rmw_zenoh_pico.Memory.{Cmd, pure, ◌>>=◌}
use rmw_zenoh_pico.Rmw.{
  RmwRet, ret_error, ret_invalid_argument, ret_incorrect_rmw_implementation, identifier_matches,
  require, present,
}
use rmw_zenoh_pico.Attachment.{ZeSerializer}
use rmw_zenoh_pico.Serialize.{MessageTypeSupport}
use rmw_zenoh_pico.Service.{
  RmwRequestId, RmwServiceInfo, ServiceQueues, TakenRequest, take_request, Reply, SentResponse,
  send_response, Outgoing, SentRequest, send_request,
}

-- `rmw_service_t` and `rmw_client_t`, with what the functions use of their data.
pub record RmwHandle (A : Type 0) : Type 0 where
  pub implementation_identifier : Option Bytes
  pub service_name : Option Bytes
  pub service_data : Option A

abbrev pub own_identifier : {A : Type 0} → RmwHandle A → Option RmwRet
own_identifier h =
    require (identifier_matches h.implementation_identifier) ret_incorrect_rmw_implementation none

abbrev pub take_request_checks :
    {A : Type 0} → Option (RmwHandle A) → (taken : Bool) → Option RmwRet
take_request_checks none taken = some ret_invalid_argument
take_request_checks (some h) taken = require taken ret_invalid_argument (
    require (present h.service_name) ret_error
      (require (present h.service_data) ret_error (own_identifier h)))

abbrev pub send_response_checks :
    {A : Type 0} → Option (RmwHandle A) → (arguments : Bool) → Option RmwRet
send_response_checks none arguments = some ret_invalid_argument
send_response_checks (some h) arguments =
    require (present h.service_data) ret_invalid_argument
      (require arguments ret_invalid_argument (own_identifier h))

abbrev pub send_request_checks : {A : Type 0} → Option (RmwHandle A) → Option RmwRet
send_request_checks none = some ret_invalid_argument
send_request_checks (some h) =
    require (present h.service_data) ret_invalid_argument (own_identifier h)

-- What the handle's data are, behind the checks.
abbrev data_of : {A B : Type 0} → Option (RmwHandle A) → (A → Cmd B) → Cmd (RmwRet ⊎ B)
data_of none k = pure (inl ret_invalid_argument)
data_of (some h) k = elim h.service_data [
  | none ↦ pure (inl ret_invalid_argument)
  | some a ↦ do b ← k a; pure (inr b)
]

module _ {Request : Type 0} (callbacks : MessageTypeSupport Request) where
  unfoldable pub rmw_take_request :
      Option (RmwHandle ServiceQueues)
      → (taken : Bool) → Option RmwServiceInfo
      → Cmd (RmwRet ⊎ TakenRequest Request)
  rmw_take_request service taken request_header = elim (take_request_checks service taken) [
    | some code ↦ pure (inl code)
    | none ↦ data_of service (λ q. take_request callbacks q request_header)
  ]

module _ {Response : Type 0} (callbacks : MessageTypeSupport Response) (ze : ZeSerializer)
    (z_query_reply : Reply → Bool) where
  -- `arguments`: neither the request header nor the response is NULL.
  unfoldable pub rmw_send_response :
      (fuel now : ℕ)
      → (allocated : Bool) → Option (RmwHandle ServiceQueues)
      → (arguments : Bool) → RmwRequestId
      → Response
      → Cmd (RmwRet ⊎ SentResponse)
  rmw_send_response fuel now allocated service arguments request_header ros_response =
      elim (send_response_checks service arguments) [
        | some code ↦ pure (inl code)
        | none ↦ data_of service (λ q.
            send_response callbacks ze z_query_reply fuel now allocated q.response_queue
              request_header ros_response)
      ]

module _ {RosMessage : Type 0} (callbacks : MessageTypeSupport RosMessage) (ze : ZeSerializer)
    (z_send : Outgoing → Bool) where
  unfoldable pub rmw_send_request :
      (now : ℕ)
      → (allocated : Bool) → Option (RmwHandle ZenohPicoAttachemtData)
      → RosMessage
      → RmwRet ⊎ SentRequest
  rmw_send_request now allocated none ros_request = inl ret_invalid_argument
  rmw_send_request now allocated (some client) ros_request =
      elim (send_request_checks (some client)) [
        | some code ↦ inl code
        | none ↦ elim client.service_data [
          | none ↦ inl ret_invalid_argument
          | some held ↦ inr (send_request callbacks ze z_send now allocated held ros_request)
        ]
      ]
