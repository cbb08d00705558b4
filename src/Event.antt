-- ===== src/Event.antt =====
-- The data callback of a subscription, service or client: `DataEventManager` of rmw_event.c. A callback is
-- known by a number, and what it is called with is recorded. The table of supported events is empty
-- (rmw_zenoh_pico_event.h) and its search is compiled out, since EVENT_TABLE_SIZE is defined.
pub mod Unread
pub mod Refused
mod Tests
use rmw_zenoh_pico.Prelude.{
  Bytes, ℕ, suc, ◌+◌, Bool, true, false, not, Option, none, some, List, [], ◌∷◌, ◌++◌, ◌==◌,
  if◌then◌else◌,
}
use rmw_zenoh_pico.Memory.{Ptr, null}
use rmw_zenoh_pico.Rmw.{
  RmwRet, ret_ok, ret_error, ret_invalid_argument, ret_incorrect_rmw_implementation,
  identifier_matches, require, present,
}

-- A call of a user's callback: the callback, its user data and the number of events.
pub record CallbackCall : Type 0 where
  pub callback : ℕ
  pub user_data : Ptr
  pub number_of_events : ℕ

pub record DataEventManager : Type 0 where
  pub callback : Option ℕ
  pub user_data : Ptr
  pub unread_count : ℕ
  pub wait_set_data : Ptr

-- `data_callback_init`; the wait set is NULL since the struct was zeroed. The array `event_status`, which
-- EVENT_TABLE_SIZE makes empty, and the memsets of it, which write `sizeof(EventStatus)` bytes, are left out.
unfoldable pub data_callback_init : DataEventManager
data_callback_init = record {
  callback = none;
  user_data = null;
  unread_count = 0;
  wait_set_data = null;
}

-- The old callback is called with what was not read; `none` is a call through NULL.
call_old : DataEventManager → Option (List CallbackCall)
call_old m = elim m.callback [
  | none ↦ none
  | some cb ↦
      some
        (record { callback = cb; user_data = m.user_data; number_of_events = m.unread_count } ∷ [])
]

unfoldable pub data_callback_set :
    DataEventManager
    → (user_data : Ptr) → (callback : Option ℕ) → Option (DataEventManager × List CallbackCall)
unfolding call_old
data_callback_set m user_data none = some (record m { user_data = null; callback = none }, [])
data_callback_set m user_data (some cb) =
    if m.unread_count == 0
    then some (record m { user_data = user_data; callback = some cb }, [])
    else elim (call_old m) [
      | none ↦ none
      | some calls ↦
          some (record m { user_data = user_data; callback = some cb; unread_count = 0 }, calls)
    ]

unfoldable pub data_callback_trigger : DataEventManager → DataEventManager × List CallbackCall
data_callback_trigger m = elim m.callback [
  | none ↦ (record m { unread_count = m.unread_count + 1 }, [])
  | some cb ↦ (m, record { callback = cb; user_data = m.user_data; number_of_events = 1 } ∷ [])
]

-- The event types of the rmw interface that `rmw_take_event` tells apart.
pub data RmwEventType : Type 0 where
  requested_qos_incompatible offered_qos_incompatible message_lost : RmwEventType
  subscription_matched publication_matched : RmwEventType
  subscription_incompatible_type publisher_incompatible_type : RmwEventType
  liveliness_lost liveliness_changed : RmwEventType
  requested_deadline_missed offered_deadline_missed invalid : RmwEventType

-- `support_event_type`, with its loop compiled out; `none` is -1.
unfoldable pub support_event_type : RmwEventType → Option ℕ
support_event_type type = none

-- `event_condition_check`, with its loop compiled out.
unfoldable pub event_condition_check : DataEventManager → Bool
event_condition_check m = false

unfoldable pub event_condition_check_and_attach :
    DataEventManager → (wait_set : Ptr) → DataEventManager × Bool
unfolding event_condition_check
event_condition_check_and_attach m wait_set =
    if event_condition_check m then (m, true) else (record m { wait_set_data = wait_set }, false)

unfoldable pub event_condition_detach_and_queue_is_empty :
    DataEventManager → DataEventManager × Bool
unfolding event_condition_check
event_condition_detach_and_queue_is_empty m =
    (record m { wait_set_data = null }, not (event_condition_check m))

-- `rmw_event_type_is_supported`
unfoldable pub rmw_event_type_is_supported : RmwEventType → Bool
unfolding support_event_type
rmw_event_type_is_supported type = present (support_event_type type)

-- `take_event_status`; the array of event statuses has no element, and `none` is NULL.
unfoldable pub take_event_status : DataEventManager → RmwEventType → Option ℕ
unfolding support_event_type
take_event_status m type = support_event_type type

-- `add_rmw_zenoh_pico_event_total` and `add_rmw_zenoh_pico_event_current` write only to a status.
unfoldable pub add_event : DataEventManager → RmwEventType → DataEventManager
unfolding take_event_status
add_event m type = elim (take_event_status m type) [ none ↦ m | some status ↦ m ]

-- `is_rmw_zenoh_pico_event_changed`, over what the status says.
unfoldable pub is_event_changed : (changed : ℕ → Bool) → DataEventManager → RmwEventType → Bool
unfolding take_event_status
is_event_changed changed m type = elim (take_event_status m type) [
  | none ↦ false
  | some status ↦ changed status
]

-- `rmw_publisher_event_init` and `rmw_subscription_event_init`: the handles are there, or not, and
-- the entity has an implementation identifier and data, or not.
unfoldable pub event_init :
    (handles : Bool) → (identifier : Option Bytes) → (entity_data : Bool) → RmwEventType → RmwRet
unfolding support_event_type
event_init handles identifier entity_data type =
    elim (require handles ret_invalid_argument (
      require (present identifier) ret_invalid_argument (
        require entity_data ret_invalid_argument (
          require (present (support_event_type type)) ret_incorrect_rmw_implementation
            (require (identifier_matches identifier) ret_incorrect_rmw_implementation none))))) [
              | none ↦ ret_ok
              | some code ↦ code
            ]

-- The event types that `rmw_take_event` has a case for.
abbrev has_case : RmwEventType → Bool
has_case liveliness_lost = false
has_case liveliness_changed = false
has_case requested_deadline_missed = false
has_case offered_deadline_missed = false
has_case invalid = false
has_case requested_qos_incompatible = true
has_case offered_qos_incompatible = true
has_case message_lost = true
has_case subscription_matched = true
has_case publication_matched = true
has_case subscription_incompatible_type = true
has_case publisher_incompatible_type = true

-- `rmw_take_event`: its code, and whether an event was taken. There is no status whose counters it copies.
unfoldable pub rmw_take_event :
    (arguments : Bool) → (event_mgr : Option DataEventManager) → RmwEventType → RmwRet × Bool
unfolding take_event_status
rmw_take_event false event_mgr type = (ret_invalid_argument, false)
rmw_take_event true none type = (ret_invalid_argument, false)
rmw_take_event true (some m) type = elim (take_event_status m type) [
  | none ↦ (ret_incorrect_rmw_implementation, false)
  | some status ↦ if has_case type then (ret_ok, true) else (ret_error, false)
]

-- The four functions that set a callback on a subscription, service, client or event; `none` is a handle
-- or data that is NULL, and the outer `none` of the result a call through NULL.
unfoldable pub set_callback :
    Option DataEventManager
    → (user_data : Ptr) → (callback : Option ℕ)
    → Option (RmwRet × Option DataEventManager × List CallbackCall)
unfolding data_callback_set
set_callback none user_data callback = some (ret_invalid_argument, none, [])
set_callback (some m) user_data callback = elim (data_callback_set m user_data callback) [
  | none ↦ none
  | some (m', calls) ↦ some (ret_ok, some m', calls)
]
