-- ===== src/Event/Refused.antt =====
-- Events are not supported: no function hands one out.
use rmw_zenoh_pico.Prelude.{ℕ, ◌≡◌, ◌≢◌, refl, Bool, false, Bytes, Option, arith}
use rmw_zenoh_pico.Rmw.{ret_ok}
use rmw_zenoh_pico.Event.{
  DataEventManager, RmwEventType, support_event_type, take_event_status, add_event,
  is_event_changed, event_init, rmw_take_event,
}

-- For every event type and every argument: rmw_publisher_event_init and rmw_subscription_event_init refuse
-- the type, rmw_take_event takes nothing and does not return RMW_RET_OK, counting an event leaves
-- the manager as it is, and no event is reported as changed.
pub events-refused :
    (handles arguments entity_data : Bool) (identifier : Option Bytes)
    (manager : Option DataEventManager) (m : DataEventManager) (changed : ℕ → Bool)
    (type : RmwEventType)
    → (event_init handles identifier entity_data type ≢ ret_ok)
      × ((rmw_take_event arguments manager type).0 ≢ ret_ok)
      × ((rmw_take_event arguments manager type).1 ≡ false)
      × (add_event m type ≡ m)
      × (is_event_changed changed m type ≡ false)
unfolding event_init rmw_take_event add_event is_event_changed take_event_status support_event_type
events-refused handles arguments entity_data identifier manager m changed type =
    ((λ e. ground (arith, e)), (λ e. ground (arith, e)), ground arith, refl, refl)
