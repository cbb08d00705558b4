-- ===== src/Event/Tests.antt =====
-- The theorem on unread events, applied to a manager that was triggered once.
use rmw_zenoh_pico.Prelude.{◌≡◌, none, some, arith}
use rmw_zenoh_pico.Event.{data_callback_init, data_callback_set, data_callback_trigger}
use rmw_zenoh_pico.Event.Unread.{start, trigger, set-null_call}

set-null_call_example :
    data_callback_set (data_callback_trigger data_callback_init).0 40 (some 7) ≡ none
unfolding data_callback_trigger data_callback_init
set-null_call_example =
    set-null_call (data_callback_trigger data_callback_init).0 1 40 7 (trigger start) (omega arith)
