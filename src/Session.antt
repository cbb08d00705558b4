-- ===== src/Session.antt =====
-- src/zenoh_pico/zenoh_pico_session.c: the one session of the process, shared by all contexts.
pub mod Shared
pub mod Connect
mod Tests
use rmw_zenoh_pico.Prelude.{
  ◌≡◌, refl, Bool, true, false, not, ◌||◌, Bytes, Option, none, some, if◌then◌else◌, List, ℤ, pos,
  inc, dec, is_zero, is_positive,
}
use rmw_zenoh_pico.Rmw.{RmwRet, ret_ok, ret_error}

-- The keys that the source sets in a configuration of zenoh-pico.
pub data ConfigKey : Type 0 where
  session_zid : ConfigKey
  mode : ConfigKey
  connect : ConfigKey
  listen : ConfigKey

-- What was inserted into a configuration, the last entry first.
abbrev pub Config : Type 0
Config = List (ConfigKey × Bytes)

-- What the `data` pointer of a guard condition points to.
pub data GuardData : Type 0 where
  null_data : GuardData
  condition_data : GuardData
  function : GuardData

-- `config` and `session` are `none` where they have been moved, dropped or not yet set.
pub record ZenohPicoSession : Type 0 where
  pub ref : ℤ
  pub enclave : Option Bytes
  pub config : Option Config
  pub session : Bool
  pub enable_session : Bool
  pub graph_guard_condition : GuardData

-- `_zenohSession` before its first use.
abbrev pub zero_session : ZenohPicoSession
zero_session = record {
  ref = pos 0;
  enclave = none;
  config = none;
  session = false;
  enable_session = false;
  graph_guard_condition = null_data;
}

-- `data` of the graph guard condition is set to the function `zenoh_pico_guard_condition_data` itself: it
-- is not called.
abbrev new_session : Config → Option Bytes → ZenohPicoSession
new_session config enclave = record {
  ref = inc (pos 0);
  enclave = enclave;
  config = some config;
  session = false;
  enable_session = false;
  graph_guard_condition = function;
}

-- `session` is the static `_zenohSession`, so that there is always memory for it.
unfoldable pub zenoh_pico_generate_session :
    Config → Option Bytes → ZenohPicoSession → ZenohPicoSession
zenoh_pico_generate_session config enclave session =
    if is_positive session.ref
    then record session { ref = inc session.ref }
    else new_session config enclave

-- `z_mutex_drop` and `z_free`: of a guard condition's data, or a fault.
unfoldable pub destroy_guard_data : GuardData → Option (Unit {0})
destroy_guard_data condition_data = some tt
destroy_guard_data null_data = none
destroy_guard_data function = none

-- `none` is a fault.
unfoldable pub zenoh_pico_destroy_session : ZenohPicoSession → Option ZenohPicoSession
unfolding destroy_guard_data
zenoh_pico_destroy_session session =
    if is_zero (dec session.ref)
    then elim (destroy_guard_data session.graph_guard_condition) [
      | none ↦ none
      | some done ↦
          some (record session {
            ref = dec session.ref;
            enclave = none;
            config = none;
            session = false;
          })
    ]
    else some (record session { ref = dec session.ref })

-- What zenoh-pico does: whether `z_open` succeeds, and whether each of the two tasks starts.
pub record Zenoh : Type 0 where
  pub z_open : Option Config → Bool
  pub zp_start_read_task : Bool
  pub zp_start_lease_task : Bool

-- `z_open` takes the configuration, whether it succeeds or not.
unfoldable pub open_session : Zenoh → ZenohPicoSession → RmwRet × ZenohPicoSession
open_session z s =
    if not (z.z_open s.config)
    then (ret_error, record s { config = none })
    else if not z.zp_start_read_task || not z.zp_start_lease_task
    then (ret_error, record s { config = none; session = false })
    else (ret_ok, record s { config = none; session = true; enable_session = true })

-- For NULL the function returns `false`, which is RMW_RET_OK.
unfoldable pub session_connect : Zenoh → Option ZenohPicoSession → RmwRet × Option ZenohPicoSession
unfolding open_session
session_connect z none = (ret_ok, none)
session_connect z (some s) =
    if s.enable_session then (ret_ok, some s) else let (r, s') = open_session z s in (r, some s')

-- `isEnableSession`
unfoldable pub is_enable_session : ZenohPicoSession → Bool
is_enable_session session = session.enable_session
