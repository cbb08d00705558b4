-- ===== src/Init/Tests.antt =====
-- The theorems on settings, init options and contexts, applied to a process that connects by unicast.
use rmw_zenoh_pico.Prelude.{
  ◌⊎◌, ◌≡◌, refl, Bool, true, false, Bytes, none, some, [], ◌∷◌, codes, replicate, ◌==◌,
  if◌then◌else◌, pos,
}
use rmw_zenoh_pico.Memory.{null}
use rmw_zenoh_pico.Rmw.{
  RmwRet, ret_ok, ret_error, ret_invalid_argument, ret_incorrect_rmw_implementation,
}
use rmw_zenoh_pico.Session.{ConfigKey, Config, ZenohPicoSession, zero_session}
use rmw_zenoh_pico.Init.{
  Settings, serial, unicast, ZenohPicoTransportParams, new_params, rmw_zenoh_pico_init_option,
}
use rmw_zenoh_pico.Init.Address.{settled, init_option-settled}
use rmw_zenoh_pico.Init.Options.{
  RmwInitOptions, Heap, zero_options, rmw_init_options_init, rmw_init_options_copy,
  rmw_init_options_fini,
}
use rmw_zenoh_pico.Init.Cycle.{options_at, options_cycle, options_copy-shares}
use rmw_zenoh_pico.Init.Context.{
  RmwContext, zero_context, set_config, insert_text, insert_zid, insert, rmw_init, rmw_shutdown,
}
use rmw_zenoh_pico.Init.Shutdown.{is_ours, shutdown-init, init-retry}

abbrev settings : Settings
settings = record {
  mode = none;
  serial_device = codes "serial/usb";
  serial_param = codes "baudrate=115200";
  connect = codes "127.0.0.1";
  connect_port = codes "7447";
  listen = codes "127.0.0.1";
  listen_port = codes "-1";
  mcast = codes "224.0.0.224";
  mcast_port = codes "7446";
  mcast_dev = codes "eth0";
  zid = codes "-1";
}

abbrev params : ZenohPicoTransportParams
params = record new_params { mode = codes "client"; connect_addr = codes "tcp/127.0.0.1:7447" }

settled-settings : settled unicast settings new_params ≡ (ret_ok, params)
settled-settings = refl

abbrev long_host : Settings
long_host = record settings { connect = replicate 300 b'a' }

init_option-settled_example :
    rmw_zenoh_pico_init_option unicast long_host new_params
    ≡ some (settled unicast long_host new_params)
init_option-settled_example = init_option-settled unicast long_host new_params

abbrev empty : Heap
empty p = none

options_cycle_example :
    (o o' : RmwInitOptions) × (h1 h2 h3 : Heap) × (rmw_init_options_init unicast settings true 8
        (some zero_options)
        empty
      ≡ some (ret_ok, some o, h1))
    × (rmw_init_options_copy 16 (some o) (some zero_options) h1 ≡ some (ret_ok, some o', h2))
    × (rmw_init_options_fini true (some o) h2 ≡ some (ret_ok, some (record o { impl = null }), h3))
    × (h3 o'.impl ≡ some (settled unicast settings new_params).1)
    × (rmw_init_options_fini true (some o') h3
        ≡ some (ret_ok, some (record o' { impl = null }), empty))
options_cycle_example = options_cycle unicast settings empty 8 16 refl refl refl refl refl refl

abbrev holding : Heap
holding p = if p == 8 then some params else none

options_copy-shares_example :
    (o' : RmwInitOptions) × (h' : Heap) × (rmw_init_options_copy null
        (some (options_at 8))
        (some zero_options)
        holding
      ≡ some (ret_error, some o', holding))
    × (rmw_init_options_fini true (some (options_at 8)) holding
        ≡ some (ret_ok, some (options_at null), h'))
    × (rmw_init_options_fini true (some o') h' ≡ none)
options_copy-shares_example = options_copy-shares holding 8 params refl refl refl

abbrev takes_all : ConfigKey → Bytes → Bool
takes_all key value = true

abbrev shared : ZenohPicoSession
shared = record zero_session { ref = pos 1; config = some [] }

abbrev config : Config
config = (ConfigKey.connect, codes "tcp/127.0.0.1:7447") ∷ (ConfigKey.mode, codes "client") ∷ []

shutdown-init_example :
    (context : RmwContext) × (s' : ZenohPicoSession) × (rmw_init takes_all 16 1000 unicast
        (codes "-1")
        (some (options_at 8))
        (some zero_context)
        holding
        shared
      ≡ some (ret_ok, some context, s'))
    × (s'.ref ≡ pos 2)
    × (rmw_shutdown (some context) s' ≡ some (ret_ok, some zero_context, shared))
unfolding set_config insert_text insert_zid insert
shutdown-init_example =
    shutdown-init takes_all 16 1000 unicast (codes "-1") holding 8 params refl refl config shared 0
      refl refl

init-retry_example :
    (context : RmwContext) × (code : RmwRet) × (rmw_init takes_all 16 1000 serial
        (codes "-1")
        (some (options_at 8))
        (some zero_context)
        holding
        shared
      ≡ some (ret_error, some context, shared))
    × ((code ≡ ret_invalid_argument)
        ⊎ ((code ≡ ret_incorrect_rmw_implementation) × (is_ours (some (options_at 8)) ≡ false)))
    × (rmw_init takes_all 16 1000 unicast
          (codes "-1")
          (some (options_at 8))
          (some context)
          holding
          shared
        ≡ some (code, some context, shared))
unfolding set_config
init-retry_example =
    init-retry takes_all 16 1000 serial (codes "-1") holding 8 params refl refl shared unicast
      (codes "-1") (some (options_at 8)) holding shared refl
