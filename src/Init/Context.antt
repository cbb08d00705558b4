-- ===== src/Init/Context.antt =====
-- `rmw_init`, `rmw_shutdown` and `rmw_context_fini` (src/rmw_init.c): what the options' parameters put into
-- zenoh's configuration, and the context that holds the session.
use rmw_zenoh_pico.Prelude.{
  ℕ, Bool, true, false, not, ◌&&◌, Bytes, bytes_eq, Option, none, some, [], ◌∷◌, codes, leb, ◌==◌,
  if◌then◌else◌, length,
}
use rmw_zenoh_pico.Memory.{null}
use rmw_zenoh_pico.Rmw.{
  RmwRet, ret_ok, ret_error, ret_invalid_argument, ret_incorrect_rmw_implementation,
  implementation_identifier, identifier_matches, present, require,
}
use rmw_zenoh_pico.Session.{
  ConfigKey, Config, ZenohPicoSession, zenoh_pico_generate_session, zenoh_pico_destroy_session,
}
use rmw_zenoh_pico.Init.{Transport, serial, unicast, multicast, ZenohPicoTransportParams}
use rmw_zenoh_pico.Init.Options.{RmwInitOptions, Heap}

-- `impl` is whether it points to the session.
pub record RmwContext : Type 0 where
  pub implementation_identifier : Option Bytes
  pub actual_domain_id : ℕ
  pub impl : Bool

-- `rmw_get_zero_initialized_context`
abbrev pub zero_context : RmwContext
zero_context = record { implementation_identifier = none; actual_domain_id = 0; impl = false }

-- `context` is `none` for NULL; an outer `none` is a fault.
abbrev pub Result : Type 0
Result = Option (RmwRet × Option RmwContext × ZenohPicoSession)

-- zenoh-pico takes or refuses an entry of its configuration; `Z_ZID_LENGTH` is its constant, and
-- `RMW_DEFAULT_DOMAIN_ID` one of rmw.
module _ (zp_config_insert : ConfigKey → Bytes → Bool) (z_zid_length default_domain_id : ℕ) where
  unfoldable pub insert : ConfigKey → Bytes → Config → Option Config
  insert key value c = if zp_config_insert key value then some ((key, value) ∷ c) else none

  -- An empty text is not inserted.
  unfoldable pub insert_text : ConfigKey → Bytes → Option Config → Option Config
  unfolding insert
  insert_text key value none = none
  insert_text key value (some c) = if length value == 0 then some c else insert key value c

  unfoldable pub insert_zid : Bytes → Config → Option Config
  unfolding insert
  insert_zid zid c =
      if not (bytes_eq zid (codes "-1")) && leb (length zid) z_zid_length
      then insert ConfigKey.session_zid zid c
      else some c

  -- `rmw_zenoh_pico_set_common_config`, and `rmw_zenoh_pico_set_serial_config`, which only fails.
  unfoldable pub set_config : Transport → Bytes → ZenohPicoTransportParams → Option Config
  unfolding insert_text insert_zid
  set_config serial zid p = none
  set_config unicast zid p = insert_text ConfigKey.listen p.listen_addr (
      insert_text ConfigKey.connect p.connect_addr
        (insert_text ConfigKey.mode p.mode (insert_zid zid [])))
  set_config multicast zid p =
      insert_text ConfigKey.listen p.mcast_addr
        (insert_text ConfigKey.mode p.mode (insert_zid zid []))

  -- The checks at the head of `rmw_init`, in their order.
  abbrev pub init_checks : RmwInitOptions → RmwContext → Option RmwRet
  init_checks o context = require (not (o.impl == null)) ret_invalid_argument (
      require (present o.implementation_identifier) ret_invalid_argument (
        require (identifier_matches o.implementation_identifier) ret_incorrect_rmw_implementation (
          require (present o.enclave) ret_invalid_argument
            (require (not (present context.implementation_identifier)) ret_invalid_argument none))))

  -- The context as it stands before the configuration is built.
  abbrev pub begun : RmwInitOptions → RmwContext → RmwContext
  begun o context = record context {
    implementation_identifier = some implementation_identifier;
    actual_domain_id = if o.domain_id == default_domain_id then 0 else o.domain_id;
  }

  abbrev open_context : Option Config → RmwInitOptions → RmwContext → ZenohPicoSession → Result
  open_context none o context session = some (ret_error, some context, session)
  open_context (some c) o context session = some (
    ret_ok,
    some (record context { impl = true }),
    zenoh_pico_generate_session c o.enclave session,
  )

  unfoldable pub rmw_init :
      Transport
      → (zid : Bytes) → Option RmwInitOptions
      → Option RmwContext
      → Heap
      → ZenohPicoSession
      → Result
  rmw_init t zid none context h session = some (ret_invalid_argument, context, session)
  rmw_init t zid (some o) none h session = some (ret_invalid_argument, none, session)
  rmw_init t zid (some o) (some context) h session = elim (init_checks o context) [
    | some code ↦ some (code, some context, session)
    | none ↦ elim (h o.impl) [
      | none ↦ none
      | some p ↦ open_context (set_config t zid p) o (begun o context) session
    ]
  ]

unfoldable pub rmw_context_fini : RmwContext → ZenohPicoSession → Result
rmw_context_fini context session =
    if context.impl
    then elim (zenoh_pico_destroy_session session) [
      | none ↦ none
      | some s ↦ some (ret_ok, some (record context { impl = false }), s)
    ]
    else some (ret_ok, some context, session)

abbrev zeroed : Result → Result
zeroed none = none
zeroed (some (ret_ok, context, session)) = some (ret_ok, some zero_context, session)
zeroed (some (r, context, session)) = some (r, context, session)

unfoldable pub rmw_shutdown : Option RmwContext → ZenohPicoSession → Result
unfolding rmw_context_fini
rmw_shutdown none session = some (ret_invalid_argument, none, session)
rmw_shutdown (some context) session =
    if identifier_matches context.implementation_identifier
    then zeroed (rmw_context_fini context session)
    else some (ret_incorrect_rmw_implementation, some context, session)
