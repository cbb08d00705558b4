-- ===== src/Session/Tests.antt =====
-- The theorems on the session, applied to contexts that come and go.
use rmw_zenoh_pico.Prelude.{
  ◌≡◌, refl, true, false, none, some, List, [], ◌∷◌, codes, pos, if◌then◌else◌,
}
use rmw_zenoh_pico.Rmw.{ret_ok, ret_error}
use rmw_zenoh_pico.Session.{
  Config, mode, connect, ZenohPicoSession, Zenoh, zero_session, session_connect,
}
use rmw_zenoh_pico.Session.Shared.{
  Call, generate, destroy, run, session_first_kept, session_last-faults,
}
use rmw_zenoh_pico.Session.Connect.{all_start, session_connect-retry}

abbrev config : Config
config = (connect, codes "tcp/10.0.0.1:7447") ∷ (mode, codes "client") ∷ []

abbrev coming_and_going : List Call
coming_and_going = generate [] none ∷ generate [] none ∷ destroy ∷ []

session_first_kept_example :
    (s : ZenohPicoSession) × (run
        (generate config (some (codes "/")) ∷ coming_and_going)
        zero_session
      ≡ some s)
    × (s.ref ≡ pos 2)
    × (s.config ≡ some config)
    × (s.enclave ≡ some (codes "/"))
session_first_kept_example = session_first_kept config (some (codes "/")) coming_and_going 1 refl

session_last-faults_example : run (generate config none ∷ destroy ∷ []) zero_session ≡ none
session_last-faults_example = session_last-faults config none (destroy ∷ []) refl

-- A zenoh-pico that reaches no peer, and one that finds a router without any configuration.
abbrev unreachable : Zenoh
unreachable = record { z_open = λ c. false; zp_start_read_task = true; zp_start_lease_task = true }

abbrev scouting : Zenoh
scouting = record { z_open = λ c. true; zp_start_read_task = true; zp_start_lease_task = true }

abbrev configured : ZenohPicoSession
configured = record zero_session { config = some config }

session_connect-retry_example :
    (s'' : ZenohPicoSession) × (session_connect scouting
        (some (record configured { config = none }))
      ≡ ((if all_start scouting none then ret_ok else ret_error), some s''))
    × (s''.enable_session ≡ all_start scouting none)
    × (s''.config ≡ none)
unfolding session_connect
session_connect-retry_example =
    session_connect-retry unreachable scouting configured (record configured { config = none }) refl
      refl
