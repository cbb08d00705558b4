-- ===== src/Session/Connect.antt =====
-- Opening the session, and trying again after a failure.
use rmw_zenoh_pico.Prelude.{
  ◌≡◌, sym, ap, ◌∙◌, arith, Bool, false, ◌&&◌, Option, none, some, if◌then◌else◌, Bool-cases, inl,
  inr,
}
use rmw_zenoh_pico.Rmw.{RmwRet, ret_ok, ret_error}
use rmw_zenoh_pico.Session.{Config, ZenohPicoSession, Zenoh, open_session, session_connect}

-- zenoh-pico opens a session with a configuration and starts both tasks.
abbrev pub all_start : Zenoh → Option Config → Bool
all_start z config = z.z_open config && (z.zp_start_read_task && z.zp_start_lease_task)

open_session-lem :
    (z : Zenoh) (s : ZenohPicoSession)
    → s.enable_session ≡ false
    → ((open_session z s).0 ≡ (if all_start z s.config then ret_ok else ret_error))
      × ((open_session z s).1.config ≡ none)
      × ((open_session z s).1.enable_session ≡ all_start z s.config)
unfolding open_session
open_session-lem z s e = ground arith

connect_closed :
    (z : Zenoh) (s : ZenohPicoSession)
    → s.enable_session ≡ false
    → session_connect z (some s) ≡ ((open_session z s).0, some (open_session z s).1)
unfolding session_connect
connect_closed z s e =
    ap
      (λ (b : Bool).
        if b then (ret_ok, some s) else ((open_session z s).0, some (open_session z s).1))
      e

failed_state :
    (z : Zenoh) (s s' : ZenohPicoSession)
    → s.enable_session ≡ false
    → session_connect z (some s) ≡ (ret_error, some s')
    → (s'.enable_session ≡ false) × (s'.config ≡ none)
unfolding session_connect
failed_state z s s' e failed =
    let (code, config, enabled) = open_session-lem z s e in
    let same : (open_session z s).1 ≡ s' = ground (arith, e, failed) in
    let error : (open_session z s).0 ≡ ret_error = ground (arith, e, failed) in
    elim (Bool-cases (all_start z s.config)) [
      | inl w ↦ absurd (ground (arith, w, code, error))
      | inr w ↦ (
        ap (λ (x : ZenohPicoSession). x.enable_session) (sym same) ∙ (enabled ∙ w),
        ap (λ (x : ZenohPicoSession). x.config) (sym same) ∙ config,
      )
    ]

-- After a failed `session_connect`, whatever configuration it failed with, the next one opens the session
-- without a configuration: it succeeds exactly if zenoh-pico can do that, and the configuration is gone
-- for every later one.
pub session_connect-retry :
    (z z' : Zenoh) (s s' : ZenohPicoSession)
    → s.enable_session ≡ false
    → session_connect z (some s) ≡ (ret_error, some s')
    → (s'' : ZenohPicoSession) × (session_connect z' (some s')
        ≡ ((if all_start z' none then ret_ok else ret_error), some s''))
      × (s''.enable_session ≡ all_start z' none)
      × (s''.config ≡ none)
session_connect-retry z z' s s' e failed =
    let (shut, empty) = failed_state z s s' e failed in
    let again = open_session-lem z' s' shut in
    (
      (open_session z' s').1,
      connect_closed z' s' shut
          ∙ ap (λ (r : RmwRet). (r, some (open_session z' s').1))
              (again.0
                ∙ ap (λ (c : Option Config). if all_start z' c then ret_ok else ret_error) empty),
      again.2 ∙ ap (all_start z') empty,
      again.1,
    )
