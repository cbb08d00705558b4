-- ===== src/Session/Shared.antt =====
-- The reference count of the session under any sequence of contexts that come and go.
use rmw_zenoh_pico.Prelude.{
  ℕ, zero, suc, ◌≡◌, refl, arith, Bytes, Option, none, some, List, [], ◌∷◌, pos,
}
use rmw_zenoh_pico.Session.{
  Config, ZenohPicoSession, function, zero_session, zenoh_pico_generate_session,
  zenoh_pico_destroy_session,
}

-- `rmw_init` makes a session, with its configuration and enclave, and `rmw_shutdown` lets it go.
pub data Call : Type 0 where
  generate : Config → Option Bytes → Call
  destroy : Call

unfoldable pub run : List Call → ZenohPicoSession → Option ZenohPicoSession
run [] s = some s
run (generate config enclave ∷ cs) s = run cs (zenoh_pico_generate_session config enclave s)
run (destroy ∷ cs) s = elim (zenoh_pico_destroy_session s) [ none ↦ none | some s' ↦ run cs s' ]

-- The references besides one that are held after the calls; `none` if that one is let go as well.
abbrev pub others : ℕ → List Call → Option ℕ
others k [] = some k
others k (generate config enclave ∷ cs) = others (suc k) cs
others zero (destroy ∷ cs) = none
others (suc k) (destroy ∷ cs) = others k cs

run-shared :
    (cs : List Call) (k k' : ℕ) (s : ZenohPicoSession)
    → s.ref ≡ pos (suc k)
    → others k cs ≡ some k'
    → run cs s ≡ some (record s { ref = pos (suc k') })
unfolding run zenoh_pico_generate_session zenoh_pico_destroy_session
run-shared [] k k' s e h = ground (arith, e, h)
run-shared (generate config enclave ∷ cs) k k' s e h =
    let next = run-shared cs (suc k) k' (record s { ref = pos (suc (suc k)) }) refl h in rw e next
run-shared (destroy ∷ cs) zero k' s e h = ground (arith, h)
run-shared (destroy ∷ cs) (suc k) k' s e h =
    let next = run-shared cs k k' (record s { ref = pos (suc k) }) refl h in rw e next

-- However many contexts come and go while no connection is opened, the session keeps the configuration and
-- the enclave of the first one, and counts those that are left, as long as not all of them have gone.
pub session_first_kept :
    (config : Config) (enclave : Option Bytes) (cs : List Call) (k : ℕ)
    → others 0 cs ≡ some k
    → (s : ZenohPicoSession) × (run (generate config enclave ∷ cs) zero_session ≡ some s)
      × (s.ref ≡ pos (suc k))
      × (s.config ≡ some config)
      × (s.enclave ≡ enclave)
unfolding run zenoh_pico_generate_session
session_first_kept config enclave cs k h =
    let s : ZenohPicoSession = zenoh_pico_generate_session config enclave zero_session in
    (record s { ref = pos (suc k) }, run-shared cs 0 k s refl h, refl, refl, refl)

run-faults :
    (cs : List Call) (k : ℕ) (s : ZenohPicoSession)
    → s.ref ≡ pos (suc k)
    → s.graph_guard_condition ≡ function
    → others k cs ≡ none
    → run cs s ≡ none
unfolding run zenoh_pico_generate_session zenoh_pico_destroy_session
run-faults [] k s e g h = ground (arith, h)
run-faults (generate config enclave ∷ cs) k s e g h =
    rw e (run-faults cs (suc k) (record s { ref = pos (suc (suc k)) }) refl g h)
run-faults (destroy ∷ cs) zero s e g h = rw (e, g) refl
run-faults (destroy ∷ cs) (suc k) s e g h =
    rw e (run-faults cs k (record s { ref = pos (suc k) }) refl g h)

-- Once the last context has let the session go, `zenoh_pico_destroy_session` has dropped a mutex in the
-- code of the function `zenoh_pico_guard_condition_data` and freed its address: every sequence of calls
-- that lets all references go faults.
pub session_last-faults :
    (config : Config) (enclave : Option Bytes) (cs : List Call)
    → others 0 cs ≡ none
    → run (generate config enclave ∷ cs) zero_session ≡ none
unfolding run zenoh_pico_generate_session
session_last-faults config enclave cs h =
    run-faults cs 0 (zenoh_pico_generate_session config enclave zero_session) refl refl h
