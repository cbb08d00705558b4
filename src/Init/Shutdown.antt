-- ===== src/Init/Shutdown.antt =====
-- A context that comes and goes beside another, and one that cannot be opened.
use rmw_zenoh_pico.Prelude.{
  ◌⊎◌, inl, inr, Bool-cases, ℕ, suc, ◌≡◌, refl, sym, ap, Bool, true, false, Bytes, Option, none,
  some, ◌==◌, ℤ, pos,
}
use rmw_zenoh_pico.Memory.{Ptr, null}
use rmw_zenoh_pico.Rmw.{
  RmwRet, ret_incorrect_rmw_implementation, present, ret_ok, ret_error, ret_invalid_argument,
  identifier_matches,
}
use rmw_zenoh_pico.Session.{
  ConfigKey, Config, ZenohPicoSession, zenoh_pico_generate_session, zenoh_pico_destroy_session,
}
use rmw_zenoh_pico.Init.{Transport, ZenohPicoTransportParams}
use rmw_zenoh_pico.Init.Options.{RmwInitOptions, Heap}
use rmw_zenoh_pico.Init.Cycle.{options_at}
use rmw_zenoh_pico.Init.Context.{
  RmwContext, begun, rmw_context_fini, zero_context, set_config, rmw_init, rmw_shutdown,
}

generate_another :
    (c : Config) (enclave : Option Bytes) (s : ZenohPicoSession) (k : ℕ)
    → s.ref ≡ pos (suc k)
    → zenoh_pico_generate_session c enclave s ≡ record s { ref = pos (suc (suc k)) }
unfolding zenoh_pico_generate_session
generate_another c enclave s k held = simp held refl

destroy_another :
    (s : ZenohPicoSession) (k : ℕ)
    → zenoh_pico_destroy_session (record s { ref = pos (suc (suc k)) })
      ≡ some (record s { ref = pos (suc k) })
unfolding zenoh_pico_destroy_session
destroy_another s k = refl

restored_session :
    (s : ZenohPicoSession) (k : ℕ) → s.ref ≡ pos (suc k) → record s { ref = pos (suc k) } ≡ s
restored_session s k held = ap (λ (r : ℤ). record s { ref = r }) (sym held)

-- Whether options are of this implementation.
abbrev pub is_ours : Option RmwInitOptions → Bool
is_ours none = true
is_ours (some o) = identifier_matches o.implementation_identifier

module _ (zp_config_insert : ConfigKey → Bytes → Bool) (z_zid_length default_domain_id : ℕ)
    (t : Transport) (zid : Bytes) (h : Heap) (a : Ptr) (p : ZenohPicoTransportParams)
    (live : (a == null) ≡ false) (at : h a ≡ some p) where
  -- Where zenoh-pico takes the configuration and another context holds the session, `rmw_init` opens a
  -- context and `rmw_shutdown` closes it again: the context is zero and the session as before, its
  -- configuration included.
  pub shutdown-init :
      (c : Config) (s : ZenohPicoSession) (k : ℕ)
      → set_config zp_config_insert z_zid_length default_domain_id t zid p ≡ some c
      → s.ref ≡ pos (suc k)
      → (context : RmwContext) × (s' : ZenohPicoSession) × (rmw_init zp_config_insert z_zid_length
            default_domain_id t zid
            (some (options_at a))
            (some zero_context)
            h
            s
          ≡ some (ret_ok, some context, s'))
        × (s'.ref ≡ pos (suc (suc k)))
        × (rmw_shutdown (some context) s' ≡ some (ret_ok, some zero_context, s))
  unfolding rmw_init rmw_shutdown identifier_matches
  shutdown-init c s k config held =
      let s' : ZenohPicoSession = record s { ref = pos (suc (suc k)) } in
      let o : RmwInitOptions = options_at a in
      (
        record (begun zp_config_insert z_zid_length default_domain_id o zero_context) {
          impl = true;
        },
        s',
        rw (rmw_init, live, at, config, generate_another c o.enclave s k held) refl,
        refl,
        rw (rmw_context_fini, destroy_another s k, restored_session s k held) refl,
      )

  refused_again :
      (t' : Transport) (zid' : Bytes) (o : Option RmwInitOptions) (h' : Heap)
      (s' : ZenohPicoSession) (context : RmwContext)
      → present context.implementation_identifier ≡ true
      → (code : RmwRet) × ((code ≡ ret_invalid_argument)
          ⊎ ((code ≡ ret_incorrect_rmw_implementation) × (is_ours o ≡ false)))
        × (rmw_init zp_config_insert z_zid_length default_domain_id t' zid' o (some context) h' s'
            ≡ some (code, some context, s'))
  unfolding rmw_init
  refused_again t' zid' none h' s' context used = (ret_invalid_argument, inl refl, refl)
  refused_again t' zid' (some o) h' s' context used = elim (Bool-cases (o.impl == null)) [
    | inl e ↦ (ret_invalid_argument, inl refl, rw (rmw_init, e) refl)
    | inr e ↦ elim (Bool-cases (present o.implementation_identifier)) [
      | inr e2 ↦ (ret_invalid_argument, inl refl, rw (rmw_init, e, e2) refl)
      | inl e2 ↦ elim (Bool-cases (identifier_matches o.implementation_identifier)) [
        | inr e3 ↦ (ret_incorrect_rmw_implementation, inr (refl, e3), rw (rmw_init, e, e2, e3) refl)
        | inl e3 ↦ elim (Bool-cases (present o.enclave)) [
          | inr e4 ↦ (ret_invalid_argument, inl refl, rw (rmw_init, e, e2, e3, e4) refl)
          | inl e4 ↦ (ret_invalid_argument, inl refl, rw (rmw_init, e, e2, e3, e4, used) refl)
        ]
      ]
    ]
  ]

  -- Where zenoh-pico refuses the configuration, or the transport is serial, `rmw_init` returns
  -- RMW_RET_ERROR, but leaves the context with its identifier set. Every later `rmw_init` of that context,
  -- whatever its options, transport, memory and session, changes nothing and returns
  -- RMW_RET_INVALID_ARGUMENT, or RMW_RET_INCORRECT_RMW_IMPLEMENTATION where the options are of another
  -- implementation.
  pub init-retry :
      (s : ZenohPicoSession) (t' : Transport) (zid' : Bytes) (o : Option RmwInitOptions) (h' : Heap)
      (s' : ZenohPicoSession)
      → set_config zp_config_insert z_zid_length default_domain_id t zid p ≡ none
      → (context : RmwContext) × (code : RmwRet) × (rmw_init zp_config_insert z_zid_length
            default_domain_id t zid
            (some (options_at a))
            (some zero_context)
            h
            s
          ≡ some (ret_error, some context, s))
        × ((code ≡ ret_invalid_argument)
            ⊎ ((code ≡ ret_incorrect_rmw_implementation) × (is_ours o ≡ false)))
        × (rmw_init zp_config_insert z_zid_length default_domain_id t' zid' o (some context) h' s'
            ≡ some (code, some context, s'))
  unfolding rmw_init identifier_matches
  init-retry s t' zid' o h' s' refused =
      let context : RmwContext =
        begun zp_config_insert z_zid_length default_domain_id (options_at a) zero_context in
      let (code, which, again) = refused_again t' zid' o h' s' context refl in
      (context, code, rw (rmw_init, live, at, refused) refl, which, again)
