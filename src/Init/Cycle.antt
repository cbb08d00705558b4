-- ===== src/Init/Cycle.antt =====
-- Init options that are made, copied and let go, and a copy that fails.
use mathlib.Core.Path.{fun_ext}
use rmw_zenoh_pico.Prelude.{
  ◌≡◌, refl, ap, ◌∙◌, arith, true, false, none, some, codes, ◌==◌, pos, Bool-cases, inl, inr, leb,
  length, ◌+◌,
}
use rmw_zenoh_pico.Memory.{Ptr, null}
use rmw_zenoh_pico.Rmw.{RmwRet, ret_ok, ret_error, implementation_identifier, identifier_matches}
use rmw_zenoh_pico.Init.{
  Transport, serial, unicast, multicast, Settings, ZenohPicoTransportParams, new_params,
  rmw_zenoh_pico_init_option, tcp, udp,
}
use rmw_zenoh_pico.Init.Address.{settled, fits, address, init_option-settled}
use rmw_zenoh_pico.Init.Options.{
  RmwInitOptions, zero_options, Heap, put, rmw_init_options_init, rmw_init_options_copy,
  rmw_init_options_fini,
}

abbrev pub options_at : Ptr → RmwInitOptions
options_at p = record {
  implementation_identifier = some implementation_identifier;
  enclave = some (codes "/");
  domain_id = 0;
  impl = p;
}

-- The settings leave the reference count alone.
settled-ref :
    (t : Transport) (s : Settings) (p : ZenohPicoTransportParams) → (settled t s p).1.ref ≡ p.ref
settled-ref serial s p =
    elim (Bool-cases (leb (length s.serial_device + length s.serial_param) 48)) [
      | inl e ↦ rw e refl
      | inr e ↦ rw e refl
    ]
settled-ref unicast s p =
    elim (Bool-cases (fits (address s.connect_port (tcp s.connect s.connect_port)))) [
      | inl e ↦ elim (Bool-cases (fits (address s.listen_port (tcp s.listen s.listen_port)))) [
        | inl e' ↦ rw (e, e') refl
        | inr e' ↦ rw (e, e') refl
      ]
      | inr e ↦ rw e refl
    ]
settled-ref multicast s p =
    elim (Bool-cases (fits (address s.mcast_port (udp s.mcast s.mcast_port s.mcast_dev)))) [
      | inl e ↦ rw e refl
      | inr e ↦ rw e refl
    ]

fini-ok :
    (h : Heap) (p : Ptr) (q : ZenohPicoTransportParams)
    → (p == null) ≡ false
    → h p ≡ some q
    → q.ref ≡ pos 1
    → rmw_init_options_fini true (some (options_at p)) h
      ≡ some (ret_ok, some (options_at null), put h p none)
unfolding rmw_init_options_fini identifier_matches
fini-ok h p q live at one = rw (live, at, one) refl

copy-ok :
    (h : Heap) (a b : Ptr) (q : ZenohPicoTransportParams)
    → (a == null) ≡ false
    → (b == null) ≡ false
    → h a ≡ some q
    → rmw_init_options_copy b (some (options_at a)) (some zero_options) h
      ≡ some (ret_ok, some (options_at b), put h b (some q))
unfolding rmw_init_options_copy identifier_matches
copy-ok h a b q a0 b0 at = rw (a0, b0, at) refl

init-ok :
    (t : Transport) (s : Settings) (h : Heap) (a : Ptr)
    → (a == null) ≡ false
    → (settled t s new_params).0 ≡ ret_ok
    → rmw_init_options_init t s true a (some zero_options) h
      ≡ some (ret_ok, some (options_at a), put h a (some (settled t s new_params).1))
unfolding rmw_init_options_init
init-ok t s h a a0 fit =
    let q : ZenohPicoTransportParams = (settled t s new_params).1 in
    let set : rmw_zenoh_pico_init_option t s new_params ≡ some (ret_ok, q) =
      init_option-settled t s new_params ∙ ap (λ (r : RmwRet). some (r, q)) fit in
    rw (rmw_init_options_init, a0, set) refl

-- Where the addresses fit and there is memory, init options that are made, copied and let go hold
-- parameters of their own: the copy keeps them when the original goes, each call returns RMW_RET_OK, and
-- in the end memory is as it was.
pub options_cycle :
    (t : Transport) (s : Settings) (h : Heap) (a b : Ptr)
    → (settled t s new_params).0 ≡ ret_ok
    → (a == null) ≡ false
    → (b == null) ≡ false
    → (a == b) ≡ false
    → h a ≡ none
    → h b ≡ none
    → (o o' : RmwInitOptions) × (h1 h2 h3 : Heap) × (rmw_init_options_init t s true a
          (some zero_options)
          h
        ≡ some (ret_ok, some o, h1))
      × (rmw_init_options_copy b (some o) (some zero_options) h1 ≡ some (ret_ok, some o', h2))
      × (rmw_init_options_fini true (some o) h2
          ≡ some (ret_ok, some (record o { impl = null }), h3))
      × (h3 o'.impl ≡ some (settled t s new_params).1)
      × (rmw_init_options_fini true (some o') h3
          ≡ some (ret_ok, some (record o' { impl = null }), h))
options_cycle t s h a b fit a0 b0 ab at_a at_b =
    let q : ZenohPicoTransportParams = (settled t s new_params).1 in
    let h1 : Heap = put h a (some q) in
    let h2 : Heap = put h1 b (some q) in
    let h3 : Heap = put h2 a none in
    let one : q.ref ≡ pos 1 = settled-ref t s new_params in
    let in_1 : h1 a ≡ some q = ground arith in
    let in_2 : h2 a ≡ some q = rw ab in_1 in
    let in_3 : h3 b ≡ some q = ground (arith, ab) in
    let back : put h3 b none ≡ h = fun_ext λ c. ground (arith, at_a, at_b) in
    (
      options_at a,
      options_at b,
      h1,
      h2,
      h3,
      init-ok t s h a a0 fit,
      copy-ok h1 a b q a0 b0 in_1,
      fini-ok h2 a q a0 in_2 one,
      in_3,
      fini-ok h3 b q b0 in_3 one ∙ ap (λ (x : Heap). some (ret_ok, some (options_at null), x)) back,
    )

-- Where there is no memory for the copy, `rmw_init_options_copy` returns RMW_RET_ERROR and leaves a copy
-- that shares the parameters of its source: once one of the two is let go, letting the other go reads
-- freed memory.
pub options_copy-shares :
    (h : Heap) (a : Ptr) (q : ZenohPicoTransportParams)
    → (a == null) ≡ false
    → h a ≡ some q
    → q.ref ≡ pos 1
    → (o' : RmwInitOptions) × (h' : Heap) × (rmw_init_options_copy null
          (some (options_at a))
          (some zero_options)
          h
        ≡ some (ret_error, some o', h))
      × (rmw_init_options_fini true (some (options_at a)) h
          ≡ some (ret_ok, some (options_at null), h'))
      × (rmw_init_options_fini true (some o') h' ≡ none)
unfolding rmw_init_options_copy rmw_init_options_fini identifier_matches
options_copy-shares h a q a0 at one =
    let h' : Heap = put h a none in
    let gone : h' a ≡ none = ground arith in
    (
      options_at a,
      h',
      rw a0 refl,
      fini-ok h a q a0 at one,
      rw (rmw_init_options_fini, a0, gone) refl,
    )
