-- ===== src/Wait/Handles/Lifetime.antt =====
-- Handles that are made and destroyed again, and handles that cannot be made.
use mathlib.Core.Path.{fun_ext}
use rmw_zenoh_pico.Prelude.{◌≡◌, refl, ap, arith, true, false, Bytes, Option, none, some, ◌==◌, pos}
use rmw_zenoh_pico.Memory.{Ptr, null}
use rmw_zenoh_pico.Rmw.{ret_ok, implementation_identifier, identifier_matches}
use rmw_zenoh_pico.Wait.Handles.{
  Block, handle, guard_data, wait_data, handle_at, Blocks, set_block, rmw_create_guard_condition,
  rmw_destroy_guard_condition, rmw_create_wait_set, rmw_destroy_wait_set,
  zenoh_pico_guard_condition_data, zenoh_pico_generate_wait_set_data,
  zenoh_pico_destroy_guard_condition_data, zenoh_pico_destroy_wait_set_data,
}

module _ (h : Blocks) (p d : Ptr) (context : Option Bytes) (p0 : (p == null) ≡ false)
    (d0 : (d == null) ≡ false) (p_d : (p == d) ≡ false) (p_unused : h p ≡ none)
    (d_unused : h d ≡ none) (ours : identifier_matches context ≡ true) where
  abbrev with_block : Block → Blocks
  with_block b =
      set_block
        (set_block (set_block h p (some (handle (some implementation_identifier) null))) d (some b))
        p (some (handle (some implementation_identifier) d))

  handle_there : (b : Block) → with_block b p ≡ some (handle (some implementation_identifier) d)
  handle_there b = ground arith

  block_there : (b : Block) → with_block b d ≡ some b
  block_there b = ground (arith, p_d)

  all_back : (b : Block) → set_block (set_block (with_block b) d none) p none ≡ h
  all_back b = fun_ext λ a. ground (arith, p_unused, d_unused)

  guard_cycle :
      (h1 : Blocks) × (rmw_create_guard_condition p d h ≡ (p, h1))
      × (rmw_destroy_guard_condition p h1 ≡ some (ret_ok, h))
  unfolding rmw_create_guard_condition rmw_destroy_guard_condition
  guard_cycle =
      let b : Block = guard_data (record { triggered = false; wait_set_data = null }) in
      (
        with_block b,
        rw (rmw_create_guard_condition, p0, zenoh_pico_guard_condition_data, d0, d0) refl,
        rw
            (
              rmw_destroy_guard_condition,
              p0,
              handle_at,
              handle_there b,
              d0,
              zenoh_pico_destroy_guard_condition_data,
              block_there b,
            )
            (ap (λ (x : Blocks). some (ret_ok, x)) (all_back b)),
      )

  wait_set_cycle :
      (h1 : Blocks) × (rmw_create_wait_set (some context) p d h ≡ (p, h1))
      × (rmw_destroy_wait_set p h1 ≡ some (ret_ok, h))
  unfolding rmw_create_wait_set rmw_destroy_wait_set identifier_matches
  wait_set_cycle =
      let b : Block = wait_data (pos 1) in
      (
        with_block b,
        rw (rmw_create_wait_set, ours, p0, zenoh_pico_generate_wait_set_data, d0, d0) refl,
        rw
            (
              rmw_destroy_wait_set,
              p0,
              handle_at,
              handle_there b,
              d0,
              zenoh_pico_destroy_wait_set_data,
              block_there b,
            )
            (ap (λ (x : Blocks). some (ret_ok, x)) (all_back b)),
      )

  -- With memory for both structs, and for a wait set a context of this implementation, a guard condition
  -- or wait set that is created and destroyed again leaves memory as it was; both calls succeed.
  pub handles_cycle :
      (h1 h2 : Blocks) × (rmw_create_guard_condition p d h ≡ (p, h1))
      × (rmw_destroy_guard_condition p h1 ≡ some (ret_ok, h))
      × (rmw_create_wait_set (some context) p d h ≡ (p, h2))
      × (rmw_destroy_wait_set p h2 ≡ some (ret_ok, h))
  handles_cycle =
      let (h1, made, freed) = guard_cycle in
      let (h2, made', freed') = wait_set_cycle in (h1, h2, made, freed, made', freed')

-- Where there is memory for the handle but not for its data, `rmw_create_guard_condition` and, for a
-- context of this implementation, `rmw_create_wait_set` return NULL and leak the handle: it stays
-- allocated, although no pointer to it is left.
pub handles_leak :
    (h : Blocks) (p : Ptr) (context : Option Bytes)
    → (p == null) ≡ false
    → identifier_matches context ≡ true
    → (h1 : Blocks) × (b : Block) × (rmw_create_guard_condition p null h ≡ (null, h1))
      × (rmw_create_wait_set (some context) p null h ≡ (null, h1))
      × (h1 p ≡ some b)
unfolding rmw_create_guard_condition rmw_create_wait_set
handles_leak h p context p0 ours =
    let b : Block = handle (some implementation_identifier) null in
    (
      set_block h p (some b),
      b,
      rw (rmw_create_guard_condition, p0) refl,
      rw (rmw_create_wait_set, ours, p0) refl,
      ground arith,
    )
