-- ===== src/Init/Options.antt =====
-- `rmw_init_options_init`, `rmw_init_options_copy` and `rmw_init_options_fini` (src/rmw_init.c): the init
-- options and the parameters in memory that they point to. The fields that are only copied (instance id,
-- allocator, security options) are left out.
use rmw_zenoh_pico.Prelude.{
  ℕ, Bool, not, Bytes, Option, none, some, codes, ◌==◌, if◌then◌else◌, ℤ, dec, is_zero,
}
use rmw_zenoh_pico.Memory.{Ptr, null}
use rmw_zenoh_pico.Rmw.{
  RmwRet, ret_ok, ret_error, ret_invalid_argument, ret_incorrect_rmw_implementation,
  implementation_identifier, identifier_matches, present,
}
use rmw_zenoh_pico.Init.{
  Transport, Settings, ZenohPicoTransportParams, new_params, rmw_zenoh_pico_init_option,
}

pub record RmwInitOptions : Type 0 where
  pub implementation_identifier : Option Bytes
  pub enclave : Option Bytes
  pub domain_id : ℕ
  pub impl : Ptr

abbrev pub zero_options : RmwInitOptions
zero_options = record {
  implementation_identifier = none;
  enclave = none;
  domain_id = 0;
  impl = null;
}

abbrev pub Heap : Type 0
Heap = Ptr → Option ZenohPicoTransportParams

abbrev pub put : Heap → Ptr → Option ZenohPicoTransportParams → Heap
put h p c a = if a == p then c else h a

-- What a function leaves: its code, the options (`none` for NULL), and memory. An outer `none` is a fault.
abbrev pub Result : Type 0
Result = Option (RmwRet × Option RmwInitOptions × Heap)

abbrev stop : RmwRet → RmwInitOptions → Heap → Result
stop r o h = some (r, some o, h)

-- The parameters of new options; after a failure `zenoh_pico_destroy_param` frees them.
abbrev init_impl : Option (RmwRet × ZenohPicoTransportParams) → Ptr → RmwInitOptions → Heap → Result
init_impl none memory o h = none
init_impl (some (ret_ok, p)) memory o h =
    stop ret_ok (record o { impl = memory }) (put h memory (some p))
init_impl (some (r, p)) memory o h = stop r o (put h memory none)

-- `memory` is what the allocator gives for the parameters, NULL if there is none.
unfoldable pub rmw_init_options_init :
    Transport → Settings → (allocator : Bool) (memory : Ptr) → Option RmwInitOptions → Heap → Result
rmw_init_options_init t s allocator memory none h = some (ret_invalid_argument, none, h)
rmw_init_options_init t s allocator memory (some o) h =
    if not allocator
    then stop ret_invalid_argument o h
    else if present o.implementation_identifier
    then stop ret_invalid_argument o h
    else let o' : RmwInitOptions = record {
      implementation_identifier = some implementation_identifier;
      enclave = some (codes "/");
      domain_id = 0;
      impl = o.impl;
    } in
      if memory == null
      then stop ret_error o' h
      else init_impl (rmw_zenoh_pico_init_option t s new_params) memory o' h

-- `zenoh_pico_clone_param` copies the whole struct, its reference count included.
unfoldable pub rmw_init_options_copy :
    (memory : Ptr) (src dst : Option RmwInitOptions) → Heap → Result
rmw_init_options_copy memory none dst h = some (ret_invalid_argument, dst, h)
rmw_init_options_copy memory (some src) none h = some (ret_invalid_argument, none, h)
rmw_init_options_copy memory (some src) (some dst) h =
    if not (identifier_matches src.implementation_identifier)
    then stop ret_incorrect_rmw_implementation dst h
    else if present dst.implementation_identifier
    then stop ret_invalid_argument dst h
    else if src.impl == null
    then stop ret_invalid_argument src h
    else if memory == null
    then stop ret_error src h
    else elim (h src.impl) [
      | none ↦ none
      | some p ↦ stop ret_ok (record src { impl = memory }) (put h memory (some p))
    ]

-- `zenoh_pico_destroy_param`
unfoldable pub destroy_param : Ptr → Heap → Option Heap
destroy_param p h = elim (h p) [
  | none ↦ none
  | some c ↦
      let r : ℤ = dec c.ref in
      some (put h p (if is_zero r then none else some (record c { ref = r })))
]

unfoldable pub rmw_init_options_fini : (allocator : Bool) → Option RmwInitOptions → Heap → Result
unfolding destroy_param
rmw_init_options_fini allocator none h = some (ret_invalid_argument, none, h)
rmw_init_options_fini allocator (some o) h =
    if not allocator
    then stop ret_invalid_argument o h
    else if not (identifier_matches o.implementation_identifier)
    then stop ret_incorrect_rmw_implementation o h
    else if o.impl == null
    then stop ret_ok o h
    else elim (destroy_param o.impl h) [
      | none ↦ none
      | some h' ↦ stop ret_ok (record o { impl = null }) h'
    ]
