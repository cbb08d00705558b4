-- ===== src/Object/Steps.antt =====
-- What each operation on a struct leaves in memory, where it does not fault.
use mathlib.Core.Path.{fun_ext}
use rmw_zenoh_pico.Prelude.{
  ◌≡◌, refl, arith, true, false, Option, none, some, ◌==◌, if◌then◌else◌, inc, dec, is_zero,
  Bool-cases, inl, inr,
}
use rmw_zenoh_pico.Memory.{Ptr, null}
use rmw_zenoh_pico.Object.{
  Object, Heap, upd, load, ◌>>=◌, ◌>>◌, ref_clone, release, destroy, destroy_info,
}

pub upd_twice : (h : Heap) (p : Ptr) (o o' : Option Object) → upd (upd h p o) p o' ≡ upd h p o'
upd_twice h p o o' = fun_ext λ a. ground arith

abbrev pub less : Object → Object
less o = record o { ref = dec o.ref }

abbrev pub more : Object → Object
more o = record o { ref = inc o.ref }

module _ (h : Heap) (p : Ptr) (o : Object) (live : (p == null) ≡ false) (at : h p ≡ some o) where
  pub load-ok : load p h ≡ some (o, h)
  unfolding load
  load-ok = rw (load, live, at) refl

  pub ref_clone-ok : ref_clone p h ≡ some (p, upd h p (some (more o)))
  unfolding ref_clone
  ref_clone-ok = rw (ref_clone, ◌>>=◌, load-ok) refl

  pub release-ok : release p h ≡ some (is_zero (dec o.ref), upd h p (some (less o)))
  unfolding release
  release-ok = rw (release, ◌>>=◌, load-ok) refl

  pub destroy-ok : is_zero o.ref ≡ true → destroy p h ≡ some (tt, upd h p none)
  unfolding destroy
  destroy-ok z = rw (destroy, ◌>>=◌, load-ok, z) refl

-- What is left of a struct when a reference to it is let go.
abbrev pub left : Object → Option Object
left o = if is_zero (dec o.ref) then none else some (less o)

module _ (h : Heap) (p : Ptr) (o : Object) (live : (p == null) ≡ false) (at : h p ≡ some o) where
  info_kept : is_zero (dec o.ref) ≡ false → destroy_info p h ≡ some (true, upd h p (some (less o)))
  unfolding destroy_info
  info_kept k = rw (destroy_info, live, ◌>>=◌, release-ok h p o live at, k) refl

  info_freed : is_zero (dec o.ref) ≡ true → destroy_info p h ≡ some (true, upd h p none)
  unfolding destroy_info
  info_freed k =
      let h1 : Heap = upd h p (some (less o)) in
      let again : h1 p ≡ some (less o) = ground arith in
      rw
        (
          destroy_info,
          live,
          ◌>>=◌,
          release-ok h p o live at,
          k,
          ◌>>◌,
          ◌>>=◌,
          destroy-ok h1 p (less o) live again k,
          upd_twice h p (some (less o)) none,
        )
        refl

  pub info_released : destroy_info p h ≡ some (true, upd h p (left o))
  info_released = elim (Bool-cases (is_zero (dec o.ref))) [
    | inl k ↦ rw (info_freed k, k) refl
    | inr k ↦ rw (info_kept k, k) refl
  ]
