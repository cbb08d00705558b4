-- ===== src/Object/Stages.antt =====
-- What happens, step by step, where `destroy_endpoint_data` lets go the last reference.
use rmw_zenoh_pico.Prelude.{
  ◌≡◌, refl, ap, Bool, true, false, Option, none, some, arith, ◌==◌, dec, is_zero, Option-cases,
  inl, inr,
}
use rmw_zenoh_pico.Memory.{Ptr, null}
use rmw_zenoh_pico.Object.{
  Object, Heap, upd, ◌>>=◌, ◌>>◌, destroy, zenoh_pico_destroy_node_data, zenoh_pico_destroy_entity,
  destroy_endpoint_parts, destroy_endpoint_data,
}
use rmw_zenoh_pico.Object.Steps.{less, load-ok, release-ok}

-- The steps of `destroy_endpoint_data`, where it lets go the last reference.
pub record Stages (p : Ptr) (o : Object) (h h' : Heap) : Type 0 where
  pub without_node : Heap
  pub without_entity : Heap
  pub node_done : Bool
  pub entity_done : Bool
  pub node_gone :
      zenoh_pico_destroy_node_data o.node (upd h p (some (less o))) ≡ some (node_done, without_node)
  pub entity_gone :
      zenoh_pico_destroy_entity o.entity without_node ≡ some (entity_done, without_entity)
  pub struct_gone : destroy p without_entity ≡ some (tt, h')

module _ (p : Ptr) (o : Object) (h h' : Heap) (live : (p == null) ≡ false) (at : h p ≡ some o)
    (last : is_zero (dec o.ref) ≡ true) (freed : destroy_endpoint_data p h ≡ some (true, h')) where
  abbrev released : Heap
  released = upd h p (some (less o))

  still : released p ≡ some (less o)
  still = ground arith

  endpoint-parts :
      (r : Option (Unit {0} × Heap))
      → destroy_endpoint_parts p released ≡ r
      → destroy_endpoint_data p h ≡ elim r [ none ↦ none | some (t, g) ↦ some (true, g) ]
  unfolding destroy_endpoint_data
  endpoint-parts r e =
      rw (destroy_endpoint_data, live, ◌>>=◌, release-ok h p o live at, last, ◌>>◌, ◌>>=◌, e) refl

  no_fault : destroy_endpoint_parts p released ≡ none → ⊥
  no_fault e = ground (arith, endpoint-parts none e, freed)

  parts-of :
      (r : Option (Unit {0} × Heap)) → destroy_endpoint_parts p released ≡ r → r ≡ some (tt, h')
  parts-of none e = absurd (no_fault e)
  parts-of (some (t, g)) e =
      let same : g ≡ h' = ground (arith, endpoint-parts (some (t, g)) e, freed) in
      ap (λ (x : Heap). some (tt, x)) same

  -- The stages of a call that lets the last reference go.
  pub stages : Stages p o h h'
  unfolding destroy_endpoint_parts
  stages = elim (Option-cases (zenoh_pico_destroy_node_data o.node released)) [
    | inl e ↦ absurd (
        no_fault (
          rw (destroy_endpoint_parts, ◌>>=◌, load-ok released p (less o) live still, ◌>>◌, ◌>>=◌, e)
            refl))
    | inr ((b, h2), e) ↦ elim (Option-cases (zenoh_pico_destroy_entity o.entity h2)) [
      | inl e2 ↦ absurd (
          no_fault (
            rw
              (
                destroy_endpoint_parts,
                ◌>>=◌,
                load-ok released p (less o) live still,
                ◌>>◌,
                ◌>>=◌,
                e,
                e2,
              )
              refl))
      | inr ((b', h3), e2) ↦ record {
        without_node = h2;
        without_entity = h3;
        node_done = b;
        entity_done = b';
        node_gone = e;
        entity_gone = e2;
        struct_gone = parts-of (destroy p h3) (
            rw
              (
                destroy_endpoint_parts,
                ◌>>=◌,
                load-ok released p (less o) live still,
                ◌>>◌,
                ◌>>=◌,
                e,
                e2,
              )
              refl);
      }
    ]
  ]
