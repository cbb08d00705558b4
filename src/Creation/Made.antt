-- ===== src/Creation/Made.antt =====
-- What memory holds once the data of an endpoint has been made.
use rmw_zenoh_pico.Prelude.{◌≡◌, refl, false, some, ◌==◌}
use rmw_zenoh_pico.Memory.{Ptr, null}
use rmw_zenoh_pico.Object.{
  Object, Heap, upd, ◌>>=◌, fresh, generate, generate_entity, generate_topic_entity,
}
use rmw_zenoh_pico.Object.Steps.{more, load-ok, ref_clone-ok, upd_twice}
use rmw_zenoh_pico.Creation.{clone_node_info}

pub generate-ok :
    (h : Heap) (p : Ptr) → (p == null) ≡ false → generate p h ≡ some (p, upd h p (some fresh))
unfolding generate
generate-ok h p live = rw (generate, live) refl

abbrev pub entity_of : Ptr → Ptr → Object
entity_of ni t = record fresh { node_info = ni; topic_info = t }

abbrev pub data_of : Ptr → Ptr → Object
data_of n e = record fresh { node = n; entity = e }

pub generate_entity-ok :
    (h : Heap) (p ni t : Ptr)
    → (p == null) ≡ false
    → generate_entity p ni t h ≡ some (p, upd h p (some (entity_of ni t)))
unfolding generate_entity
generate_entity-ok h p ni t live =
    rw
      (
        generate_entity,
        ◌>>=◌,
        generate-ok h p live,
        live,
        upd_twice h p (some fresh) (some (entity_of ni t)),
      )
      refl

pub generate_topic_entity-ok :
    (h : Heap) (p ni t : Ptr)
    → (t == null) ≡ false
    → (p == null) ≡ false
    → generate_topic_entity t p ni h
      ≡ some (p, upd (upd h t (some fresh)) p (some (entity_of ni t)))
unfolding generate_topic_entity
generate_topic_entity-ok h p ni t t0 live =
    rw
      (
        generate_topic_entity,
        ◌>>=◌,
        generate-ok h t t0,
        t0,
        generate_entity-ok (upd h t (some fresh)) p ni t live,
      )
      refl

pub clone_node_info-ok :
    (h : Heap) (n : Ptr) (node entity info : Object)
    → (n == null) ≡ false
    → (node.entity == null) ≡ false
    → (entity.node_info == null) ≡ false
    → h n ≡ some node
    → h node.entity ≡ some entity
    → h entity.node_info ≡ some info
    → clone_node_info n h ≡ some (entity.node_info, upd h entity.node_info (some (more info)))
unfolding clone_node_info
clone_node_info-ok h n node entity info n0 e0 ni0 at_n at_e at_ni =
    rw
      (
        clone_node_info,
        ◌>>=◌,
        load-ok h n node n0 at_n,
        load-ok h node.entity entity e0 at_e,
        ref_clone-ok h entity.node_info info ni0 at_ni,
      )
      refl
