-- ===== src/Object.antt =====
-- The lifetime of the structs behind nodes, publishers, subscriptions, services and clients: their
-- reference counts and the pointers among them (src/zenoh_pico/zenoh_pico_data.c, zenoh_pico_entity.c,
-- zenoh_pico_nodeInfo.c, zenoh_pico_topicInfo.c). What their strings hold is in Entity.
pub mod Steps
pub mod Freed
pub mod Node
pub mod Stages
use rmw_zenoh_pico.Prelude.{
  ◌≡◌, refl, Bool, true, false, not, Option, none, some, ◌==◌, if◌then◌else◌, ℤ, pos, inc, dec,
  is_zero,
}
use rmw_zenoh_pico.Memory.{Ptr, null}

-- A struct of any of the kinds; NULL in the fields that its kind does not have.
pub record Object : Type 0 where
  pub ref : ℤ
  pub node_info : Ptr
  pub topic_info : Ptr
  pub node : Ptr
  pub entity : Ptr

abbrev pub Heap : Type 0
Heap = Ptr → Option Object

-- `none` is a fault: an access through NULL or to freed memory, or the use of a variable that was never
-- assigned.
abbrev pub Action : Type 0 → Type 0
Action X = Heap → Option (X × Heap)

abbrev pub pure : {X : Type 0} → X → Action X
pure x memory = some (x, memory)

infixl 5 ◌>>=◌ ◌>>◌
abbrev pub ◌>>=◌ : {X Y : Type 0} → Action X → (X → Action Y) → Action Y
◌>>=◌ act rest memory = elim (act memory) [ none ↦ none | some (x, later) ↦ rest x later ]

abbrev pub ◌>>◌ : {X Y : Type 0} → Action X → Action Y → Action Y
act >> rest = act >>= λ _. rest

abbrev pub unassigned : {A : Type 0} → Action A
unassigned h = none

abbrev pub upd : Heap → Ptr → Option Object → Heap
upd h p o a = if a == p then o else h a

unfoldable pub load : Ptr → Action Object
load p h = if p == null then none else elim (h p) [ none ↦ none | some o ↦ some (o, h) ]

abbrev pub store : Ptr → Option Object → Action (Unit {0})
store p o h = some (tt, upd h p o)

abbrev pub fresh : Object
fresh = record { ref = pos 1; node_info = null; topic_info = null; node = null; entity = null }

-- `p` is what the allocator gives, NULL if it has no memory.
unfoldable pub generate : Ptr → Action Ptr
generate p = if p == null then pure null else do store p (some fresh); pure p

unfoldable pub ref_clone : Ptr → Action Ptr
ref_clone p = do o ← load p; store p (some (record o { ref = inc o.ref })); pure p

-- `ZenohPicoDataRelease`: one reference less, and whether none is left.
unfoldable pub release : Ptr → Action Bool
release p = do o ← load p; store p (some (record o { ref = dec o.ref })); pure (is_zero (dec o.ref))

-- `ZenohPicoDataDestroy`: the struct is freed only if no reference is left.
unfoldable pub destroy : Ptr → Action (Unit {0})
destroy p = do o ← load p; if is_zero o.ref then store p none else pure tt

-- `zenoh_pico_destroy_node_info` and `zenoh_pico_destroy_topic_info`
unfoldable pub destroy_info : Ptr → Action Bool
destroy_info p =
    if p == null
    then pure false
    else do last ← release p; if last then destroy p else pure tt; pure true

-- What the last reference to an entity takes with it.
unfoldable pub destroy_parts : Ptr → Action (Unit {0})
destroy_parts p = do o ← load p; destroy_info o.node_info; destroy_info o.topic_info; destroy p

unfoldable pub zenoh_pico_destroy_entity : Ptr → Action Bool
zenoh_pico_destroy_entity p =
    if p == null
    then pure false
    else do last ← release p; if last then destroy_parts p else pure tt; pure true

unfoldable pub generate_entity : Ptr → Ptr → Ptr → Action Ptr
generate_entity memory node_info topic_info = do
  p ← generate memory
  if p == null then pure null else do
    store p (some (record fresh { node_info = node_info; topic_info = topic_info }))
    pure p

-- `zenoh_pico_generate_topic_entity`
unfoldable pub generate_topic_entity : Ptr → Ptr → Ptr → Action Ptr
generate_topic_entity topic_memory memory node_info = do
  topic_info ← generate topic_memory
  if topic_info == null then pure null else generate_entity memory node_info topic_info

-- `_zenoh_pico_generate_service_entity` does not test the topic info.
unfoldable pub generate_service_entity : Ptr → Ptr → Ptr → Action Ptr
generate_service_entity topic_memory memory node_info = do
  topic_info ← generate topic_memory
  generate_entity memory node_info topic_info

unfoldable pub destroy_node_parts : Ptr → Action (Unit {0})
destroy_node_parts p = do o ← load p; zenoh_pico_destroy_entity o.entity; destroy p

unfoldable pub zenoh_pico_destroy_node_data : Ptr → Action Bool
zenoh_pico_destroy_node_data p =
    if p == null
    then pure false
    else do last ← release p; if last then destroy_node_parts p else pure tt; pure true

-- The pointers that the data of a publisher, subscription, service or client lets go of: first its
-- node, then its entity.
unfoldable pub destroy_endpoint_parts : Ptr → Action (Unit {0})
destroy_endpoint_parts p = do
  o ← load p
  zenoh_pico_destroy_node_data o.node
  zenoh_pico_destroy_entity o.entity
  destroy p

-- `zenoh_pico_destroy_subscription_data`, `zenoh_pico_destroy_publisher_data` and
-- `zenoh_pico_destroy_service_data`, as far as these pointers go.
unfoldable pub destroy_endpoint_data : Ptr → Action Bool
destroy_endpoint_data p =
    if p == null
    then pure false
    else do last ← release p; if last then destroy_endpoint_parts p else pure tt; pure true
