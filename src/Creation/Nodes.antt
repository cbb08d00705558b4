-- ===== src/Creation/Nodes.antt =====
-- `rmw_create_node` and `rmw_destroy_node` (src/rmw_node.c): the session is connected before the data of a
-- node is made. The memory of the handle and of its names is left out.
use rmw_zenoh_pico.Prelude.{Bool, false, not, ◌&&◌, Bytes, Option, none, some, ◌==◌, if◌then◌else◌}
use rmw_zenoh_pico.Memory.{Ptr, null}
use rmw_zenoh_pico.Rmw.{
  RmwRet, ret_ok, ret_error, ret_invalid_argument, ret_incorrect_rmw_implementation,
  identifier_matches,
}
use rmw_zenoh_pico.Object.{Action, Heap, pure, ◌>>=◌, ◌>>◌, zenoh_pico_destroy_node_data}
use rmw_zenoh_pico.Session.{Zenoh, ZenohPicoSession, session_connect}
use rmw_zenoh_pico.Init.Context.{RmwContext}
use rmw_zenoh_pico.Creation.{Outcomes, zenoh_pico_generate_node_data}
use rmw_zenoh_pico.Creation.Checks.{RmwNode, not_empty}

-- Each failed check returns NULL.
unfoldable pub node_checks : Option RmwContext → (name namespace : Option Bytes) → Bool
node_checks none name namespace = false
node_checks (some context) name namespace =
    identifier_matches context.implementation_identifier
    && (context.impl && (not_empty name && not_empty namespace))

-- From the data of a node on: the handle may not be had, and the declaration of the liveliness token may
-- fail.
unfoldable pub finish_node : (handle_allocated declared : Bool) → Ptr → Action Ptr
finish_node handle_allocated declared p =
    if p == null
    then pure null
    else if handle_allocated && declared
    then pure p
    else do zenoh_pico_destroy_node_data p; pure null

unfoldable pub create_node : Outcomes → (handle_allocated declared : Bool) → Action Ptr
create_node x handle_allocated declared = do
  p ← zenoh_pico_generate_node_data x
  finish_node handle_allocated declared p

-- The data of the new node, NULL if there is none, with memory and the session; `none` is a fault.
abbrev pub NodeResult : Type 0
NodeResult = Option (Ptr × Heap × ZenohPicoSession)

abbrev with_session : Option (Ptr × Heap) → ZenohPicoSession → NodeResult
with_session none s = none
with_session (some (p, h)) s = some (p, h, s)

-- The session that the context points to is never NULL.
abbrev once_connected :
    RmwRet × Option ZenohPicoSession → Action Ptr → Heap → ZenohPicoSession → NodeResult
once_connected (ret_ok, some s') make h s = with_session (make h) s'
once_connected (r, some s') make h s = some (null, h, s')
once_connected (r, none) make h s = some (null, h, s)

unfoldable pub rmw_create_node :
    Zenoh
    → Option RmwContext
    → (name namespace : Option Bytes) → Outcomes
    → (handle_allocated declared : Bool) → Heap
    → ZenohPicoSession
    → NodeResult
rmw_create_node z context name namespace x handle_allocated declared h s =
    if node_checks context name namespace
    then once_connected (session_connect z (some s)) (create_node x handle_allocated declared) h s
    else some (null, h, s)

unfoldable pub rmw_destroy_node : Option RmwNode → Action RmwRet
rmw_destroy_node none = pure ret_invalid_argument
rmw_destroy_node (some node) =
    if not (identifier_matches node.implementation_identifier)
    then pure ret_incorrect_rmw_implementation
    else elim node.node_data [
      | none ↦ pure ret_error
      | some p ↦ do zenoh_pico_destroy_node_data p; pure ret_ok
    ]
