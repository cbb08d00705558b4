-- ===== src/Wait/Handles.antt =====
-- The handles of wait sets and guard conditions and the data behind them: how they are made, triggered and
-- destroyed (src/rmw_wait.c, src/rmw_guard_condition.c).
pub mod Lifetime
use rmw_zenoh_pico.Prelude.{
  ◌≡◌, refl, Bool, true, false, not, Bytes, Option, none, some, codes, ◌==◌, if◌then◌else◌, ℤ, pos,
  dec, is_zero,
}
use rmw_zenoh_pico.Memory.{Ptr, null}
use rmw_zenoh_pico.Rmw.{
  RmwRet, ret_ok, ret_invalid_argument, ret_incorrect_rmw_implementation, implementation_identifier,
  identifier_matches, present,
}
use rmw_zenoh_pico.Wait.{ZenohPicoGuardConditionData, World, guard_condition_trigger}

-- What the allocator has given out: `rmw_guard_condition_t` and `rmw_wait_set_t`, each an identifier and
-- a `data` pointer, and the data of the two; of the data of a wait set its reference count.
pub data Block : Type 0 where
  handle : Option Bytes → Ptr → Block
  guard_data : ZenohPicoGuardConditionData → Block
  wait_data : ℤ → Block

abbrev pub Blocks : Type 0
Blocks = Ptr → Option Block

abbrev pub set_block : Blocks → Ptr → Option Block → Blocks
set_block h p b a = if a == p then b else h a

abbrev own : Option Bytes
own = some implementation_identifier

-- A `data` pointer that is not set yet.
abbrev new_handle : Block
new_handle = handle own null

-- A pointer or code with what memory has become; `none` is a fault.
abbrev pub Result : Type 0 → Type 0
Result A = Option (A × Blocks)

abbrev pub handle_at : Ptr → Blocks → Option (Option Bytes × Ptr)
handle_at p h = elim (h p) [
  | none ↦ none
  | some b ↦ elim b [ handle i d ↦ some (i, d) | guard_data g ↦ none | wait_data r ↦ none ]
]

unfoldable pub zenoh_pico_guard_condition_data : (memory : Ptr) → Blocks → Ptr × Blocks
zenoh_pico_guard_condition_data memory h = if memory == null then (null, h) else (
  memory,
  set_block h memory (some (guard_data (record { triggered = false; wait_set_data = null }))),
)

-- `handle_memory` and `data_memory` are what the allocator gives, NULL if there is none.
unfoldable pub rmw_create_guard_condition :
    (handle_memory data_memory : Ptr) → Blocks → Ptr × Blocks
unfolding zenoh_pico_guard_condition_data
rmw_create_guard_condition handle_memory data_memory h =
    if handle_memory == null
    then (null, h)
    else let (p, h') =
        zenoh_pico_guard_condition_data data_memory (set_block h handle_memory (some new_handle)) in
      if p == null
      then (null, h')
      else (handle_memory, set_block h' handle_memory (some (handle own p)))

-- The mutex of the data is dropped before the pointer is tested.
unfoldable pub zenoh_pico_destroy_guard_condition_data : Ptr → Blocks → Option Blocks
zenoh_pico_destroy_guard_condition_data p h = elim (h p) [
  | none ↦ none
  | some b ↦ some (set_block h p none)
]

unfoldable pub rmw_destroy_guard_condition : Ptr → Blocks → Result RmwRet
unfolding zenoh_pico_destroy_guard_condition_data
rmw_destroy_guard_condition p h =
    if p == null then some (ret_invalid_argument, h) else elim (handle_at p h) [
      | none ↦ none
      | some (i, d) ↦
          if d == null
          then some (ret_ok, set_block h p none)
          else elim (zenoh_pico_destroy_guard_condition_data d h) [
            | none ↦ none
            | some h' ↦ some (ret_ok, set_block h' p none)
          ]
    ]

-- Its condition's data are those at `data` in the world of the wait sets.
unfoldable pub rmw_trigger_guard_condition : Option (Option Bytes × Ptr) → World → RmwRet × World
rmw_trigger_guard_condition none w = (ret_invalid_argument, w)
rmw_trigger_guard_condition (some (i, d)) w =
    if not (identifier_matches i)
    then (ret_incorrect_rmw_implementation, w)
    else if d == null
    then (ret_invalid_argument, w)
    else (ret_ok, guard_condition_trigger d w)

unfoldable pub zenoh_pico_generate_wait_set_data : (memory : Ptr) → Blocks → Ptr × Blocks
zenoh_pico_generate_wait_set_data memory h =
    if memory == null then (null, h) else (memory, set_block h memory (some (wait_data (pos 1))))

-- `context` is the identifier of the context, or `none` for a NULL context.
unfoldable pub rmw_create_wait_set :
    (context : Option (Option Bytes)) (handle_memory data_memory : Ptr) → Blocks → Ptr × Blocks
unfolding zenoh_pico_generate_wait_set_data
rmw_create_wait_set none handle_memory data_memory h = (null, h)
rmw_create_wait_set (some i) handle_memory data_memory h =
    if not (identifier_matches i)
    then (null, h)
    else if handle_memory == null
    then (null, h)
    else let (p, h') =
        zenoh_pico_generate_wait_set_data data_memory
          (set_block h handle_memory (some new_handle)) in
      if p == null
      then (null, h')
      else (handle_memory, set_block h' handle_memory (some (handle own p)))

unfoldable pub zenoh_pico_destroy_wait_set_data : Ptr → Blocks → Option Blocks
zenoh_pico_destroy_wait_set_data p h = elim (h p) [
  | none ↦ none
  | some b ↦ elim b [
    | handle i d ↦ none
    | guard_data g ↦ none
    | wait_data r ↦
        some (set_block h p (if is_zero (dec r) then none else some (wait_data (dec r))))
  ]
]

unfoldable pub rmw_destroy_wait_set : Ptr → Blocks → Result RmwRet
unfolding zenoh_pico_destroy_wait_set_data
rmw_destroy_wait_set p h =
    if p == null then some (ret_invalid_argument, h) else elim (handle_at p h) [
      | none ↦ none
      | some (i, d) ↦
          if d == null
          then some (ret_invalid_argument, h)
          else if not (identifier_matches i)
          then some (ret_incorrect_rmw_implementation, h)
          else elim (zenoh_pico_destroy_wait_set_data d h) [
            | none ↦ none
            | some h' ↦ some (ret_ok, set_block h' p none)
          ]
    ]
