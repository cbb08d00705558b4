-- ===== src/Event/Unread.antt =====
-- Events before a callback is set: every state that the functions reach keeps unread events only while
-- there is no callback, so handing them to "the callback" calls NULL.
use rmw_zenoh_pico.Prelude.{ℕ, suc, ◌<◌, ◌≡◌, refl, Option, none, some, List, arith, inl, inr, ◌⊎◌}
use rmw_zenoh_pico.Memory.{Ptr}
use rmw_zenoh_pico.Event.{
  CallbackCall, DataEventManager, data_callback_init, data_callback_set, data_callback_trigger,
}

-- The managers that the three functions build, with the number of triggers so far.
pub data Reaches : DataEventManager → ℕ → Type 0 where
  start : Reaches data_callback_init 0
  trigger :
      {m : DataEventManager} {n : ℕ} → Reaches m n → Reaches (data_callback_trigger m).0 (suc n)
  set :
      {m m' : DataEventManager} {n : ℕ} (user_data : Ptr) (callback : Option ℕ)
      (calls : List CallbackCall)
      → Reaches m n
      → data_callback_set m user_data callback ≡ some (m', calls)
      → Reaches m' n

-- Unread events are counted only while there is no callback.
abbrev pub IsSettled : DataEventManager → Type 0
IsSettled m = (m.unread_count ≡ 0) ⊎ (m.callback ≡ none)

trigger-IsSettled : (m : DataEventManager) → IsSettled m → IsSettled (data_callback_trigger m).0
unfolding data_callback_trigger
trigger-IsSettled m h = ground arith

set-IsSettled :
    (m m' : DataEventManager) (user_data : Ptr) (callback : Option ℕ) (calls : List CallbackCall)
    → IsSettled m
    → data_callback_set m user_data callback ≡ some (m', calls)
    → IsSettled m'
unfolding data_callback_set
set-IsSettled m m' user_data none calls h e = inr (ground (arith, e))
set-IsSettled m m' user_data (some cb) calls h e = inl (ground (arith, e))

pub Reaches-IsSettled : {m : DataEventManager} {n : ℕ} → Reaches m n → IsSettled m
unfolding data_callback_init
Reaches-IsSettled start = inl refl
Reaches-IsSettled (trigger {m} r) = trigger-IsSettled m (Reaches-IsSettled r)
Reaches-IsSettled (set {m} {m'} u cb calls r e) =
    set-IsSettled m m' u cb calls (Reaches-IsSettled r) e

-- Setting a callback while events are unread always calls through NULL: in every state that the
-- functions reach with unread events, the old callback that is to be told of them is NULL.
pub set-null_call :
    (m : DataEventManager) (n : ℕ) (user_data : Ptr) (cb : ℕ)
    → Reaches m n
    → 0 < m.unread_count
    → data_callback_set m user_data (some cb) ≡ none
unfolding data_callback_set
set-null_call m n user_data cb r h = ground (arith, Reaches-IsSettled r)
