-- ===== src/Rmw.antt =====
-- What the rmw functions share: return codes, the test of a handle's implementation identifier
-- (rmw_zenoh_pico_macros.h) and the checks at the head of a function.
use rmw_zenoh_pico.Prelude.{Bool, true, false, Bytes, Option, none, some, bytes_eq, codes}

-- The `RMW_RET_*` codes that the source returns.
pub data RmwRet : Type 0 where
  ret_ok : RmwRet
  ret_error : RmwRet
  ret_timeout : RmwRet
  ret_unsupported : RmwRet
  ret_invalid_argument : RmwRet
  ret_incorrect_rmw_implementation : RmwRet

-- `rmw_get_implementation_identifier`
abbrev pub implementation_identifier : Bytes
implementation_identifier = codes "rmw_zenoh_pico"

-- RMW_CHECK_TYPE_IDENTIFIERS_MATCH lets a NULL identifier pass.
unfoldable pub identifier_matches : Option Bytes → Bool
identifier_matches none = true
identifier_matches (some s) = bytes_eq s implementation_identifier

-- A check at the head of a function: the code to return, if it fails.
abbrev pub require : Bool → RmwRet → Option RmwRet → Option RmwRet
require true code rest = rest
require false code rest = some code

abbrev pub present {ℓ} : {A : Type ℓ} → Option A → Bool
present none = false
present (some a) = true
