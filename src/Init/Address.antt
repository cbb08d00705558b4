-- ===== src/Init/Address.antt =====
-- No address passes the end of its array, and what does not fit is refused.
use rmw_zenoh_pico.Prelude.{
  Option, none, ℕ, ◌+◌, ◌≤◌, ◌<◌, ◌≡◌, refl, arith, Bool, true, false, Bytes, bytes_eq, some, [],
  ◌++◌, codes, ltb, leb, leb→le, lt→ltb, suc, if◌then◌else◌, length, length-append, length-take,
  take, take-eq_self, Bool-cases, inl, inr,
}
use rmw_zenoh_pico.Rmw.{RmwRet, ret_ok, ret_invalid_argument}
use rmw_zenoh_pico.Init.{
  Transport, serial, unicast, multicast, Settings, ZenohPicoTransportParams, AddressResult, copied,
  refused, copy_into, strcpy, set_address, set_serial_device, tcp, udp, rmw_zenoh_pico_init_option,
}

le→leb : (a b : ℕ) → a ≤ b → leb a b ≡ true
le→leb a b h = ground arith

copied_whole : (size : ℕ) (t : Bytes) → length t < size → copy_into size t ≡ copied t
unfolding strcpy
copied_whole size t h = rw (copy_into, lt→ltb (length t) size h) refl

-- The address that a port and a text stand for.
abbrev pub address : Bytes → Bytes → Bytes
address port text = if bytes_eq port (codes "-1") then [] else text

set_address-fits :
    (port text : Bytes)
    → length (address port text) ≤ 48
    → set_address port text ≡ copied (address port text)
unfolding set_address strcpy
set_address-fits port text h = elim (Bool-cases (bytes_eq port (codes "-1"))) [
  | inl e ↦ rw e refl
  | inr e ↦
      let short : length text ≤ 48 = ground (arith, e, h) in
      let whole : take 255 text ≡ text = take-eq_self 255 text (omega arith) in
      let one : leb 49 (length text) ≡ false = ground arith in
      rw (e, whole, one, copied_whole 50 text (omega arith)) refl
]

set_address-long :
    (port text : Bytes) → 48 < length (address port text) → set_address port text ≡ refused
unfolding set_address strcpy
set_address-long port text h = elim (Bool-cases (bytes_eq port (codes "-1"))) [
  | inl e ↦ absurd (ground (arith, e, h))
  | inr e ↦
      let long : 48 < length text = ground (arith, e, h) in
      let one : leb 49 (length (take 255 text)) ≡ true =
        le→leb 49 (length (take 255 text)) (omega (arith, length-take 255 text)) in
      rw (e, one) refl
]

serial-fits :
    (device param : Bytes)
    → length device + length param ≤ 48
    → set_serial_device device param ≡ copied (device ++ (codes "#" ++ param))
unfolding set_serial_device strcpy
serial-fits device param h =
    let t : Bytes = device ++ (codes "#" ++ param) in
    let size : length t ≡ length device + suc (length param) =
      length-append device (codes "#" ++ param) in
    let whole : take 255 t ≡ t = take-eq_self 255 t (omega (arith, size)) in
    let one : ltb 49 (length device + length param + 1) ≡ false = ground arith in
    rw (one, whole, copied_whole 50 t (omega (arith, size))) refl

serial-long :
    (device param : Bytes)
    → 48 < length device + length param
    → set_serial_device device param ≡ refused
unfolding set_serial_device strcpy
serial-long device param h =
    let one : ltb 49 (length device + length param + 1) ≡ true = ground arith in rw one refl

-- An address of an array of 50 bytes: one byte ends it, and one more is kept free.
abbrev pub fits : Bytes → Bool
fits text = leb (length text) 48

-- The mode that was set, or the transport's own.
abbrev pub chosen : (set_mode : Option Bytes) (default : Bytes) → Bytes
chosen set_mode default = elim set_mode [ none ↦ default | some mode ↦ mode ]

-- The parameters without buffers: each address whole, or refused.
abbrev pub settled :
    Transport → Settings → ZenohPicoTransportParams → RmwRet × ZenohPicoTransportParams
settled serial s p =
    let q = record p { mode = chosen s.mode (codes "serial"); serial_device = [] } in
    if leb (length s.serial_device + length s.serial_param) 48
    then (ret_ok, record q { serial_device = s.serial_device ++ (codes "#" ++ s.serial_param) })
    else (ret_invalid_argument, q)
settled unicast s p =
    let q = record p { mode = chosen s.mode (codes "client"); connect_addr = [] } in
    let c = address s.connect_port (tcp s.connect s.connect_port) in
    let l = address s.listen_port (tcp s.listen s.listen_port) in
    if fits c
    then if fits l
      then (ret_ok, record q { connect_addr = c; listen_addr = l })
      else (ret_invalid_argument, record q { connect_addr = c; listen_addr = [] })
    else (ret_invalid_argument, q)
settled multicast s p =
    let q = record p { mode = chosen s.mode (codes "peer"); mcast_addr = [] } in
    let m = address s.mcast_port (udp s.mcast s.mcast_port s.mcast_dev) in
    if fits m then (ret_ok, record q { mcast_addr = m }) else (ret_invalid_argument, q)

abbrev checked : Bytes → AddressResult
checked text = if fits text then copied text else refused

set_address-checked : (port text : Bytes) → set_address port text ≡ checked (address port text)
set_address-checked port text = elim (Bool-cases (fits (address port text))) [
  | inl e ↦ rw e (set_address-fits port text (leb→le _ _ e))
  | inr e ↦ rw e (set_address-long port text (ground (arith, e)))
]

serial-checked :
    (device param : Bytes)
    → set_serial_device device param ≡ (
        if leb (length device + length param) 48
        then copied (device ++ (codes "#" ++ param))
        else refused)
serial-checked device param = elim (Bool-cases (leb (length device + length param) 48)) [
  | inl e ↦ rw e (serial-fits device param (leb→le _ _ e))
  | inr e ↦ rw e (serial-long device param (ground (arith, e)))
]

-- For every transport and all settings, `rmw_zenoh_pico_init_option` stays within its arrays: an address
-- of at most 48 characters, or a serial device with parameters that have 48 together, is stored whole, and
-- a longer one gives RMW_RET_INVALID_ARGUMENT, although the buffer that it is printed into cuts it.
pub init_option-settled :
    (t : Transport) (s : Settings) (p : ZenohPicoTransportParams)
    → rmw_zenoh_pico_init_option t s p ≡ some (settled t s p)
unfolding rmw_zenoh_pico_init_option
init_option-settled serial s p =
    rw (rmw_zenoh_pico_init_option, serial-checked s.serial_device s.serial_param) (ground arith)
init_option-settled unicast s p =
    rw
      (
        rmw_zenoh_pico_init_option,
        set_address-checked s.connect_port (tcp s.connect s.connect_port),
        set_address-checked s.listen_port (tcp s.listen s.listen_port),
      )
      (ground arith)
init_option-settled multicast s p =
    rw
      (
        rmw_zenoh_pico_init_option,
        set_address-checked s.mcast_port (udp s.mcast s.mcast_port s.mcast_dev),
      )
      (ground arith)
