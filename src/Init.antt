-- ===== src/Init.antt =====
-- src/rmw_init.c: the transport settings, the init options and the context.
pub mod Address
pub mod Options
pub mod Cycle
pub mod Context
pub mod Shutdown
mod Tests
use rmw_zenoh_pico.Prelude.{
  ℕ, ◌+◌, ◌-◌, ◌≡◌, refl, Bool, true, false, not, ◌&&◌, ◌||◌, Bytes, bytes_eq, Option, none, some,
  [], ◌∷◌, ◌++◌, codes, ltb, leb, ◌==◌, if◌then◌else◌, length, take, ℤ, pos,
}
use rmw_zenoh_pico.Rmw.{RmwRet, ret_ok, ret_error, ret_invalid_argument}

-- RMW_ZENOH_PICO_TRANSPORT_*, of which the build defines one.
pub data Transport : Type 0 where
  serial : Transport
  unicast : Transport
  multicast : Transport

-- The static variables of the file, which start as the build sets them, and RMW_ZENOH_PICO_ZID.
pub record Settings : Type 0 where
  pub mode : Option Bytes
  pub serial_device : Bytes
  pub serial_param : Bytes
  pub connect : Bytes
  pub connect_port : Bytes
  pub listen : Bytes
  pub listen_port : Bytes
  pub mcast : Bytes
  pub mcast_port : Bytes
  pub mcast_dev : Bytes
  pub zid : Bytes

-- The arrays of the transports that the build leaves out stay empty.
pub record ZenohPicoTransportParams : Type 0 where
  pub ref : ℤ
  pub mode : Bytes
  pub connect_addr : Bytes
  pub listen_addr : Bytes
  pub mcast_addr : Bytes
  pub serial_device : Bytes

-- A new struct, with one reference.
abbrev pub new_params : ZenohPicoTransportParams
new_params = record {
  ref = pos 1;
  mode = [];
  connect_addr = [];
  listen_addr = [];
  mcast_addr = [];
  serial_device = [];
}

-- MAX_INET_DEVICE and MAX_SERIAL_DEVICE
abbrev pub max_inet_device : ℕ
max_inet_device = 50

abbrev pub max_serial_device : ℕ
max_serial_device = 50

-- `strncmp` with the size of a literal compares its zero byte too.
unfoldable pub rmw_zenoh_pico_set_mode : Bytes → Settings → Settings
rmw_zenoh_pico_set_mode mode s =
    if bytes_eq mode (codes "serial")
      || (bytes_eq mode (codes "client") || bytes_eq mode (codes "peer"))
    then record s { mode = some mode }
    else s

-- What is passed as NULL stays.
abbrev pub or_else : Option Bytes → Bytes → Bytes
or_else none old = old
or_else (some new) old = new

unfoldable pub rmw_zenoh_pico_set_serial_device : Option Bytes → Option Bytes → Settings → Settings
rmw_zenoh_pico_set_serial_device device param s = record s {
  serial_device = or_else device s.serial_device;
  serial_param = or_else param s.serial_param;
}

unfoldable pub rmw_zenoh_pico_set_unicast :
    Option Bytes → Option Bytes → Option Bytes → Option Bytes → Settings → Settings
rmw_zenoh_pico_set_unicast connect connect_port listen listen_port s = record s {
  connect = or_else connect s.connect;
  connect_port = or_else connect_port s.connect_port;
  listen = or_else listen s.listen;
  listen_port = or_else listen_port s.listen_port;
}

unfoldable pub rmw_zenoh_pico_set_mcast :
    Option Bytes → Option Bytes → Option Bytes → Settings → Settings
rmw_zenoh_pico_set_mcast mcast mcast_port mcast_dev s = record s {
  mcast = or_else mcast s.mcast;
  mcast_port = or_else mcast_port s.mcast_port;
  mcast_dev = or_else mcast_dev s.mcast_dev;
}

-- `strcpy` into an array of a size; `none` where it writes past the end.
unfoldable pub strcpy : ℕ → Bytes → Option Bytes
strcpy size s = if ltb (length s) size then some s else none

-- `snprintf(buf, sizeof(buf), ...)` into the 256 bytes of `buf`
abbrev pub print_buf : Bytes → Bytes
print_buf t = take (256 - 1) t

-- What becomes of an address: `refused` by the check of its length, or a write past the end of its array.
pub data AddressResult : Type 0 where
  copied : Bytes → AddressResult
  refused : AddressResult
  overflow : AddressResult

abbrev pub copy_into : ℕ → Bytes → AddressResult
copy_into size s = elim (strcpy size s) [ none ↦ overflow | some t ↦ copied t ]

-- A port that is "-1" stands for no address.
unfoldable pub set_address : Bytes → Bytes → AddressResult
unfolding strcpy
set_address port text =
    if bytes_eq port (codes "-1")
    then copied []
    else if leb (max_inet_device - 1) (length (print_buf text))
    then refused
    else copy_into max_inet_device (print_buf text)

unfoldable pub set_serial_device : Bytes → Bytes → AddressResult
unfolding strcpy
set_serial_device device param =
    if ltb (max_serial_device - 1) (length device + length param + 1)
    then refused
    else copy_into max_serial_device (print_buf (device ++ (codes "#" ++ param)))

abbrev pub mode_or : Bytes → Option Bytes → Bytes
mode_or default none = default
mode_or default (some m) = m

-- `"tcp/%s:%s"`
abbrev pub tcp : Bytes → Bytes → Bytes
tcp host port = codes "tcp/" ++ (host ++ (codes ":" ++ port))

-- `"udp/%s:%s#iface=%s"`
abbrev pub udp : Bytes → Bytes → Bytes → Bytes
udp host port device =
    codes "udp/" ++ (host ++ (codes ":" ++ (port ++ (codes "#iface=" ++ device))))

abbrev with_address :
    AddressResult
    → ZenohPicoTransportParams
    → (Bytes → Option (RmwRet × ZenohPicoTransportParams))
    → Option (RmwRet × ZenohPicoTransportParams)
with_address (copied a) p k = k a
with_address refused p k = some (ret_invalid_argument, p)
with_address overflow p k = none

-- `none` is a write past the end of an array.
unfoldable pub rmw_zenoh_pico_init_option :
    Transport → Settings → ZenohPicoTransportParams → Option (RmwRet × ZenohPicoTransportParams)
unfolding set_address set_serial_device
rmw_zenoh_pico_init_option serial s p =
    let q = record p { mode = mode_or (codes "serial") s.mode; serial_device = [] } in
    with_address (set_serial_device s.serial_device s.serial_param) q
      (λ a. some (ret_ok, record q { serial_device = a }))
rmw_zenoh_pico_init_option unicast s p =
    let q = record p { mode = mode_or (codes "client") s.mode; connect_addr = [] } in
    with_address (set_address s.connect_port (tcp s.connect s.connect_port)) q (λ a.
      let q' = record q { connect_addr = a; listen_addr = [] } in
      with_address (set_address s.listen_port (tcp s.listen s.listen_port)) q'
        (λ b. some (ret_ok, record q' { listen_addr = b })))
rmw_zenoh_pico_init_option multicast s p =
    let q = record p { mode = mode_or (codes "peer") s.mode; mcast_addr = [] } in
    with_address (set_address s.mcast_port (udp s.mcast s.mcast_port s.mcast_dev)) q
      (λ a. some (ret_ok, record q { mcast_addr = a }))
