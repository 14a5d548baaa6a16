-- ===== src/Connection.antt =====
-- The connection of a machine to a network: include/opencattus/connection.h and
-- src/connection.cpp. The interfaces that getifaddrs lists are an argument, and `release` is
-- whether NDEBUG is defined. The override of the interfaces that
-- BUILD_TESTING adds is left out.
pub mod Formats
pub mod Configured
pub mod Lower
use Prim.Native.Char.{Char, code}
use opencattus.Base.{
  ℕ, String, Bool, true, false, ◌||◌, ◌&&◌, not, Option, none, some, List, [], ◌∷◌, ◌++◌,
  if◌then◌else◌, ltb, ◌==◌, str_eq, Result, ok, err, ◌>>=◌, catch_system, runtime_error,
  range_error, says,
}
use opencattus.Base.Text.{
  size, all_of, is_digit, is_alnum, is_hex, matches, first_is, last_is, lower,
}
use opencattus.Enums.{Profile, NetworkType, ethernet, infiniband}
use opencattus.Deps.{Deps}
use opencattus.Network.{make}

-- A pointer to a network: its place among the networks of the cluster, with the profile and the type
-- of the network, which no operation changes.
pub record NetworkRef : Type 0 where
  pub place : ℕ
  pub profile : Profile
  pub kind : NetworkType

-- The members of class Connection.
pub record Connection (Address : Type 0) : Type 0 where
  pub network : NetworkRef
  pub interface : Option String
  pub mac : Option String
  pub address : Address
  pub mtu : ℕ
  pub hostname : String
  pub fqdn : String

abbrev pub in_pair_separator : Char → Bool
in_pair_separator c = code c == code ":" || code c == code "-"

abbrev pub is_dot : Char → Bool
is_dot c = code c == code "."

abbrev hex_pair : List (Char → Bool)
hex_pair = is_hex ∷ is_hex ∷ []

abbrev hex_quad : List (Char → Bool)
hex_quad = is_hex ∷ is_hex ∷ is_hex ∷ is_hex ∷ []

abbrev pub led_pair : List (Char → Bool)
led_pair = is_hex ∷ is_hex ∷ in_pair_separator ∷ []

-- The two alternatives of the pattern of `validateMAC`.
abbrev pub pair_format : List (Char → Bool)
pair_format = led_pair ++ led_pair ++ led_pair ++ led_pair ++ led_pair ++ hex_pair

abbrev pub cisco_format : List (Char → Bool)
cisco_format = hex_quad ++ (is_dot ∷ []) ++ hex_quad ++ (is_dot ∷ []) ++ hex_quad

-- `Connection::validateMAC`; the unexpected value is the message that `setMAC` throws.
unfoldable pub validate_mac : String → Result Bool
validate_mac mac =
    if not (size mac == 12) && not (size mac == 14) && not (size mac == 17)
    then err (runtime_error (says "Invalid MAC address size"))
    else if matches pair_format mac || matches cisco_format mac
    then ok true
    else err (runtime_error (says "Invalid MAC address format"))

-- The class of "^[A-Za-z0-9-]+$".
abbrev pub in_hostname : Char → Bool
in_hostname c = is_alnum c || code c == code "-"

abbrev pub is_empty_text : String → Bool
is_empty_text s = size s == 0

abbrev pub minimum_mtu : NetworkType → ℕ
minimum_mtu ethernet = 1280
minimum_mtu infiniband = 2044

abbrev pub lists : List String → String → Bool
lists [] name = false
lists (other ∷ names) name = str_eq name other || lists names name

module _ {Address : Type 0} where
  -- `Connection::setInterface`
  unfoldable pub set_interface :
      Bool → List String → String → Connection Address → Result (Connection Address)
  set_interface release interfaces name connection =
      if str_eq name "lo"
      then err (runtime_error (says "Cannot use the loopback interface"))
      else if lists interfaces name
      then ok (record connection { interface = some name })
      else if release
      then err (runtime_error (says "Cannot find network interface"))
      else ok connection

  -- `Connection::setMAC`
  unfoldable pub set_mac : String → Connection Address → Result (Connection Address)
  set_mac mac connection = do
    valid ← validate_mac mac
    ok (record connection { mac = some (lower mac) })

  -- `Connection::setHostname`
  unfoldable pub set_hostname : String → Connection Address → Result (Connection Address)
  set_hostname name connection =
      if ltb 63 (size name)
      then err (range_error (says "Hostname cannot be bigger than 64 characters"))
      else if first_is "-" name || last_is "-" name
      then err (runtime_error (says "Hostname cannot start or end with dashes"))
      else if not (is_empty_text name) && all_of is_digit name
      then err (runtime_error (says "Hostname has only digits"))
      else if is_empty_text name || not (all_of in_hostname name)
      then err (runtime_error (says "Invalid character on hostname"))
      else ok (record connection { hostname = name })

  -- `Connection::setFQDN`
  unfoldable pub set_fqdn : String → Connection Address → Result (Connection Address)
  set_fqdn name connection =
      if ltb 255 (size name)
      then err (runtime_error (says "Full qualified domain name cannot exceed 255 characters"))
      else ok (record connection { fqdn = name })

  -- `Connection::setMTU`
  unfoldable pub set_mtu : ℕ → Connection Address → Result (Connection Address)
  set_mtu mtu connection =
      if ltb mtu (minimum_mtu connection.network.kind)
      then err (runtime_error (says "MTU size must be higher or equal to the minimum"))
      else ok (record connection { mtu = mtu })

  abbrev pub set_interface_opt :
      Bool → List String → Option String → Connection Address → Result (Connection Address)
  set_interface_opt release interfaces none connection = ok connection
  set_interface_opt release interfaces (some name) connection =
      set_interface release interfaces name connection

  abbrev pub set_mac_opt : Option String → Connection Address → Result (Connection Address)
  set_mac_opt none connection = ok connection
  set_mac_opt (some mac) connection = set_mac mac connection

  abbrev pub default_mtu : Connection Address → Result (Connection Address)
  default_mtu connection = elim connection.network.kind [
    | ethernet ↦ ok connection
    | infiniband ↦ set_mtu 2044 connection
  ]

module _ (d : Deps) where
  -- The members before a constructor has run.
  abbrev pub blank_connection : NetworkRef → Connection d.Address
  blank_connection network = record {
    network = network;
    interface = none;
    mac = none;
    address = d.unspecified;
    mtu = 1500;
    hostname = "";
    fqdn = "";
  }

  -- `Connection::setAddress`
  unfoldable pub set_address : d.Address → Connection d.Address → Result (Connection d.Address)
  set_address ip connection = do
    unspecified ← make d "0.0.0.0"
    if d.same_address ip unspecified
        then err (runtime_error (says "IP address cannot be 0.0.0.0"))
        else ok (record connection { address = ip })

  unfoldable pub set_address_text : String → Connection d.Address → Result (Connection d.Address)
  set_address_text ip connection =
      catch_system (runtime_error (says "Invalid IP address"))
        (make d ip >>= λ a. set_address a connection)

  -- The constructor for a network alone.
  unfoldable pub new_connection : NetworkRef → Result (Connection d.Address)
  new_connection network = default_mtu (blank_connection network)

  -- The constructor for given members.
  unfoldable pub new_configured_connection :
      Bool
      → List String
      → NetworkRef
      → Option String
      → Option String
      → String
      → Result (Connection d.Address)
  new_configured_connection release interfaces network interface mac ip = do
    with_interface ← set_interface_opt release interfaces interface (blank_connection network)
    with_mac ← set_mac_opt mac with_interface
    with_address ← set_address_text ip with_mac
    default_mtu with_address
