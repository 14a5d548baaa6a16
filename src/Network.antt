-- ===== src/Network.antt =====
-- A network of the cluster: include/opencattus/network.h and src/network.cpp.
pub mod Cidr
pub mod Configured
pub mod Routes
pub mod Fetch
use opencattus.Base.{
  ℕ, ◌≤◌, String, Bool, true, false, ◌||◌, not, Option, none, some, List, [], ◌∷◌, ◌++◌,
  if◌then◌else◌, ltb, leb, ◌==◌, Result, ok, err, ◌>>=◌, or_throw, catch_system, system_error,
  runtime_error, invalid_argument, out_of_range, length_error, says, about,
}
use Prim.Native.Char.{Char, code}
use opencattus.Base.Text.{is_empty, size, all_of, is_digit, is_alnum, first_is, last_is}
use opencattus.Enums.{Profile, NetworkType}
use opencattus.Deps.{Deps}
use opencattus.Network.Cidr.{cidr_contains}

-- The members of class Network.
pub record Network (Address : Type 0) : Type 0 where
  pub profile : Profile
  pub kind : NetworkType
  pub address : Address
  pub subnet_mask : Address
  pub gateway : Address
  pub vlan : ℕ
  pub domain_name : String
  pub nameservers : List Address

-- The class of "^[A-Za-z0-9-.]+$".
abbrev pub in_domain_name : Char → Bool
in_domain_name c = is_alnum c || code c == code "-" || code c == code "."

module _ {Address : Type 0} where
  -- `Network::setVLAN`
  unfoldable pub set_vlan : ℕ → Network Address → Result (Network Address)
  set_vlan vlan network =
      if leb 4096 vlan
      then err (out_of_range (says "VLAN value must be less than 4096."))
      else ok (record network { vlan = vlan })

  -- `Network::setDomainName`
  unfoldable pub set_domain_name : String → Network Address → Result (Network Address)
  set_domain_name name network =
      if is_empty name
      then err (invalid_argument (says "Domain name cannot be empty."))
      else if ltb 255 (size name)
      then err (length_error (says "Domain name exceeds 255 characters."))
      else if first_is "-" name || last_is "-" name
      then err (runtime_error (says "Hostname cannot start or end with a hyphen."))
      else if all_of is_digit name
      then err (invalid_argument (says "Domain name should not consist solely of numeric digits."))
      else if not (all_of in_domain_name name)
      then err (invalid_argument (about "Domain name contains invalid characters" name))
      else ok (record network { domain_name = name })

  -- `Network::setNameservers` for addresses: they are added to those there.
  unfoldable pub set_nameservers : List Address → Network Address → Network Address
  set_nameservers nameservers network = record network {
    nameservers = network.nameservers ++ nameservers;
  }

module _ (d : Deps) where
  -- The constructor for a profile and a type (ctr 3).
  unfoldable pub new_network : Profile → NetworkType → Network d.Address
  new_network profile kind = record {
    profile = profile;
    kind = kind;
    address = d.unspecified;
    subnet_mask = d.unspecified;
    gateway = d.unspecified;
    vlan = 0;
    domain_name = "";
    nameservers = [];
  }

  -- `boost::asio::ip::make_address`
  abbrev pub make : String → Result d.Address
  make s = or_throw (d.make_address s) system_error

  -- `Network::setAddress`
  unfoldable pub set_address : d.Address → Network d.Address → Result (Network d.Address)
  set_address ip network = do
    unspecified ← make "0.0.0.0"
    if d.same_address ip unspecified
        then err (runtime_error (says "IP address cannot be 0.0.0.0"))
        else ok (record network { address = ip })

  unfoldable pub set_address_text : String → Network d.Address → Result (Network d.Address)
  set_address_text ip network =
      catch_system (runtime_error (says "Invalid IP address"))
        (make ip >>= λ a. set_address a network)

  -- `Network::setSubnetMask`
  unfoldable pub set_subnet_mask : d.Address → Network d.Address → Result (Network d.Address)
  set_subnet_mask mask network =
      if not (cidr_contains (d.address_string mask))
      then err (runtime_error (says "Invalid subnet mask"))
      else ok (record network { subnet_mask = mask })

  unfoldable pub set_subnet_mask_text : String → Network d.Address → Result (Network d.Address)
  set_subnet_mask_text mask network =
      catch_system (runtime_error (says "Invalid subnet mask"))
        (make mask >>= λ a. set_subnet_mask a network)

  -- `Network::setGateway`
  unfoldable pub set_gateway_text : String → Network d.Address → Result (Network d.Address)
  set_gateway_text gateway network =
      catch_system (runtime_error (says "Invalid gateway"))
        (make gateway >>= λ a. ok (record network { gateway = a }))

  unfoldable pub make_all : List String → Result (List d.Address)
  make_all [] = ok []
  make_all (s ∷ ss) = let rest = make_all ss in do a ← make s; as_ ← rest; ok (a ∷ as_)

  -- `Network::setNameservers` for texts.
  unfoldable pub set_nameservers_text : List String → Network d.Address → Result (Network d.Address)
  unfolding make_all
  set_nameservers_text nameservers network = do
    addresses ← make_all nameservers
    ok (set_nameservers addresses network)

  -- The setters that the constructors for given members call before the name servers.
  unfoldable pub configured :
      Profile → NetworkType → String → String → String → ℕ → String → Result (Network d.Address)
  configured profile kind ip mask gateway vlan domain_name = do
    with_address ← set_address_text ip (new_network profile kind)
    with_mask ← set_subnet_mask_text mask with_address
    with_gateway ← set_gateway_text gateway with_mask
    with_vlan ← set_vlan vlan with_gateway
    set_domain_name domain_name with_vlan

  -- The constructor with name servers as addresses (ctr 4), and as texts (ctr 5).
  unfoldable pub new_configured_network :
      Profile
      → NetworkType
      → String
      → String
      → String
      → ℕ
      → String
      → List d.Address
      → Result (Network d.Address)
  new_configured_network profile kind ip mask gateway vlan domain_name nameservers = do
    network ← configured profile kind ip mask gateway vlan domain_name
    ok (set_nameservers nameservers network)

  unfoldable pub new_configured_network_text :
      Profile
      → NetworkType
      → String
      → String
      → String
      → ℕ
      → String
      → List String
      → Result (Network d.Address)
  new_configured_network_text profile kind ip mask gateway vlan domain_name nameservers = do
    network ← configured profile kind ip mask gateway vlan domain_name
    set_nameservers_text nameservers network
