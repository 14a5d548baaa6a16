-- ===== src/Site.antt =====
-- What the program reads from the machine that it runs on, as one record: the options of its
-- command line, std::filesystem, the interfaces and addresses that the system calls tell, and the
-- functions of the C library on IPv4 addresses.
use opencattus.Base.{ℕ, String, Bool, Option, List, Result}
use opencattus.Deps.{Deps}
use opencattus.Os.Probe.{HostOsProbe}

-- `std::filesystem::exists` with its error code: `denied` is permission_denied.
pub data Found : Type 0 where
  there missing denied unreadable : Found

pub record Site (d : Deps) : Type 0 where
  -- Options: `dryRun` and `shouldSkip`
  pub dry_run : Bool
  pub should_skip : String → Bool
  -- whether NDEBUG is defined, and the interfaces that getifaddrs lists
  pub release : Bool
  pub interfaces : List String
  -- std::filesystem::path, std::filesystem::exists, and the checksum of a file
  pub extension : String → String
  pub filename : String → String
  pub exists : String → Found
  pub checksum : String → Result String
  -- inet_aton of an address, 0 where it fails, and inet_ntoa
  pub inet_aton : String → ℕ
  pub inet_ntoa : ℕ → String
  -- the operating system
  pub host : HostOsProbe
  -- the addresses of the resolver (none where res_init fails), the domain name, the network mask and
  -- the address of an interface (none where it has none, an exception where getifaddrs fails)
  pub resolver : Option (List d.Address)
  pub getdomainname : Option String
  pub interface_mask : String → Option d.Address
  pub interface_address : String → Result (Option d.Address)
  -- /proc/net/route, the number of an interface (0 for none), the file of a device, ntohl, and
  -- boost::asio::ip::address_v4 of a number
  pub proc_route : Option (List String)
  pub if_nametoindex : String → ℕ
  pub device_file : ℕ → Option (List String)
  pub ntohl : ℕ → ℕ
  pub ipv4_address : ℕ → d.Address
