-- ===== src/AnswerFile/Load.antt =====
-- The loaders of src/models/answerfile.cpp for all sections but the nodes. A method is a function
-- of the key file and of the member that it fills.
use opencattus.Base.{
  String, Bool, true, ◌&&◌, not, Option, none, some, List, [], if◌then◌else◌, Result, ok, err,
  ◌>>=◌, ◌>>◌, throw_if, or_throw, invalid_argument, runtime_error, Message, says, about,
  field_invalid, value_or, str_eq,
}
use opencattus.Base.Text.{is_empty, lower}
use opencattus.Enums.{
  Distro, distros, MailProfile, local, relay, sasl, mail_profiles, execution_places, of_string_opt,
}
use opencattus.Deps.{Deps}
use opencattus.KeyFile.{get_string, get_string_or, get_string_opt}
use opencattus.AnswerFile.{
  AfNetwork, AfInformation, AfTime, AfHostname, AfSystem, AfSlurm, AfPbs, AfPostfix, Smtp, AfOfed,
  AfRepositories, AfOhpc,
}
use opencattus.AnswerFile.Checks.{
  validate_subnet_mask, validate_gateway_in_subnet, parse_port_answerfile_field,
  normalize_ofed_kind,
}

-- `catch (const std::invalid_argument& e)`, which throws the class again with a longer message.
abbrev pub rethrow_invalid {ℓ} : {A : Type ℓ} → (Message → Message) → Result A → Result A
rethrow_invalid longer (ok a) = ok a
rethrow_invalid longer (err (invalid_argument m)) = err (invalid_argument (longer m))
rethrow_invalid longer (err e) = err e

-- The short name that an answerfile may use.
abbrev pub full_distro_name : String → String
full_distro_name name = if str_eq name "alma" then "almalinux" else name

module _ (d : Deps) where
  abbrev pub convert_string_to_address : String → Result d.Address
  convert_string_to_address addr =
      or_throw (d.make_address addr) (invalid_argument (says "Invalid address"))

  -- The conversion of an entry that is there; a missing one leaves the old value.
  convert_present :
      d.Store → String → String → Option d.Address → Option String → Result (Option d.Address)
  convert_present file section field_name destination none = ok destination
  convert_present file section field_name destination (some _) = do
    v ← get_string d file section field_name
    found ← rethrow_invalid (field_invalid section field_name) (convert_string_to_address v)
    ok (some found)

  unfoldable pub convert_network_address_and_validate :
      d.Store → String → String → Option d.Address → Result (Option d.Address)
  unfolding convert_present
  convert_network_address_and_validate file section field_name destination = do
    present ← get_string_opt d file section field_name
    convert_present file section field_name destination present

  -- `validateSubnetMask`, where a mask was read.
  abbrev pub check_mask : String → Option d.Address → Result (Unit {0})
  check_mask section none = ok tt
  check_mask section (some mask) = validate_subnet_mask d section mask

  -- `validateGatewayInSubnet`, where all three addresses were read.
  abbrev pub check_gateway :
      String → Option d.Address → Option d.Address → Option d.Address → Result (Unit {0})
  check_gateway section (some ip) (some mask) (some gateway) =
      validate_gateway_in_subnet d section ip mask gateway
  check_gateway section (some ip) (some mask) none = ok tt
  check_gateway section (some ip) none gateway = ok tt
  check_gateway section none mask gateway = ok tt

  -- The value split at ", ", where there is one; else the old value.
  abbrev pub split_or : Option (List String) → Option String → Option (List String)
  split_or old none = old
  split_or old (some v) = some (d.split_values v)

  unfoldable pub load_network :
      d.Store → String → AfNetwork d.Address → Result (AfNetwork d.Address)
  load_network file section network = do
    interface ← get_string d file section "interface"
    ip ← convert_network_address_and_validate file section "ip_address" network.con_ip_addr
    mac ← get_string_or d file section "mac_address" ""
    mask ← convert_network_address_and_validate file section "subnet_mask" network.subnet_mask
    check_mask section mask
    domain ← get_string_opt d file section "domain_name"
    gateway ← convert_network_address_and_validate file section "gateway" network.gateway
    check_gateway section ip mask gateway
    nameservers ← get_string_opt d file section "nameservers"
    ok (record {
      subnet_mask = mask;
      gateway = gateway;
      domain_name = domain;
      nameservers = split_or network.nameservers nameservers;
      con_interface = some interface;
      con_ip_addr = ip;
      con_mac_addr = some mac;
    })

  -- `loadServiceNetwork` and `loadApplicationNetwork`: the section may be missing.
  unfoldable pub load_optional_network :
      d.Store → String → AfNetwork d.Address → Result (AfNetwork d.Address)
  load_optional_network file section network =
      if d.has_group file section then load_network file section network else ok network

  unfoldable pub load_information : d.Store → Result AfInformation
  load_information file = do
    cluster_name ← get_string d file "information" "cluster_name"
    company_name ← get_string d file "information" "company_name"
    administrator_email ← get_string d file "information" "administrator_email"
    ok (record {
      cluster_name = cluster_name;
      company_name = company_name;
      administrator_email = administrator_email;
    })

  unfoldable pub load_time_settings : d.Store → Result AfTime
  load_time_settings file = do
    timezone ← get_string d file "time" "timezone"
    timeserver ← get_string d file "time" "timeserver"
    locale ← get_string d file "time" "locale"
    ok (record { timezone = timezone; timeserver = timeserver; locale = locale })

  unfoldable pub load_hostname_settings : d.Store → Result AfHostname
  load_hostname_settings file = do
    hostname ← get_string d file "hostname" "hostname"
    domain_name ← get_string d file "hostname" "domain_name"
    ok (record { hostname = hostname; domain_name = domain_name })

  -- The part of `loadSystemSettings` behind the distribution.
  unfoldable pub load_release : d.Store → AfSystem → Result AfSystem
  load_release file system = do
    version ← get_string d file "system" "version"
    kernel ← get_string_opt d file "system" "kernel"
    given ← get_string_opt d file "system" "provisioner"
    written ← or_throw given (runtime_error (says "[system].provisioner missing in the answerfile"))
    let provisioner = lower written
    throw_if (not (str_eq provisioner "confluent") && not (str_eq provisioner "xcat")) (
        invalid_argument
          (field_invalid "system" "provisioner" (about "unsupported provisioner" provisioner)))
    ok (record system { version = version; kernel = kernel; provisioner = provisioner })

  -- The branches on `ofStringOpt`: an unsupported distribution ends a dry run early.
  unfoldable pub load_distro : Bool → d.Store → AfSystem → String → Option Distro → Result AfSystem
  load_distro dry_run file system name none =
      if dry_run then ok system else err (runtime_error (about "Unsupported distro" name))
  load_distro dry_run file system name (some distro) =
      load_release file (record system { distro = distro })

  unfoldable pub load_system_settings : Bool → d.Store → AfSystem → Result AfSystem
  unfolding load_distro load_release
  load_system_settings dry_run file system = do
    disk_image ← get_string d file "system" "disk_image"
    given ← get_string d file "system" "distro"
    let name = full_distro_name (lower given)
    load_distro dry_run file (record system { disk_image = disk_image }) name
        (of_string_opt d distros name)

  abbrev pub enabled_values : Option String → List String
  enabled_values none = []
  enabled_values (some v) = if is_empty v then [] else d.split_values v

  -- The list of a section with one entry, `enabled`.
  unfoldable pub load_enabled : d.Store → String → Result (Option (List String))
  load_enabled file section = do
    enabled ← get_string_opt d file section "enabled"
    ok (some (enabled_values enabled))

  unfoldable pub load_repositories : d.Store → AfRepositories → Result AfRepositories
  unfolding load_enabled
  load_repositories file repositories =
      if d.has_group file "repositories"
      then (do enabled ← load_enabled file "repositories"; ok (record { enabled = enabled }))
      else ok repositories

  unfoldable pub load_ohpc : d.Store → AfOhpc → Result AfOhpc
  unfolding load_enabled
  load_ohpc file ohpc =
      if d.has_group file "ohpc"
      then (do enabled ← load_enabled file "ohpc"; ok (record { enabled = enabled }))
      else ok ohpc

  -- The `switch` of `loadPostfix`: the member `smtp` is set for two of the profiles.
  unfoldable pub load_smtp : d.Store → MailProfile → Option Smtp → Result (Option Smtp)
  load_smtp file local smtp = ok smtp
  load_smtp file relay smtp = do
    server ← get_string d file "postfix.relay" "server"
    port_text ← get_string d file "postfix.relay" "port"
    port ← parse_port_answerfile_field "postfix.relay" "port" port_text
    ok (some (record { server = server; port = port; sasl_login = none }))
  load_smtp file sasl smtp = do
    server ← get_string d file "postfix.sasl" "server"
    port_text ← get_string d file "postfix.sasl" "port"
    port ← parse_port_answerfile_field "postfix.sasl" "port" port_text
    username ← get_string d file "postfix.sasl" "username"
    password ← get_string d file "postfix.sasl" "password"
    ok (
        some (record {
          server = server;
          port = port;
          sasl_login = some (record { username = username; password = password });
        }))

  abbrev pub split_unless_empty : List String → Option String → List String
  split_unless_empty old none = old
  split_unless_empty old (some v) = if is_empty v then old else d.split_values v

  unfoldable pub load_postfix : d.Store → AfPostfix → Result AfPostfix
  unfolding load_smtp
  load_postfix file postfix =
      if d.has_group file "postfix"
      then (do
        destination ← get_string_opt d file "postfix" "destination"
        profile_value ← get_string d file "postfix" "profile"
        profile ← or_throw (of_string_opt d mail_profiles profile_value) (
            invalid_argument
              (field_invalid "postfix" "profile" (about "unsupported profile" profile_value)))
        smtp ← load_smtp file profile postfix.smtp
        cert_file ← get_string_opt d file "postfix" "smtpd_tls_cert_file"
        key_file ← get_string_opt d file "postfix" "smtpd_tls_key_file"
        ok (record {
          enabled = true;
          destination = split_unless_empty postfix.destination destination;
          profile = profile;
          smtp = smtp;
          cert_file = value_or cert_file "";
          key_file = value_or key_file "";
        }))
      else ok postfix

  unfoldable pub load_ofed : d.Store → AfOfed → Result AfOfed
  load_ofed file ofed =
      if d.has_group file "ofed"
      then (do
        kind ← get_string d file "ofed" "kind"
        if is_empty kind then ok ofed else do
          normalized ←
              or_throw (normalize_ofed_kind d kind) (
                invalid_argument (field_invalid "ofed" "kind" (about "unsupported OFED kind" kind)))
          version ← get_string d file "ofed" "version"
          ok (record {
            kind = normalized;
            version = some (if is_empty version then "latest" else version);
            enabled = true;
          }))
      else ok ofed

  unfoldable pub load_slurm : d.Store → AfSlurm → Result AfSlurm
  load_slurm file slurm =
      if d.has_group file "slurm"
      then (do
        mariadb ← get_string_opt d file "slurm" "mariadb_root_password"
        mariadb_root_password ←
            or_throw mariadb (runtime_error (says "mariadb_root_password missing"))
        slurmdb ← get_string_opt d file "slurm" "slurmdb_password"
        slurmdb_password ← or_throw slurmdb (runtime_error (says "slurmdb_password missing"))
        storage ← get_string_opt d file "slurm" "storage_password"
        storage_password ← or_throw storage (runtime_error (says "storage_password missing"))
        partition ← get_string_opt d file "slurm" "partition_name"
        partition_name ← or_throw partition (runtime_error (says "partition_name missing"))
        ok (record {
          enabled = true;
          mariadb_root_password = mariadb_root_password;
          slurmdb_password = slurmdb_password;
          storage_password = storage_password;
          partition_name = partition_name;
        }))
      else ok slurm

  unfoldable pub load_pbs : d.Store → AfPbs → Result AfPbs
  load_pbs file pbs =
      if d.has_group file "pbs"
      then (do
        given ← get_string_opt d file "pbs" "execution_place"
        let written = value_or given "Shared"
        execution_place ← or_throw (of_string_opt d execution_places written) (
            invalid_argument
              (field_invalid "pbs" "execution_place" (about "unsupported execution place" written)))
        ok (record { enabled = true; execution_place = execution_place }))
      else ok pbs
