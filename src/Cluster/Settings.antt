-- ===== src/Cluster/Settings.antt =====
-- The settings that `fillData` of src/models/cluster.cpp takes from an answerfile: system, names,
-- OFED, repositories, queue system, provisioner, mail system, and the values for all nodes.
use opencattus.Base.{
  ℕ, ◌%◌, ◌^◌, String, Option, none, some, if◌then◌else◌, str_eq, value_or, Result, ok, err, ◌>>=◌,
  value, or_throw, runtime_error, undefined_behavior, about,
}
use opencattus.Base.Text.{lower}
use opencattus.Base.Stoul.{stoul}
use opencattus.Enums.{
  OfedKind, inbox, doca, ofed_kinds, of_string_opt, MailProfile, local, relay, sasl, linux,
}
use opencattus.Deps.{Deps}
use opencattus.Site.{Site}
use opencattus.AnswerFile.{
  AfSystem, AfInformation, AfTime, AfHostname, AfOfed, AfSlurm, AfPbs, AfPostfix, AfNode, Smtp,
}
use opencattus.Os.{Os, x86_64, set_kernel}
use opencattus.Os.Version.{set_version}
use opencattus.Os.Probe.{host_os}
use opencattus.Machine.{Server}
use opencattus.Machine.Names.{get_domain_name, set_domain_name}
use opencattus.Cluster.{
  Cluster, Common, MailSystem, new_mail_system, Provisioner, xcat, confluent, QueueSystem, slurm,
  pbs, slurm_kind, pbs_kind, new_queue_system, set_default_queue, set_ofed,
}

abbrev pub kernel_given : Option String → Os → Os
kernel_given none os = os
kernel_given (some kernel) os = set_kernel kernel os

-- `parseOFEDKind`
unfoldable pub parse_ofed_kind : Deps → String → Option OfedKind
parse_ofed_kind d raw =
    if str_eq (lower raw) "mellanox" then some doca else of_string_opt d ofed_kinds raw

-- `PBS::setExecutionPlace`, on the queue system that was made.
abbrev pub place_in : AfPbs → Option QueueSystem → Option QueueSystem
place_in section none = none
place_in section (some (slurm queue)) = some (slurm queue)
place_in section (some (pbs queue place)) = some (pbs queue section.execution_place)

abbrev pub queue_in : String → Option QueueSystem → Option QueueSystem
queue_in queue none = none
queue_in queue (some system) = some (set_default_queue queue system)

-- The queue system: PBS where its section is there, and else SLURM.
unfoldable pub fill_queue : AfPbs → AfSlurm → Option QueueSystem
fill_queue pbs_section slurm_section =
    if pbs_section.enabled
    then place_in pbs_section (new_queue_system pbs_kind)
    else queue_in (if slurm_section.enabled then slurm_section.partition_name else "execution")
        (new_queue_system slurm_kind)

-- `selectedProvisioner`
unfoldable pub select_provisioner : String → Result Provisioner
select_provisioner written =
    if str_eq (lower written) "xcat"
    then ok xcat
    else if str_eq (lower written) "confluent"
    then ok confluent
    else err (runtime_error (about "Invalid provisioner" (lower written)))

-- `setPort` and `setSMTPServer`; the port has 16 bits.
abbrev pub relayed : Smtp → MailSystem → MailSystem
relayed smtp mail = record mail { smtp_server = some smtp.server; port = some (smtp.port % 2 ^ 16) }

-- The `switch` of the mail system.
unfoldable pub fill_smtp : MailProfile → Option Smtp → MailSystem → Result MailSystem
fill_smtp local smtp mail = ok mail
fill_smtp relay smtp mail = do given ← value smtp; ok (relayed given mail)
fill_smtp sasl smtp mail = do
  given ← value smtp
  login ← value given.sasl_login
  ok (record (relayed given mail) {
    username = some login.username;
    password = some login.password;
  })

unfoldable pub fill_mail :
    String → String → AfPostfix → Option MailSystem → Result (Option MailSystem)
unfolding fill_smtp
fill_mail hostname domain section mail =
    if section.enabled
    then (do
      filled ← fill_smtp section.profile section.smtp (record (new_mail_system section.profile) {
        hostname = some hostname;
        domain = some domain;
        destination = some section.destination;
      })
      ok (
          some (record filled {
            cert_file = some section.cert_file;
            key_file = some section.key_file;
          })))
    else ok mail

-- `std::stoul(field.value())`
abbrev pub number : Option String → Result ℕ
number field = do text ← value field; stoul text

module _ {Address : Type 0} where
  -- `Headnode` by its names: `setHostname`, `setDomainName`, and `setFQDN` of both.
  unfoldable pub name_headnode : AfHostname → Server Address → Server Address
  name_headnode section server =
      let named =
        set_domain_name section.domain_name (record server { hostname = section.hostname }) in
      set_domain_name (get_domain_name named) named

  -- The values for all nodes, of the section that `nodes.generic->` reads.
  unfoldable pub fill_common : AfNode Address → Result (Common Address)
  fill_common node = do
    prefix ← value node.prefix
    padding ← number node.padding
    start ← value node.start_ip
    password ← value node.root_password
    sockets ← number node.sockets
    cores ← number node.cores_per_socket
    threads ← number node.threads_per_core
    cpus ← number node.cpus_per_node
    memory ← number node.real_memory
    port ← stoul (value_or node.bmc_serialport "0")
    speed ← stoul (value_or node.bmc_serialspeed "0")
    ok (record {
      node_prefix = prefix;
      node_padding = padding;
      node_start_ip = start;
      node_root_password = password;
      node_sockets = sockets;
      node_cores_per_socket = cores;
      node_threads_per_core = threads;
      node_cpus_per_node = cpus;
      node_real_memory = memory;
      node_bmc_username = value_or node.bmc_username "";
      node_bmc_password = value_or node.bmc_password "";
      node_bmc_serial_port = port;
      node_bmc_serial_speed = speed;
    })

  abbrev pub fill_generic : Option (AfNode Address) → Result (Common Address)
  fill_generic none = err undefined_behavior
  fill_generic (some node) = fill_common node

  abbrev pub fill_names : AfInformation → AfTime → AfHostname → Cluster Address → Cluster Address
  fill_names information time hostname cluster = record cluster {
    name = information.cluster_name;
    company_name = information.company_name;
    admin_mail = information.administrator_email;
    timezone = record cluster.timezone { timezone = time.timezone };
    locale = time.locale;
    headnode = name_headnode hostname cluster.headnode;
  }

  abbrev pub fill_passwords : AfSlurm → Cluster Address → Cluster Address
  fill_passwords section cluster =
      if section.enabled
      then record cluster {
        slurm_passwords = record {
          mariadb_root_password = section.mariadb_root_password;
          slurmdb_password = section.slurmdb_password;
          storage_password = section.storage_password;
        };
      }
      else cluster

module _ (d : Deps) where
  -- `nodeOS`
  unfoldable pub fill_node_os : Site d → AfSystem → Result Os
  fill_node_os site section = do
    probed ← host_os d site.host
    set_version section.version (
        kernel_given section.kernel
          (record probed { arch = some x86_64; family = some linux; distro = some section.distro }))

  -- OFED: Inbox in its latest version where the section is not there.
  unfoldable pub fill_ofed : AfOfed → Cluster d.Address → Result (Cluster d.Address)
  unfolding parse_ofed_kind
  fill_ofed section cluster =
      if section.enabled
      then (do
        kind ←
            or_throw (parse_ofed_kind d section.kind)
              (runtime_error (about "Invalid OFED kind" section.kind))
        version ← value section.version
        ok (set_ofed kind version cluster))
      else ok (set_ofed inbox "latest" cluster)
