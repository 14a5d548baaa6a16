-- ===== src/AnswerFile/Dump.antt =====
-- The writers of src/models/answerfile.cpp: each `dump…` method writes one section into the key
-- file. A method is a function of the member that it reads and of the key file.
use opencattus.Base.{ℕ, suc, String, Option, none, some, List, [], ◌∷◌, if◌then◌else◌}
use opencattus.Base.Text.{◌<>◌, is_empty}
use opencattus.Base.Decimal.{to_string}
use opencattus.Enums.{
  distro_name, MailProfile, local, relay, sasl, mail_profile_name, execution_place_name,
}
use opencattus.Deps.{Deps}
use opencattus.KeyFile.{set_string, set_string_opt}
use opencattus.AnswerFile.{
  AfNode, AfNetwork, AfInformation, AfTime, AfHostname, AfSystem, AfSlurm, AfPbs, AfNodes,
  AfPostfix, Smtp, AfOfed, AfRepositories, AfOhpc, AnswerFile,
}

-- `value.transform(to_text)`
abbrev pub shown {ℓ} : {A : Type ℓ} → (A → String) → Option A → Option String
shown f none = none
shown f (some a) = some (f a)

module _ (d : Deps) where
  abbrev pub joined : Option (List String) → Option String
  joined none = none
  joined (some []) = none
  joined (some (x ∷ xs)) = some (d.join_values (x ∷ xs))

  unfoldable pub dump_network : AfNetwork d.Address → String → d.Store → d.Store
  dump_network network section file =
      let f1 = set_string_opt d section "interface" network.con_interface file in
      let f2 =
        set_string_opt d section "ip_address" (shown d.address_string network.con_ip_addr) f1 in
      let f3 = set_string_opt d section "mac_address" network.con_mac_addr f2 in
      let f4 =
        set_string_opt d section "subnet_mask" (shown d.address_string network.subnet_mask) f3 in
      let f5 = set_string_opt d section "domain_name" network.domain_name f4 in
      let f6 = set_string_opt d section "gateway" (shown d.address_string network.gateway) f5 in
      set_string_opt d section "nameservers" (joined network.nameservers) f6

  unfoldable pub dump_information : AfInformation → d.Store → d.Store
  dump_information information file =
      set_string d "information" "administrator_email" information.administrator_email (
        set_string d "information" "company_name" information.company_name
          (set_string d "information" "cluster_name" information.cluster_name file))

  unfoldable pub dump_time_settings : AfTime → d.Store → d.Store
  dump_time_settings time file = set_string d "time" "locale" time.locale (
      set_string d "time" "timeserver" time.timeserver
        (set_string d "time" "timezone" time.timezone file))

  unfoldable pub dump_hostname_settings : AfHostname → d.Store → d.Store
  dump_hostname_settings hostname file =
      set_string d "hostname" "domain_name" hostname.domain_name
        (set_string d "hostname" "hostname" hostname.hostname file)

  unfoldable pub dump_system_settings : AfSystem → d.Store → d.Store
  dump_system_settings system file = set_string d "system" "provisioner" system.provisioner (
      set_string_opt d "system" "kernel" system.kernel (
        set_string d "system" "version" system.version (
          set_string d "system" "distro" (distro_name system.distro)
            (set_string d "system" "disk_image" system.disk_image file))))

  dump_generic_node : AfNode d.Address → d.Store → d.Store
  dump_generic_node generic file =
      let f1 = set_string_opt d "node" "prefix" generic.prefix file in
      let f2 = set_string_opt d "node" "padding" generic.padding f1 in
      let f3 = set_string_opt d "node" "node_ip" (shown d.address_string generic.start_ip) f2 in
      let f4 = set_string_opt d "node" "node_root_password" generic.root_password f3 in
      let f5 = set_string_opt d "node" "sockets" generic.sockets f4 in
      let f6 = set_string_opt d "node" "cores_per_socket" generic.cores_per_socket f5 in
      let f7 = set_string_opt d "node" "cpus_per_node" generic.cpus_per_node f6 in
      let f8 = set_string_opt d "node" "threads_per_core" generic.threads_per_core f7 in
      let f9 = set_string_opt d "node" "real_memory" generic.real_memory f8 in
      let f10 = set_string_opt d "node" "bmc_username" generic.bmc_username f9 in
      let f11 = set_string_opt d "node" "bmc_password" generic.bmc_password f10 in
      let f12 = set_string_opt d "node" "bmc_serialport" generic.bmc_serialport f11 in
      set_string_opt d "node" "bmc_serialspeed" generic.bmc_serialspeed f12

  -- One round of the loop of `dumpNodes`.
  dump_node : String → AfNode d.Address → d.Store → d.Store
  dump_node section node file =
      let f1 = set_string_opt d section "hostname" node.hostname file in
      let f2 = set_string_opt d section "mac_address" node.mac_address f1 in
      let f3 = set_string_opt d section "node_ip" (shown d.address_string node.start_ip) f2 in
      let f4 = set_string_opt d section "node_root_password" node.root_password f3 in
      let f5 = set_string_opt d section "sockets" node.sockets f4 in
      let f6 = set_string_opt d section "cores_per_socket" node.cores_per_socket f5 in
      let f7 = set_string_opt d section "threads_per_core" node.threads_per_core f6 in
      let f8 = set_string_opt d section "cpus_per_node" node.cpus_per_node f7 in
      let f9 = set_string_opt d section "real_memory" node.real_memory f8 in
      let f10 = set_string_opt d section "bmc_address" node.bmc_address f9 in
      let f11 = set_string_opt d section "bmc_username" node.bmc_username f10 in
      let f12 = set_string_opt d section "bmc_password" node.bmc_password f11 in
      let f13 = set_string_opt d section "bmc_serialport" node.bmc_serialport f12 in
      set_string_opt d section "bmc_serialspeed" node.bmc_serialspeed f13

  -- The loop of `dumpNodes`, from the value of its counter.
  dump_nodes_from : ℕ → List (AfNode d.Address) → d.Store → d.Store
  dump_nodes_from counter [] file = file
  dump_nodes_from counter (node ∷ nodes) file =
      dump_nodes_from (suc counter) nodes (dump_node ("node." <> to_string counter) node file)

  unfoldable pub dump_nodes : AfNodes d.Address → d.Store → d.Store
  unfolding dump_generic_node dump_nodes_from dump_node
  dump_nodes nodes file = elim nodes.generic [
    | none ↦ dump_nodes_from 1 nodes.nodes file
    | some generic ↦ dump_nodes_from 1 nodes.nodes (dump_generic_node generic file)
  ]

  -- The entries of the mail relay, for the profiles that have one.
  unfoldable pub dump_smtp : MailProfile → Option Smtp → d.Store → d.Store
  dump_smtp local smtp file = file
  dump_smtp relay none file = file
  dump_smtp relay (some smtp) file =
      set_string d "postfix.relay" "port" (to_string smtp.port)
        (set_string d "postfix.relay" "server" smtp.server file)
  dump_smtp sasl none file = file
  dump_smtp sasl (some smtp) file =
      let f1 = set_string d "postfix.sasl" "server" smtp.server file in
      let f2 = set_string d "postfix.sasl" "port" (to_string smtp.port) f1 in
      elim smtp.sasl_login [
        | none ↦ f2
        | some login ↦
            set_string d "postfix.sasl" "password" login.password
              (set_string d "postfix.sasl" "username" login.username f2)
      ]

  -- A text that is written where it is not empty.
  abbrev pub unless_empty : String → Option String
  unless_empty s = if is_empty s then none else some s

  unfoldable pub dump_postfix : AfPostfix → d.Store → d.Store
  unfolding dump_smtp
  dump_postfix postfix file =
      let f1 = set_string d "postfix" "profile" (mail_profile_name postfix.profile) file in
      let f2 = set_string_opt d "postfix" "destination" (joined (some postfix.destination)) f1 in
      let f3 =
        set_string_opt d "postfix" "smtpd_tls_cert_file" (unless_empty postfix.cert_file) f2 in
      let f4 = set_string_opt d "postfix" "smtpd_tls_key_file" (unless_empty postfix.key_file) f3 in
      if postfix.enabled then dump_smtp postfix.profile postfix.smtp f4 else file

  unfoldable pub dump_ofed : AfOfed → d.Store → d.Store
  dump_ofed ofed file =
      if ofed.enabled
      then set_string_opt d "ofed" "version" ofed.version
          (set_string d "ofed" "kind" ofed.kind file)
      else file

  unfoldable pub dump_repositories : AfRepositories → d.Store → d.Store
  dump_repositories repositories file =
      set_string_opt d "repositories" "enabled" (shown d.join_values repositories.enabled) file

  unfoldable pub dump_ohpc : AfOhpc → d.Store → d.Store
  dump_ohpc ohpc file = set_string_opt d "ohpc" "enabled" (shown d.join_values ohpc.enabled) file

  unfoldable pub dump_slurm : AfSlurm → d.Store → d.Store
  dump_slurm slurm file =
      if slurm.enabled
      then set_string d "slurm" "partition_name" slurm.partition_name (
          set_string d "slurm" "storage_password" slurm.storage_password (
            set_string d "slurm" "slurmdb_password" slurm.slurmdb_password
              (set_string d "slurm" "mariadb_root_password" slurm.mariadb_root_password file)))
      else file

  unfoldable pub dump_pbs : AfPbs → d.Store → d.Store
  dump_pbs pbs file =
      if pbs.enabled
      then set_string d "pbs" "execution_place" (execution_place_name pbs.execution_place) file
      else file

  unfoldable pub dump_options : AnswerFile d.Address d.Store → AnswerFile d.Address d.Store
  dump_options af =
      let f1 = dump_network af.external "network_external" af.keyfile in
      let f2 = dump_network af.management "network_management" f1 in
      let f3 = dump_network af.service "network_service" f2 in
      let f4 = dump_network af.application "network_application" f3 in
      let f5 = dump_information af.information f4 in
      let f6 = dump_time_settings af.time f5 in
      let f7 = dump_hostname_settings af.hostname f6 in
      let f8 = dump_system_settings af.system f7 in
      let f9 = dump_repositories af.repositories f8 in
      let f10 = dump_ohpc af.ohpc f9 in
      let f11 = dump_slurm af.slurm f10 in
      let f12 = dump_pbs af.pbs f11 in
      let f13 = dump_nodes af.nodes f12 in
      let f14 = dump_ofed af.ofed f13 in record af { keyfile = dump_postfix af.postfix f14 }
