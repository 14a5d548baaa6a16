-- ===== src/Examples/Sites.antt =====
-- A machine, an answerfile and a blank cluster for the tests.
use opencattus.Base.{
  ◌%◌, ◌^◌, ◌/◌, ◌*◌, ◌+◌, Bool, true, false, none, some, [], ◌∷◌, Result, ok, err, ◌≡◌, refl,
}
use opencattus.Enums.{linux, el9, rocky, relay}
use opencattus.Base.Decimal.{to_string}
use opencattus.Deps.Assoc.{assoc}
use opencattus.Os.{Os, x86_64}
use opencattus.Site.{Site, there}
use opencattus.AnswerFile.{AfNode, AfNetwork, AnswerFile, default_node, new_answer_file}
use opencattus.DiskImage as image
use opencattus.Machine.{blank_server}
use opencattus.Cluster.{Cluster, confluent, permissive}

-- The value of a result, or another.
abbrev pub got : {A : Type 0} → A → Result A → A
got a (ok b) = b
got a (err e) = a

abbrev pub is_ok : {A : Type 0} → Result A → Bool
is_ok (ok a) = true
is_ok (err e) = false

pub ok-got : {A : Type 0} (a : A) (r : Result A) → is_ok r ≡ true → r ≡ ok (got a r)
ok-got a (ok b) h = refl
ok-got a (err e) h = cc

abbrev pub rocky_9 : Os
rocky_9 = record {
  arch = some x86_64;
  family = some linux;
  platform = some el9;
  distro = some rocky;
  kernel = some "5.14.0";
  major_version = 9;
  minor_version = 5;
}

abbrev pub machine : Site assoc
machine = record {
  dry_run = false;
  should_skip = λ step. false;
  release = true;
  interfaces = "lo" ∷ "eth0" ∷ "eth1" ∷ [];
  extension = λ path. ".iso";
  filename = λ path. "Rocky-9.5-x86_64-dvd.iso";
  exists = λ path. there;
  checksum = λ path. ok "ba60c3653640b5747610ddfb4d09520529bef2d1d83c1feb86b0c84dff31e04e";
  inet_aton = assoc.to_uint;
  inet_ntoa = λ n. "10.0.0.0";
  host = record {
    architecture = "x86_64";
    family = "Linux";
    kernel = "5.14.0";
    platform = some "el9";
    distro = "rocky";
    version = "9.5";
  };
  resolver = some ("10.0.0.2" ∷ []);
  getdomainname = some "example.com";
  interface_mask = λ interface. some "255.255.255.0";
  interface_address = λ interface. ok (some "10.0.1.1");
  proc_route = some (
      "Iface\tDestination\tGateway\tFlags" ∷ "eth0\t00000000\t0100140A\t0003"
      ∷ "eth1\t00000000\t010115AC\t0003" ∷ []);
  if_nametoindex = λ interface. 2;
  device_file =
      λ index. some ("dhcp4.domain_name_servers=10.20.0.1" ∷ "dhcp4.routers=10.20.0.1" ∷ []);
  ntohl = λ n. n % 256 * 2 ^ 24 + n / 2 ^ 8 % 256 * 2 ^ 16 + n / 2 ^ 16 % 256 * 2 ^ 8 + n / 2 ^ 24;
  ipv4_address = λ n. to_string n;
}

abbrev pub first : AfNode assoc.Address
first = record (default_node assoc) {
  prefix = some "n";
  padding = some "2";
  hostname = some "n01";
  start_ip = some "10.0.0.101";
  root_password = some "secret";
  mac_address = some "AA:BB:CC:DD:EE:01";
  sockets = some "2";
  cores_per_socket = some "8";
  threads_per_core = some "2";
  cpus_per_node = some "32";
  real_memory = some "4096";
  bmc_address = some "10.1.0.101";
  bmc_username = some "admin";
  bmc_password = some "secret";
  bmc_serialport = some "0";
  bmc_serialspeed = some "9600";
}

abbrev pub second : AfNode assoc.Address
second = record first {
  hostname = some "n02";
  start_ip = some "10.0.0.102";
  mac_address = some "aa:bb:cc:dd:ee:02";
  bmc_address = none;
}

abbrev pub inside : AfNetwork assoc.Address
inside = record {
  subnet_mask = some "255.255.255.0";
  gateway = none;
  domain_name = some "cluster.example.com";
  nameservers = none;
  con_interface = some "eth0";
  con_ip_addr = some "10.0.0.1";
  con_mac_addr = some "";
}

abbrev pub outside : AfNetwork assoc.Address
outside = record inside {
  subnet_mask = none;
  domain_name = some "";
  con_interface = some "eth1";
  con_ip_addr = none;
  nameservers = some ("10.0.0.2" ∷ []);
}

abbrev pub blank_file : AnswerFile assoc.Address assoc.Store
blank_file = new_answer_file assoc rocky relay []

abbrev pub file : AnswerFile assoc.Address assoc.Store
file = record blank_file {
  management = inside;
  external = outside;
  information = record {
    cluster_name = "test";
    company_name = "Example";
    administrator_email = "root@example.com";
  };
  time = record { timezone = "UTC"; timeserver = "0.pool.ntp.org"; locale = "en_US.UTF-8" };
  hostname = record { hostname = "head"; domain_name = "cluster.example.com" };
  system = record {
    disk_image = "/root/Rocky-9.5-x86_64-dvd.iso";
    distro = rocky;
    version = "9.5";
    kernel = none;
    provisioner = "Confluent";
  };
  nodes = record { generic = some first; nodes = first ∷ second ∷ [] };
  slurm = record blank_file.slurm { enabled = true; partition_name = "batch" };
  repositories = record { enabled = some ("epel" ∷ []) };
}

abbrev pub blank_cluster : Cluster assoc.Address
blank_cluster = record {
  name = "";
  company_name = "";
  admin_mail = "";
  headnode = blank_server rocky_9;
  compute_node_os = none;
  provisioner = confluent;
  ofed = none;
  enabled_repositories = none;
  enabled_openhpc_bundles = none;
  queue_system = none;
  mail_system = none;
  nodes = [];
  firewall = false;
  selinux = permissive;
  timezone = record { timezone = ""; timeservers = [] };
  locale = "";
  networks = [];
  update_system = false;
  disk_image = image.blank_disk_image;
  pending_download = none;
  common = record {
    node_prefix = "";
    node_padding = 0;
    node_start_ip = "0.0.0.0";
    node_root_password = "";
    node_sockets = 0;
    node_cores_per_socket = 0;
    node_threads_per_core = 0;
    node_cpus_per_node = 0;
    node_real_memory = 0;
    node_bmc_username = "";
    node_bmc_password = "";
    node_bmc_serial_port = 0;
    node_bmc_serial_speed = 0;
  };
  slurm_passwords = record {
    mariadb_root_password = "";
    slurmdb_password = "";
    storage_password = "";
  };
}
