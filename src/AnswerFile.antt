-- ===== src/AnswerFile.antt =====
-- The data of src/models/answerfile.cpp and include/opencattus/models/answerfile.h: the sections
-- of an answerfile as records, and the class with its key file. The operations are in the
-- children.
pub mod Dump
pub mod Checks
pub mod Load
pub mod Nodes
pub mod Sections
pub mod Accepted
use opencattus.Base.{ℕ, String, Bool, false, Option, none, some, List, []}
use opencattus.Enums.{Distro, MailProfile, ExecutionPlace, shared}
use opencattus.Deps.{Deps}

pub record AfNode (Address : Type 0) : Type 0 where
  pub prefix : Option String
  pub padding : Option String
  pub start_ip : Option Address
  pub hostname : Option String
  pub root_password : Option String
  pub mac_address : Option String
  pub sockets : Option String
  pub cores_per_socket : Option String
  pub threads_per_core : Option String
  pub cpus_per_node : Option String
  pub real_memory : Option String
  pub bmc_address : Option String
  pub bmc_username : Option String
  pub bmc_password : Option String
  pub bmc_serialport : Option String
  pub bmc_serialspeed : Option String

pub record AfNetwork (Address : Type 0) : Type 0 where
  pub subnet_mask : Option Address
  pub gateway : Option Address
  pub domain_name : Option String
  pub nameservers : Option (List String)
  pub con_interface : Option String
  pub con_ip_addr : Option Address
  pub con_mac_addr : Option String

pub record AfInformation : Type 0 where
  pub cluster_name : String
  pub company_name : String
  pub administrator_email : String

pub record AfTime : Type 0 where
  pub timezone : String
  pub timeserver : String
  pub locale : String

pub record AfHostname : Type 0 where
  pub hostname : String
  pub domain_name : String

pub record AfSystem : Type 0 where
  pub disk_image : String
  pub distro : Distro
  pub version : String
  pub kernel : Option String
  pub provisioner : String

pub record AfSlurm : Type 0 where
  pub enabled : Bool
  pub mariadb_root_password : String
  pub slurmdb_password : String
  pub storage_password : String
  pub partition_name : String

pub record AfPbs : Type 0 where
  pub enabled : Bool
  pub execution_place : ExecutionPlace

pub record AfNodes (Address : Type 0) : Type 0 where
  pub generic : Option (AfNode Address)
  pub nodes : List (AfNode Address)

pub record Sasl : Type 0 where
  pub username : String
  pub password : String

pub record Smtp : Type 0 where
  pub server : String
  pub port : ℕ
  pub sasl_login : Option Sasl

pub record AfPostfix : Type 0 where
  pub enabled : Bool
  pub destination : List String
  pub profile : MailProfile
  pub smtp : Option Smtp
  pub cert_file : String
  pub key_file : String

pub record AfOfed : Type 0 where
  pub kind : String
  pub version : Option String
  pub enabled : Bool

pub record AfRepositories : Type 0 where
  pub enabled : Option (List String)

pub record AfOhpc : Type 0 where
  pub enabled : Option (List String)

pub record AnswerFile (Address Store : Type 0) : Type 0 where
  pub keyfile : Store
  pub external : AfNetwork Address
  pub management : AfNetwork Address
  pub application : AfNetwork Address
  pub service : AfNetwork Address
  pub information : AfInformation
  pub time : AfTime
  pub hostname : AfHostname
  pub system : AfSystem
  pub nodes : AfNodes Address
  pub postfix : AfPostfix
  pub ofed : AfOfed
  pub repositories : AfRepositories
  pub ohpc : AfOhpc
  pub slurm : AfSlurm
  pub pbs : AfPbs

module _ (d : Deps) where
  -- `AFNode node;`: the start address is the unspecified one, not a missing one.
  abbrev pub default_node : AfNode d.Address
  default_node = record {
    prefix = none;
    padding = none;
    start_ip = some d.unspecified;
    hostname = none;
    root_password = none;
    mac_address = none;
    sockets = none;
    cores_per_socket = none;
    threads_per_core = none;
    cpus_per_node = none;
    real_memory = none;
    bmc_address = none;
    bmc_username = none;
    bmc_password = none;
    bmc_serialport = none;
    bmc_serialspeed = none;
  }

  abbrev pub default_network : AfNetwork d.Address
  default_network = record {
    subnet_mask = none;
    gateway = none;
    domain_name = none;
    nameservers = none;
    con_interface = none;
    con_ip_addr = none;
    con_mac_addr = none;
  }

  -- A new `AnswerFile` over a key file. Two members have no initial value in the source; they are
  -- arguments here.
  abbrev pub new_answer_file : Distro → MailProfile → d.Store → AnswerFile d.Address d.Store
  new_answer_file distro profile file = record {
    keyfile = file;
    external = default_network;
    management = default_network;
    application = default_network;
    service = default_network;
    information = record { cluster_name = ""; company_name = ""; administrator_email = "" };
    time = record { timezone = ""; timeserver = ""; locale = "" };
    hostname = record { hostname = ""; domain_name = "" };
    system = record {
      disk_image = "";
      distro = distro;
      version = "";
      kernel = none;
      provisioner = "";
    };
    nodes = record { generic = none; nodes = [] };
    postfix = record {
      enabled = false;
      destination = [];
      profile = profile;
      smtp = none;
      cert_file = "";
      key_file = "";
    };
    ofed = record { kind = "Inbox"; version = some "latest"; enabled = false };
    repositories = record { enabled = none };
    ohpc = record { enabled = none };
    slurm = record {
      enabled = false;
      mariadb_root_password = "";
      slurmdb_password = "";
      storage_password = "";
      partition_name = "";
    };
    pbs = record { enabled = false; execution_place = shared };
  }
