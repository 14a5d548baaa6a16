-- ===== src/Cluster.antt =====
-- The cluster: src/models/cluster.cpp and include/opencattus/models/cluster.h, with the queue
-- systems (src/models/queuesystem.cpp, src/models/slurm.cpp, src/models/pbs.cpp) and the members
-- of the mail system (src/mailsystem/postfix.cpp). An operation that throws returns no cluster:
-- what a failed operation leaves behind is not modelled.
pub mod Disk
pub mod Networks
pub mod Support
pub mod Fetched
pub mod Attach
pub mod Settings
pub mod Nodes
pub mod Fill
pub mod Sections
pub mod Dump
pub mod Supported
pub mod DiskTaken
pub mod Stepped
pub mod Networked
pub mod Wired
pub mod Attached
pub mod Configured
pub mod Given
pub mod Kept
pub mod Finished
pub mod Whole
pub mod Restored
use opencattus.Base.{
  ℕ, String, Bool, true, false, Option, none, some, List, [], ◌∷◌, ◌++◌, value_or,
}
use opencattus.Enums.{Profile, NetworkType, MailProfile, ExecutionPlace, shared, OfedKind}
use opencattus.Os.{Os}
use opencattus.DiskImage as image
use opencattus.Network as network
use opencattus.Machine.{Server, Node}

-- Cluster::SELinuxMode
pub data SelinuxMode : Type 0 where
  permissive enforcing disabled : SelinuxMode

-- Cluster::Provisioner
pub data Provisioner : Type 0 where
  xcat confluent : Provisioner

-- QueueSystem::Kind
pub data QueueKind : Type 0 where
  no_queue slurm_kind pbs_kind : QueueKind

-- The classes SLURM and PBS, with the default queue and the execution place.
pub data QueueSystem : Type 0 where
  slurm : String → QueueSystem
  pbs : String → ExecutionPlace → QueueSystem

-- The members of class OFED.
pub record Ofed : Type 0 where
  pub kind : OfedKind
  pub version : String

-- The members of class Postfix.
pub record MailSystem : Type 0 where
  pub profile : MailProfile
  pub hostname : Option String
  pub domain : Option String
  pub smtp_server : Option String
  pub destination : Option (List String)
  pub port : Option ℕ
  pub username : Option String
  pub password : Option String
  pub cert_file : Option String
  pub key_file : Option String

-- The members of class Timezone, but the list of those available.
pub record Timezone : Type 0 where
  pub timezone : String
  pub timeservers : List String

-- The public members at the end of class Cluster, for all nodes in common.
pub record Common (Address : Type 0) : Type 0 where
  pub node_prefix : String
  pub node_padding : ℕ
  pub node_start_ip : Address
  pub node_root_password : String
  pub node_sockets : ℕ
  pub node_cores_per_socket : ℕ
  pub node_threads_per_core : ℕ
  pub node_cpus_per_node : ℕ
  pub node_real_memory : ℕ
  pub node_bmc_username : String
  pub node_bmc_password : String
  pub node_bmc_serial_port : ℕ
  pub node_bmc_serial_speed : ℕ

pub record SlurmPasswords : Type 0 where
  pub mariadb_root_password : String
  pub slurmdb_password : String
  pub storage_password : String

-- The members of class Cluster.
pub record Cluster (Address : Type 0) : Type 0 where
  pub name : String
  pub company_name : String
  pub admin_mail : String
  pub headnode : Server Address
  pub compute_node_os : Option Os
  pub provisioner : Provisioner
  pub ofed : Option Ofed
  pub enabled_repositories : Option (List String)
  pub enabled_openhpc_bundles : Option (List String)
  pub queue_system : Option QueueSystem
  pub mail_system : Option MailSystem
  pub nodes : List (Node Address)
  pub firewall : Bool
  pub selinux : SelinuxMode
  pub timezone : Timezone
  pub locale : String
  pub networks : List (network.Network Address)
  pub update_system : Bool
  pub disk_image : image.DiskImage
  pub pending_download : Option String
  pub common : Common Address
  pub slurm_passwords : SlurmPasswords

-- `Postfix::Postfix`
abbrev pub new_mail_system : MailProfile → MailSystem
new_mail_system profile = record {
  profile = profile;
  hostname = none;
  domain = none;
  smtp_server = none;
  destination = none;
  port = none;
  username = none;
  password = none;
  cert_file = none;
  key_file = none;
}

-- `QueueSystem::setDefaultQueue`
abbrev pub set_default_queue : String → QueueSystem → QueueSystem
set_default_queue queue (slurm _) = slurm queue
set_default_queue queue (pbs _ place) = pbs queue place

-- `QueueSystem::getDefaultQueue`
abbrev pub get_default_queue : QueueSystem → String
get_default_queue (slurm queue) = queue
get_default_queue (pbs queue place) = queue

-- What `setQueueSystem` makes; `PBS::PBS` sets its default queue.
abbrev pub new_queue_system : QueueKind → Option QueueSystem
new_queue_system no_queue = none
new_queue_system slurm_kind = some (slurm "")
new_queue_system pbs_kind = some (pbs "execution" shared)

module _ {Address : Type 0} where
  -- `Cluster::setQueueSystem`
  abbrev pub set_queue_system : QueueKind → Cluster Address → Cluster Address
  set_queue_system kind cluster = record cluster { queue_system = new_queue_system kind }

  -- `Cluster::setOFED`
  abbrev pub set_ofed : OfedKind → String → Cluster Address → Cluster Address
  set_ofed kind version cluster = record cluster {
    ofed = some (record { kind = kind; version = version });
  }

  -- `Cluster::getComputeNodeOS`
  abbrev pub get_compute_node_os : Cluster Address → Os
  get_compute_node_os cluster = value_or cluster.compute_node_os cluster.headnode.os

  -- `Cluster::addNode`
  abbrev pub add_node : Node Address → Cluster Address → Cluster Address
  add_node node cluster = record cluster { nodes = cluster.nodes ++ (node ∷ []) }
