-- ===== src/Examples/Sections.antt =====
-- Sections of an answerfile that are written and read back.
use opencattus.Base.{
  String, ◌≡◌, refl, inl, inr, true, false, none, some, [], ◌∷◌, ok, arith, subst,
}
use opencattus.Deps.Assoc.{assoc}
use opencattus.Enums.{alma_linux, relay, scatter}
use opencattus.Network.Cidr.{cidr, cidr_contains}
use opencattus.AnswerFile.{
  AfInformation, AfSlurm, AfPbs, AfSystem, AfOfed, AfRepositories, AfOhpc, AfNetwork, AfPostfix,
  default_network,
}
use opencattus.AnswerFile.Dump.{
  dump_information, dump_slurm, dump_pbs, dump_system_settings, dump_ofed, dump_repositories,
  dump_ohpc, dump_network, dump_postfix,
}
use opencattus.AnswerFile.Load.{
  load_information, load_slurm, load_pbs, load_system_settings, load_ofed, load_repositories,
  load_ohpc, load_network, load_postfix,
}
use opencattus.AnswerFile.Checks.Gateway.{
  IsMask, IsReachable, IsConsistent, load_network-IsConsistent,
}
use opencattus.AnswerFile.Sections.Plain.{load-dump_information, load-dump_slurm}
use opencattus.AnswerFile.Sections.Release.{load-dump_system_settings}
use opencattus.AnswerFile.Sections.Choices.{load-dump_pbs, load-dump_ofed, load-dump_choices}
use opencattus.AnswerFile.Sections.Addresses.{as_read, load-dump_network}
use opencattus.AnswerFile.Sections.Mail.{load-dump_postfix}

-- A key file with one entry.
abbrev started : assoc.Store
started = ("time", "timezone", "America/Sao_Paulo") ∷ []

abbrev cluster : AfInformation
cluster = record {
  cluster_name = "cattus";
  company_name = "Versatus";
  administrator_email = "root@cattus";
}

load-dump_information_example :
    load_information assoc (dump_information assoc cluster started) ≡ ok cluster
load-dump_information_example = load-dump_information assoc cluster started

abbrev slurm : AfSlurm
slurm = record {
  enabled = true;
  mariadb_root_password = "a";
  slurmdb_password = "b";
  storage_password = "c";
  partition_name = "batch";
}

abbrev no_slurm : AfSlurm
no_slurm = record slurm { enabled = false; partition_name = "" }

load-dump_slurm_example : load_slurm assoc (dump_slurm assoc slurm started) no_slurm ≡ ok slurm
load-dump_slurm_example = load-dump_slurm assoc slurm no_slurm started refl

abbrev pbs : AfPbs
pbs = record { enabled = true; execution_place = scatter }

load-dump_pbs_example : load_pbs assoc (dump_pbs assoc pbs started) pbs ≡ ok pbs
load-dump_pbs_example = load-dump_pbs assoc pbs pbs started refl

abbrev system : AfSystem
system = record {
  disk_image = "/root/alma.iso";
  distro = alma_linux;
  version = "9.5";
  kernel = none;
  provisioner = "xcat";
}

load-dump_system_settings_example :
    load_system_settings assoc true (dump_system_settings assoc system started) system ≡ ok system
load-dump_system_settings_example =
    load-dump_system_settings assoc true system system started (inr refl) refl

abbrev ofed : AfOfed
ofed = record { kind = "doca"; version = some "2.9"; enabled = true }

load-dump_ofed_example : load_ofed assoc (dump_ofed assoc ofed started) ofed ≡ ok ofed
load-dump_ofed_example =
    load-dump_ofed assoc ofed ofed started "2.9" refl (inr (inl refl)) refl refl

abbrev repositories : AfRepositories
repositories = record { enabled = some ("epel" ∷ "grafana" ∷ []) }

abbrev ohpc : AfOhpc
ohpc = record { enabled = some [] }

load-dump_choices_example :
    (load_repositories assoc
        (dump_repositories assoc repositories started)
        (record { enabled = none })
      ≡ ok repositories)
    × (load_ohpc assoc (dump_ohpc assoc ohpc started) (record { enabled = none }) ≡ ok ohpc)
load-dump_choices_example =
    load-dump_choices assoc repositories ohpc started ((refl, refl, refl), ((refl, refl, refl), tt))
      tt refl refl

abbrev external : AfNetwork assoc.Address
external = record (default_network assoc) {
  con_interface = some "eth0";
  con_ip_addr = some "10.0.0.2";
  subnet_mask = some "255.255.255.0";
  gateway = some "10.0.0.1";
  nameservers = some ("1.1.1.1" ∷ "8.8.8.8" ∷ []);
}

from_some : {x y : String} → some x ≡ some y → x ≡ y
from_some e = cc

external-IsConsistent : IsConsistent assoc external
unfolding cidr cidr_contains
external-IsConsistent = record {
  mask_listed = λ mask m. subst (IsMask assoc) (from_some m) (refl, refl);
  gateway_reachable = λ host mask gateway h m g.
      subst (λ x. IsReachable assoc x mask gateway) (from_some h)
        (subst (λ x. IsReachable assoc "10.0.0.2" x gateway) (from_some m)
          (subst (IsReachable assoc "10.0.0.2" "255.255.255.0") (from_some g)
            (inr (refl, refl, refl, refl))));
}

load-dump_network_example :
    load_network assoc
      (dump_network assoc external "network_external" started)
      "network_external"
      (default_network assoc)
    ≡ ok (as_read assoc external)
load-dump_network_example =
    load-dump_network assoc external "network_external" "eth0" started refl external-IsConsistent
      ((refl, refl, refl), ((refl, refl, refl), tt)) refl

load_network-IsConsistent_example : IsConsistent assoc (as_read assoc external)
load_network-IsConsistent_example =
    load_network-IsConsistent assoc (dump_network assoc external "network_external" started)
      "network_external" (default_network assoc) (as_read assoc external)
      (load-dump_network assoc external "network_external" "eth0" started refl external-IsConsistent
        ((refl, refl, refl), ((refl, refl, refl), tt)) refl)

abbrev mail : AfPostfix
mail = record {
  enabled = true;
  destination = "cattus.local" ∷ [];
  profile = relay;
  smtp = some (record { server = "smtp.cattus"; port = 25; sasl_login = none });
  cert_file = "";
  key_file = "/etc/key";
}

abbrev no_mail : AfPostfix
no_mail = record mail { enabled = false; destination = []; smtp = none }

load-dump_postfix_example : load_postfix assoc (dump_postfix assoc mail started) no_mail ≡ ok mail
load-dump_postfix_example =
    load-dump_postfix assoc mail no_mail started refl
      (
        record { server = "smtp.cattus"; port = 25; sasl_login = none },
        refl,
        refl,
        omega arith,
        omega arith,
      )
      ((refl, refl, refl), tt) refl refl refl
