-- ===== src/Cluster/Sections.antt =====
-- The sections of an answerfile that `dumpData` of src/models/cluster.cpp makes of the members of a
-- cluster. What reads an optional member leaves the old section as it is where the member is
-- missing.
use opencattus.Base.{ℕ, String, true, Option, none, some, List, [], ◌∷◌, map, Result, ok, ◌>>=◌}
use opencattus.Base.Text.{lower}
use opencattus.Enums.{MailProfile, local, relay, sasl, OfedKind, inbox, doca, oracle}
use opencattus.AnswerFile.{AfSystem, AfSlurm, AfPbs, AfPostfix, AfOfed, Smtp, Sasl}
use opencattus.Os.{Os, get_distro}
use opencattus.Os.Version.{get_version}
use opencattus.Cluster.{
  MailSystem, Ofed, Provisioner, xcat, confluent, QueueSystem, slurm, pbs, SlurmPasswords,
}

-- `enums::toString` of OFED::Kind
abbrev pub ofed_kind_name : OfedKind → String
ofed_kind_name inbox = "Inbox"
ofed_kind_name doca = "Doca"
ofed_kind_name oracle = "Oracle"

abbrev pub provisioner_text : Provisioner → String
provisioner_text xcat = "xcat"
provisioner_text confluent = "confluent"

-- The new value where there is one.
abbrev pub replaced : {A : Type 0} → Option A → Option A → Option A
replaced none old = old
replaced (some a) old = some a

abbrev pub texts :
    {A : Type 0} → (A → String) → List A → Option (List String) → Option (List String)
texts f [] old = old
texts f (a ∷ as_) old = some (map f (a ∷ as_))

unfoldable pub ofed_section : Option Ofed → AfOfed → AfOfed
ofed_section none old = old
ofed_section (some ofed) old = record {
  kind = lower (ofed_kind_name ofed.kind);
  version = some ofed.version;
  enabled = true;
}

unfoldable pub slurm_section : Option QueueSystem → SlurmPasswords → AfSlurm → AfSlurm
slurm_section none passwords old = old
slurm_section (some (pbs queue place)) passwords old = old
slurm_section (some (slurm queue)) passwords old = record {
  enabled = true;
  mariadb_root_password = passwords.mariadb_root_password;
  slurmdb_password = passwords.slurmdb_password;
  storage_password = passwords.storage_password;
  partition_name = queue;
}

unfoldable pub pbs_section : Option QueueSystem → AfPbs → AfPbs
pbs_section none old = old
pbs_section (some (slurm queue)) old = old
pbs_section (some (pbs queue place)) old = record { enabled = true; execution_place = place }

abbrev pub text_or : Option String → String → String
text_or none old = old
text_or (some s) old = s

abbrev pub texts_or : Option (List String) → List String → List String
texts_or none old = old
texts_or (some s) old = s

-- The login, for the one profile that has it.
abbrev pub login_of : MailProfile → MailSystem → Option Sasl
login_of local mail = none
login_of relay mail = none
login_of sasl mail =
    some (record { username = text_or mail.username ""; password = text_or mail.password "" })

abbrev pub smtp_of : Option String → Option ℕ → MailSystem → Option Smtp → Option Smtp
smtp_of none port mail old = old
smtp_of (some server) none mail old = old
smtp_of (some server) (some port) mail old =
    some (record { server = server; port = port; sasl_login = login_of mail.profile mail })

unfoldable pub postfix_section : Option MailSystem → AfPostfix → AfPostfix
postfix_section none old = old
postfix_section (some mail) old = record {
  enabled = true;
  destination = texts_or mail.destination old.destination;
  profile = mail.profile;
  smtp = smtp_of mail.smtp_server mail.port mail old.smtp;
  cert_file = text_or mail.cert_file old.cert_file;
  key_file = text_or mail.key_file old.key_file;
}

abbrev pub first_or : List String → String → String
first_or [] old = old
first_or (server ∷ servers) old = server

unfoldable pub system_section : Os → String → Provisioner → AfSystem → Result AfSystem
system_section os disk_image provisioner old = do
  distro ← get_distro os
  version ← get_version os
  ok (record {
    disk_image = disk_image;
    distro = distro;
    version = version;
    kernel = replaced os.kernel old.kernel;
    provisioner = provisioner_text provisioner;
  })
