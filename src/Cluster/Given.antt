-- ===== src/Cluster/Given.antt =====
-- What `fillData` of src/models/cluster.cpp takes from an answerfile for the system of the nodes, the
-- mail system, the passwords of SLURM, and the values that all nodes have in common.
use opencattus.Base.{
  ℕ, ◌%◌, ◌^◌, String, ◌≡◌, refl, sym, ap, ◌∙◌, subst, Bool, true, false, Option, none, some, ok,
  ◌>>=◌, after, value, value_or, if◌then◌else◌,
}
use opencattus.Base.Stoul.{stoul}
use opencattus.Enums.{linux, MailProfile, local, relay, sasl}
use opencattus.Deps.{Deps}
use opencattus.Site.{Site}
use opencattus.AnswerFile.{AfSystem, AfSlurm, AfPostfix, AfNode, Smtp, Sasl}
use opencattus.Os.{Os, x86_64}
use opencattus.Os.Probe.{host_os}
use opencattus.Os.Version.{set_version}
use opencattus.Os.Release.{IsMatched, set_version-IsReleased}
use opencattus.Os.Versioned.{IsVersionOf, set_version-IsVersionOf}
use opencattus.Os.Host.{host_os-IsHost}
use opencattus.Cluster.{Common, MailSystem, SlurmPasswords}
use opencattus.Cluster.Nodes.Filled.{IsRead}
use opencattus.Cluster.Settings.{
  kernel_given, fill_node_os, fill_smtp, fill_mail, number, fill_common, fill_generic,
}

value-eq-ok : {A : Type 0} (o : Option A) {a : A} → value o ≡ ok a → o ≡ some a
value-eq-ok none h = cc
value-eq-ok (some a) h = cc

ok-same : {A : Type 0} {a b : A} → ok a ≡ ok b → a ≡ b
ok-same h = cc

-- The passwords of the section where it is there, and else those of the cluster.
abbrev pub passwords_from : AfSlurm → SlurmPasswords → SlurmPasswords
passwords_from section old =
    if section.enabled
    then record {
      mariadb_root_password = section.mariadb_root_password;
      slurmdb_password = section.slurmdb_password;
      storage_password = section.storage_password;
    }
    else old

module _ (hostname domain : String) (section : AfPostfix) where
  -- A mail system with the names of the head node and the files of the section.
  abbrev mail_with : Option String → Option ℕ → Option String → Option String → Option MailSystem
  mail_with server port username password = some (record {
    profile = section.profile;
    hostname = some hostname;
    domain = some domain;
    smtp_server = server;
    destination = some section.destination;
    port = port;
    username = username;
    password = password;
    cert_file = some section.cert_file;
    key_file = some section.key_file;
  })

  -- Local mail has no relay; the others have the relay of the section, with the 16 bits of its
  -- port, and one profile has the login.
  abbrev pub IsMailFor : MailProfile → Option MailSystem → Type 0
  IsMailFor local mail = mail ≡ mail_with none none none none
  IsMailFor relay mail =
      (smtp : Smtp) × (section.smtp ≡ some smtp)
      × (mail ≡ mail_with (some smtp.server) (some (smtp.port % 2 ^ 16)) none none)
  IsMailFor sasl mail =
      (smtp : Smtp) × (section.smtp ≡ some smtp)
      × (login : Sasl) × (smtp.sasl_login ≡ some login)
      × (mail
          ≡ mail_with (some smtp.server) (some (smtp.port % 2 ^ 16)) (some login.username)
              (some login.password))

  -- A section that is there makes the mail system, and else it is the one from before.
  abbrev pub IsMailOf : Bool → Option MailSystem → Option MailSystem → Type 0
  IsMailOf true before mail = IsMailFor section.profile mail
  IsMailOf false before mail = mail ≡ before

  pub fill_mail-IsMailOf :
      (before : Option MailSystem) {mail : Option MailSystem}
      → fill_mail hostname domain section before ≡ ok mail
      → IsMailOf section.enabled before mail
  unfolding fill_mail fill_smtp
  fill_mail-IsMailOf before {mail} h = split section.enabled h
    where
      blank : MailSystem
      blank = record {
        profile = section.profile;
        hostname = some hostname;
        domain = some domain;
        smtp_server = none;
        destination = some section.destination;
        port = none;
        username = none;
        password = none;
        cert_file = none;
        key_file = none;
      }

      finish : MailSystem → Option MailSystem
      finish filled =
          some
            (record filled { cert_file = some section.cert_file; key_file = some section.key_file })

      profiled :
          (p : MailProfile)
          → p ≡ section.profile
          → (fill_smtp p section.smtp blank >>= λ filled. ok (finish filled)) ≡ ok mail
          → IsMailFor p mail
      profiled local e h = sym (ok-same h)
      profiled relay e h = after (fill_smtp relay section.smtp blank) _ h λ filled e0 h0.
          after (value section.smtp) _ e0
            λ smtp e1 h1. (smtp, value-eq-ok _ e1, sym (ok-same h0) ∙ ap finish (sym (ok-same h1)))
      profiled sasl e h = after (fill_smtp sasl section.smtp blank) _ h λ filled e0 h0.
          after (value section.smtp) _ e0 λ smtp e1 h1.
            after (value smtp.sasl_login) _ h1 λ login e2 h2. (
              smtp,
              value-eq-ok _ e1,
              login,
              value-eq-ok _ e2,
              sym (ok-same h0) ∙ ap finish (sym (ok-same h2)),
            )

      split :
          (b : Bool)
          → (if b
              then (fill_smtp section.profile section.smtp blank >>= λ filled. ok (finish filled))
              else ok before)
            ≡ ok mail
          → IsMailOf b before mail
      split true h = profiled section.profile refl h
      split false h = sym (ok-same h)

number-IsRead : (field : Option String) {n : ℕ} → number field ≡ ok n → IsRead field n
number-IsRead field h = after (value field) _ h λ text e h1. (text, value-eq-ok _ e, h1)

-- A number of the section, or the given one where the section has none.
abbrev pub IsReadOr : String → Option String → ℕ → Type 0
IsReadOr missing field n = stoul (value_or field missing) ≡ ok n

module _ {Address : Type 0} where
  -- The values for all nodes are those of the section.
  pub record IsCommonOf (node : AfNode Address) (common : Common Address) : Type 0 where
    pub prefix : node.prefix ≡ some common.node_prefix
    pub padding : IsRead node.padding common.node_padding
    pub start : node.start_ip ≡ some common.node_start_ip
    pub password : node.root_password ≡ some common.node_root_password
    pub sockets : IsRead node.sockets common.node_sockets
    pub cores : IsRead node.cores_per_socket common.node_cores_per_socket
    pub threads : IsRead node.threads_per_core common.node_threads_per_core
    pub cpus : IsRead node.cpus_per_node common.node_cpus_per_node
    pub memory : IsRead node.real_memory common.node_real_memory
    pub bmc_username : common.node_bmc_username ≡ value_or node.bmc_username ""
    pub bmc_password : common.node_bmc_password ≡ value_or node.bmc_password ""
    pub bmc_port : IsReadOr "0" node.bmc_serialport common.node_bmc_serial_port
    pub bmc_speed : IsReadOr "0" node.bmc_serialspeed common.node_bmc_serial_speed

  -- They come from the section for all nodes, which is there.
  abbrev pub IsGenericOf : Option (AfNode Address) → Common Address → Type 0
  IsGenericOf none common = ⊥
  IsGenericOf (some node) common = IsCommonOf node common

  fill_common-IsCommonOf :
      (node : AfNode Address) {common : Common Address}
      → fill_common node ≡ ok common
      → IsCommonOf node common
  unfolding fill_common
  fill_common-IsCommonOf node {common} h = after (value node.prefix) _ h λ prefix e1 h.
      after (number node.padding) _ h λ padding e2 h. after (value node.start_ip) _ h λ start e3 h.
        after (value node.root_password) _ h λ password e4 h.
          after (number node.sockets) _ h λ sockets e5 h.
            after (number node.cores_per_socket) _ h λ cores e6 h.
              after (number node.threads_per_core) _ h λ threads e7 h.
                after (number node.cpus_per_node) _ h λ cpus e8 h.
                  after (number node.real_memory) _ h λ memory e9 h.
                    after (stoul (value_or node.bmc_serialport "0")) _ h λ port e10 h.
                      after (stoul (value_or node.bmc_serialspeed "0")) _ h λ speed e11 h.
                        subst (IsCommonOf node) (ok-same h) (record {
                          prefix = value-eq-ok _ e1;
                          padding = number-IsRead _ e2;
                          start = value-eq-ok _ e3;
                          password = value-eq-ok _ e4;
                          sockets = number-IsRead _ e5;
                          cores = number-IsRead _ e6;
                          threads = number-IsRead _ e7;
                          cpus = number-IsRead _ e8;
                          memory = number-IsRead _ e9;
                          bmc_username = refl;
                          bmc_password = refl;
                          bmc_port = e10;
                          bmc_speed = e11;
                        })

  pub fill_generic-IsGenericOf :
      (generic : Option (AfNode Address)) {common : Common Address}
      → fill_generic generic ≡ ok common
      → IsGenericOf generic common
  fill_generic-IsGenericOf none h = cc
  fill_generic-IsGenericOf (some node) h = fill_common-IsCommonOf node h

-- The system of the nodes: x86_64 and Linux, with the distribution and the version of the section,
-- and the kernel of the section or else the running one.
pub record IsNodeOs (section : AfSystem) (running : String) (os : Os) : Type 0 where
  pub arch : os.arch ≡ some x86_64
  pub family : os.family ≡ some linux
  pub distro : os.distro ≡ some section.distro
  pub kernel : os.kernel ≡ some (value_or section.kernel running)
  pub version : IsVersionOf section.distro section.version os
  pub matched : IsMatched os

module _ (d : Deps) (site : Site d) where
  pub fill_node_os-IsNodeOs :
      (section : AfSystem) {os : Os}
      → fill_node_os d site section ≡ ok os
      → IsNodeOs section site.host.kernel os
  unfolding fill_node_os
  fill_node_os-IsNodeOs section {os} h =
      after (host_os d site.host) _ h
        λ probed e h1. named section.kernel probed (host_os-IsHost d site.host probed e).kernel h1
    where
      based : Os → Os
      based probed = record probed {
        arch = some x86_64;
        family = some linux;
        distro = some section.distro;
      }

      named :
          (kernel : Option String) (probed : Os)
          → probed.kernel ≡ some site.host.kernel
          → set_version section.version (kernel_given kernel (based probed)) ≡ ok os
          → IsNodeOs (record section { kernel = kernel }) site.host.kernel os
      named none probed k h =
          let (r, small) = set_version-IsReleased _ section.version h in
          record {
            arch = r.arch;
            family = r.family;
            distro = r.distro;
            kernel = r.kernel ∙ k;
            version = set_version-IsVersionOf _ section.version section.distro refl h;
            matched = r.matched;
          }
      named (some kernel) probed k h =
          let (r, small) = set_version-IsReleased _ section.version h in
          record {
            arch = r.arch;
            family = r.family;
            distro = r.distro;
            kernel = r.kernel;
            version = set_version-IsVersionOf _ section.version section.distro refl h;
            matched = r.matched;
          }
