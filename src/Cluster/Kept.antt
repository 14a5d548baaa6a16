-- ===== src/Cluster/Kept.antt =====
-- The settings that `fillData` of src/models/cluster.cpp takes from an answerfile, and what each of
-- its parts keeps of a cluster.
use opencattus.Base.{
  String, ◌≡◌, refl, sym, ap, ◌∙◌, subst, Bool, true, false, Option, none, some, List, ok, ◌>>=◌,
  after, value, or_throw, Error, if◌then◌else◌,
}
use opencattus.Enums.{inbox}
use opencattus.Deps.{Deps}
use opencattus.AnswerFile as answer
use opencattus.AnswerFile.{AfOfed, AfSlurm}
use opencattus.Network as network
use opencattus.Os.{Os}
use opencattus.DiskImage as image
use opencattus.Machine.{Node}
use opencattus.Connection.{Connection}
use opencattus.Cluster.{
  Cluster, Provisioner, Ofed, Timezone, QueueSystem, MailSystem, SlurmPasswords, SelinuxMode,
  set_ofed,
}
use opencattus.Cluster.Settings.{parse_ofed_kind, name_headnode, fill_names, fill_ofed, fill_queue}
use opencattus.Cluster.Fill.{fill_settings}

-- The members that are set before the networks and kept from then on.
pub record Settings : Type 0 where
  pub name : String
  pub company_name : String
  pub admin_mail : String
  pub timezone : Timezone
  pub locale : String
  pub hostname : String
  pub fqdn : String
  pub headnode_os : Os
  pub ofed : Option Ofed
  pub repositories : Option (List String)
  pub bundles : Option (List String)
  pub queue_system : Option QueueSystem
  pub disk_image : image.DiskImage
  pub pending_download : Option String

-- What is set behind the networks, and kept from then on.
abbrev pub settings_of : {Address : Type 0} → Cluster Address → Settings
settings_of c = record {
  name = c.name;
  company_name = c.company_name;
  admin_mail = c.admin_mail;
  timezone = c.timezone;
  locale = c.locale;
  hostname = c.headnode.hostname;
  fqdn = c.headnode.fqdn;
  headnode_os = c.headnode.os;
  ofed = c.ofed;
  repositories = c.enabled_repositories;
  bundles = c.enabled_openhpc_bundles;
  queue_system = c.queue_system;
  disk_image = c.disk_image;
  pending_download = c.pending_download;
}

-- The OFED of the section, or Inbox in its latest version where the section is not there.
abbrev pub IsOfedOf : Deps → Bool → AfOfed → Option Ofed → Type 0
IsOfedOf d enabled section none = ⊥
IsOfedOf d true section (some ofed) =
    (parse_ofed_kind d section.kind ≡ some ofed.kind) × (section.version ≡ some ofed.version)
IsOfedOf d false section (some ofed) = ofed ≡ record { kind = inbox; version = "latest" }

module _ (d : Deps) where
  kind-eq-ok : {A : Type 0} (o : Option A) (e : Error) {a : A} → or_throw o e ≡ ok a → o ≡ some a
  kind-eq-ok none e h = cc
  kind-eq-ok (some a) e h = cc

  fill_ofed-IsOfedOf :
      (section : AfOfed) (c : Cluster d.Address) {c' : Cluster d.Address}
      → fill_ofed d section c ≡ ok c'
      → IsOfedOf d section.enabled section c'.ofed × (c' ≡ record c { ofed = c'.ofed })
  unfolding fill_ofed
  fill_ofed-IsOfedOf section c {c'} h = split section.enabled _ h
    where
      split :
          (b : Bool) (error : Error)
          → (if b
              then (or_throw (parse_ofed_kind d section.kind) error >>= λ kind.
                  value section.version >>= λ version. ok (set_ofed kind version c))
              else ok (set_ofed inbox "latest" c))
            ≡ ok c'
          → IsOfedOf d b section c'.ofed × (c' ≡ record c { ofed = c'.ofed })
      split false error h =
          let same : set_ofed inbox "latest" c ≡ c' = cc in
          subst (λ x. IsOfedOf d false section x.ofed × (x ≡ record c { ofed = x.ofed })) same
            (refl, refl)
      split true error h = after (or_throw (parse_ofed_kind d section.kind) error) _ h λ kind e1 h1.
          after (value section.version) _ h1 λ version e2 h2.
            let same : set_ofed kind version c ≡ c' = cc in
            subst (λ x. IsOfedOf d true section x.ofed × (x ≡ record c { ofed = x.ofed })) same
              ((kind-eq-ok _ _ e1, kind-eq-ok _ _ e2), refl)

  -- The settings of an answerfile, over a disk image, a head node's system and an OFED.
  abbrev pub settings_in :
      answer.AnswerFile d.Address d.Store → Cluster d.Address → Option Ofed → Settings
  settings_in file c ofed = record {
    name = file.information.cluster_name;
    company_name = file.information.company_name;
    admin_mail = file.information.administrator_email;
    timezone = record c.timezone { timezone = file.time.timezone };
    locale = file.time.locale;
    hostname = (name_headnode file.hostname c.headnode).hostname;
    fqdn = (name_headnode file.hostname c.headnode).fqdn;
    headnode_os = c.headnode.os;
    ofed = ofed;
    repositories = file.repositories.enabled;
    bundles = file.ohpc.enabled;
    queue_system = fill_queue file.pbs file.slurm;
    disk_image = c.disk_image;
    pending_download = c.pending_download;
  }

  -- What the parts behind the settings keep or set.
  abbrev pub Frame : Type 0
  Frame =
      Settings
      × List (network.Network d.Address)
      × List (Connection d.Address)
      × List (Node d.Address)
      × Provisioner
      × Option Os
      × Bool
      × Bool
      × SelinuxMode

  abbrev pub frame : Cluster d.Address → Frame
  frame c = (
    settings_of c,
    c.networks,
    c.headnode.connections,
    c.nodes,
    c.provisioner,
    c.compute_node_os,
    c.update_system,
    c.firewall,
    c.selinux,
  )

  -- What the settings keep, next to the networks and connections.
  abbrev pub Others : Type 0
  Others = Option MailSystem × SlurmPasswords × Bool × SelinuxMode

  abbrev pub others : Cluster d.Address → Others
  others c = (c.mail_system, c.slurm_passwords, c.firewall, c.selinux)

  pub settings-frame :
      (file : answer.AnswerFile d.Address d.Store) (c : Cluster d.Address) {c' : Cluster d.Address}
      → fill_settings d file c ≡ ok c'
      → IsOfedOf d file.ofed.enabled file.ofed c'.ofed
        × (settings_of c' ≡ settings_in file c c'.ofed)
        × (c'.networks ≡ c.networks)
        × (c'.headnode.connections ≡ c.headnode.connections)
        × (c'.nodes ≡ c.nodes)
        × (others c' ≡ others c)
  unfolding fill_settings name_headnode
  settings-frame file c {c'} h =
      let named = fill_names file.information file.time file.hostname c in
      after (fill_ofed d file.ofed named) _ h λ with_ofed e h1.
        let (ofed, kept) = fill_ofed-IsOfedOf file.ofed named e in
        let last : record with_ofed {
          enabled_repositories = file.repositories.enabled;
          enabled_openhpc_bundles = file.ohpc.enabled;
          queue_system = fill_queue file.pbs file.slurm;
        }
            ≡ c' =
          cc in
        let whole : record named {
          ofed = with_ofed.ofed;
          enabled_repositories = file.repositories.enabled;
          enabled_openhpc_bundles = file.ohpc.enabled;
          queue_system = fill_queue file.pbs file.slurm;
        }
            ≡ c' =
          ap
            (λ (x : Cluster d.Address). record x {
              enabled_repositories = file.repositories.enabled;
              enabled_openhpc_bundles = file.ohpc.enabled;
              queue_system = fill_queue file.pbs file.slurm;
            })
            (sym kept)
          ∙ last in
        subst
          (λ x.
            IsOfedOf d file.ofed.enabled file.ofed x.ofed
            × (settings_of x ≡ settings_in file c x.ofed)
            × (x.networks ≡ c.networks)
            × (x.headnode.connections ≡ c.headnode.connections)
            × (x.nodes ≡ c.nodes)
            × (others x ≡ others c))
          whole (ofed, refl, refl, refl, refl, refl)
