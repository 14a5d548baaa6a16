-- ===== src/Cluster/Restored.antt =====
-- The sections that `dumpData` of src/models/cluster.cpp writes for a cluster that `fillData` has
-- configured.
use opencattus.Base.{
  ℕ, ◌<◌, ◌^◌, ◌%◌, String, ◌≡◌, refl, sym, ap, ◌∙◌, subst, Bool, true, false, Option, none, some,
  List, ok, after, arith, if◌then◌else◌,
}
use opencattus.Base.Text.{◌<>◌, has_char, after_first}
use opencattus.Enums.{MailProfile, local, relay, sasl}
use opencattus.Deps.{Deps}
use opencattus.Site.{Site}
use opencattus.AnswerFile as answer
use opencattus.AnswerFile.{AfSystem, AfHostname, AfSlurm, AfPbs, AfPostfix, Smtp, Sasl}
use opencattus.Os.{Os, get_distro}
use opencattus.Os.Version.{get_version}
use opencattus.Machine.{Server}
use opencattus.Machine.Names.{get_domain_name, after_first-dot}
use opencattus.Cluster.Given.{passwords_from}
use opencattus.Cluster.{
  QueueSystem, Cluster, Provisioner, MailSystem, SlurmPasswords, get_compute_node_os,
  new_queue_system, pbs_kind, slurm_kind,
}
use opencattus.Cluster.Settings.{
  name_headnode, fill_queue, place_in, queue_in, fill_smtp, fill_mail,
}
use opencattus.Cluster.Sections.{
  replaced, slurm_section, pbs_section, postfix_section, system_section,
}
use opencattus.Cluster.Dump.{dump_sections}
use opencattus.Cluster.Whole.{IsConfigured}

-- Where PBS is enabled its section comes back and that of SLURM is the one from before. Where it is
-- not, the section of PBS is the one from before, and that of SLURM is enabled: with its partition,
-- or `execution` where it was not enabled, and with the passwords.
abbrev pub AreQueuesOf :
    Bool → AfPbs → AfSlurm → SlurmPasswords → AfPbs → AfSlurm → AfPbs → AfSlurm → Type 0
AreQueuesOf true pbs_in slurm_in passwords pbs_old slurm_old pbs_out slurm_out =
    (pbs_out ≡ pbs_in) × (slurm_out ≡ slurm_old)
AreQueuesOf false pbs_in slurm_in passwords pbs_old slurm_old pbs_out slurm_out =
    (pbs_out ≡ pbs_old)
    × (slurm_out ≡ record {
      enabled = true;
      mariadb_root_password = passwords.mariadb_root_password;
      slurmdb_password = passwords.slurmdb_password;
      storage_password = passwords.storage_password;
      partition_name = if slurm_in.enabled then slurm_in.partition_name else "execution";
    })

queues_restored :
    (pbs_in : AfPbs) (slurm_in : AfSlurm) (passwords : SlurmPasswords) (pbs_old : AfPbs)
    (slurm_old : AfSlurm)
    → AreQueuesOf pbs_in.enabled pbs_in slurm_in passwords pbs_old slurm_old
        (pbs_section (fill_queue pbs_in slurm_in) pbs_old)
        (slurm_section (fill_queue pbs_in slurm_in) passwords slurm_old)
unfolding fill_queue pbs_section slurm_section
queues_restored pbs_in slurm_in passwords pbs_old slurm_old = split pbs_in.enabled refl
  where
    queue : Bool → Option QueueSystem
    queue b =
        if b
        then place_in pbs_in (new_queue_system pbs_kind)
        else queue_in (if slurm_in.enabled then slurm_in.partition_name else "execution")
            (new_queue_system slurm_kind)

    split :
        (b : Bool)
        → pbs_in.enabled ≡ b
        → AreQueuesOf b pbs_in slurm_in passwords pbs_old slurm_old
            (pbs_section (queue b) pbs_old)
            (slurm_section (queue b) passwords slurm_old)
    split true e = (ap (λ b. record pbs_in { enabled = b }) (sym e), refl)
    split false e = (refl, refl)

-- The relay of a profile: none for local mail, one with no login, or one with a login.
abbrev pub IsSmtpFor : MailProfile → Option Smtp → Type 0
IsSmtpFor local none = Unit {0}
IsSmtpFor relay (some smtp) = (smtp.port < 2 ^ 16) × (smtp.sasl_login ≡ none)
IsSmtpFor sasl (some smtp) = (smtp.port < 2 ^ 16) × (login : Sasl) × (smtp.sasl_login ≡ some login)
IsSmtpFor _ _ = ⊥

-- A section that is there.
abbrev mail_section : List String → MailProfile → Option Smtp → String → String → AfPostfix
mail_section destination profile smtp cert_file key_file = record {
  enabled = true;
  destination = destination;
  profile = profile;
  smtp = smtp;
  cert_file = cert_file;
  key_file = key_file;
}

small : (n : ℕ) → n < 2 ^ 16 → n % 2 ^ 16 ≡ n
small n h = omega arith

module _ (hostname domain : String) (before : Option MailSystem) (old : AfPostfix) where
  -- The mail system is made of the section, and the section comes back from it.
  abbrev IsRestored : AfPostfix → Type 0
  IsRestored section =
      (mail : Option MailSystem) × (fill_mail hostname domain section before ≡ ok mail)
      × (postfix_section mail old ≡ section)

  mail_present :
      (destination : List String) (profile : MailProfile) (smtp : Option Smtp)
      (cert_file key_file : String)
      → IsSmtpFor profile smtp
      → old.smtp ≡ none
      → IsRestored (mail_section destination profile smtp cert_file key_file)
  unfolding fill_mail fill_smtp postfix_section
  mail_present destination local none c k f e =
      (_, refl, ap (λ s. mail_section destination local s c k) e)
  mail_present destination relay (some smtp) c k (port, login) e = (
    _,
    refl,
    ap (λ s. mail_section destination relay (some s) c k)
        (ap (λ p. record { server = smtp.server; port = p; sasl_login = none })
            (small smtp.port port)
          ∙ ap (λ l. record smtp { sasl_login = l }) (sym login)),
  )
  mail_present destination sasl (some smtp) c k (port, login, given) e =
      subst
        (λ l.
          IsRestored (mail_section destination sasl (some (record smtp { sasl_login = l })) c k))
        (sym given)
        (
          _,
          refl,
          ap
              (λ p.
                mail_section destination sasl
                  (some (record { server = smtp.server; port = p; sasl_login = some login })) c k)
              (small smtp.port port),
        )
  mail_present destination local (some smtp) c k f e = absurd f
  mail_present destination relay none c k f e = absurd f
  mail_present destination sasl none c k f e = absurd f

  -- A mail section that is enabled and has the relay of its profile, with a port of 16 bits, makes
  -- a mail system from which `dumpData` writes the same section.
  pub mail_section-IsRestored :
      (section : AfPostfix)
      → section.enabled ≡ true
      → IsSmtpFor section.profile section.smtp
      → old.smtp ≡ none
      → IsRestored section
  mail_section-IsRestored section on f e =
      subst (λ b. IsRestored (record section { enabled = b })) (sym on)
        (mail_present section.destination section.profile section.smtp section.cert_file
          section.key_file f e)

hostname_restored :
    {Address : Type 0} (section : AfHostname) (server : Server Address)
    → has_char "." section.hostname ≡ false
    → (get_domain_name (name_headnode section server) ≡ section.domain_name)
      × ((name_headnode section server).fqdn ≡ section.hostname <> "." <> section.domain_name)
unfolding name_headnode
hostname_restored section server h =
    let once = after_first-dot section.hostname section.domain_name h in
    (after_first-dot section.hostname _ h ∙ once, ap (λ x. section.hostname <> "." <> x) once)

ok-injective : {A : Type 0} {a b : A} → ok a ≡ ok b → a ≡ b
ok-injective h = cc

system-disk_image :
    (os : Os) (disk_image : String) (provisioner : Provisioner) (old : AfSystem) {system : AfSystem}
    → system_section os disk_image provisioner old ≡ ok system
    → system.disk_image ≡ disk_image
unfolding system_section
system-disk_image os disk_image provisioner old h = after (get_distro os) _ h λ distro e1 h1.
    after (get_version os) _ h1 λ version e2 h2. sym (ap (λ x. x.disk_image) (ok-injective h2))

module _ (d : Deps) (site : Site d) where
  -- The sections that come back: names, times, host name, disk image, repositories and bundles
  -- where they are given, and the sections of the queue systems.
  pub record IsRestoredFrom (passwords : SlurmPasswords)
      (file old out : answer.AnswerFile d.Address d.Store) : Type 0 where
    pub information : out.information ≡ file.information
    pub timezone : out.time.timezone ≡ file.time.timezone
    pub locale : out.time.locale ≡ file.time.locale
    pub hostname : out.hostname ≡ file.hostname
    pub disk_image : out.system.disk_image ≡ file.system.disk_image
    pub repositories :
        out.repositories.enabled ≡ replaced file.repositories.enabled old.repositories.enabled
    pub bundles : out.ohpc.enabled ≡ replaced file.ohpc.enabled old.ohpc.enabled
    pub queues :
        AreQueuesOf file.pbs.enabled file.pbs file.slurm
          (passwords_from file.slurm passwords)
          old.pbs
          old.slurm
          out.pbs
          out.slurm

  -- A cluster that `fillData` has configured from an answerfile whose host name has no dot is
  -- written back by `dumpData` with that answerfile's information, time zone, locale, host name
  -- and domain, and disk image, and with its repositories and bundles where it has them. Where the
  -- answerfile enables PBS, its PBS section comes back and the SLURM section stays as it was before
  -- writing. Where it does not, the PBS section stays as it was before writing, and an enabled SLURM
  -- section is written: with the answerfile's partition and passwords where the answerfile enables
  -- SLURM, and else with the partition `execution` and the passwords that the cluster had before.
  pub dump_sections-IsRestoredFrom :
      (file old : answer.AnswerFile d.Address d.Store) (c c' : Cluster d.Address)
      {out : answer.AnswerFile d.Address d.Store}
      → IsConfigured d site file c c'
      → has_char "." file.hostname.hostname ≡ false
      → dump_sections d c' old ≡ ok out
      → IsRestoredFrom c.slurm_passwords file old out
  unfolding dump_sections system_section name_headnode
  dump_sections-IsRestoredFrom file old c c' {out} conf dotless h =
      after (system_section (get_compute_node_os c') c'.disk_image.path c'.provisioner old.system) _
        h
        λ system e h1.
          let same = ok-injective h1 in
          let given = conf.settings_given in
          record {
            information =
                sym (ap (λ x. x.information) same)
                ∙ ap
                    (λ s. record {
                      cluster_name = s.name;
                      company_name = s.company_name;
                      administrator_email = s.admin_mail;
                    })
                    given;
            timezone = sym (ap (λ x. x.time.timezone) same) ∙ ap (λ s. s.timezone.timezone) given;
            locale = sym (ap (λ x. x.time.locale) same) ∙ ap (λ s. s.locale) given;
            hostname =
                sym (ap (λ x. x.hostname) same)
                ∙ ap (λ s. record { hostname = s.hostname; domain_name = after_first "." s.fqdn })
                    given
                ∙ ap (λ x. record { hostname = file.hostname.hostname; domain_name = x })
                    (hostname_restored file.hostname c.headnode dotless).0;
            disk_image =
                sym (ap (λ x. x.system.disk_image) same)
                ∙ system-disk_image _ _ _ old.system e
                ∙ ap (λ s. s.disk_image.path) given;
            repositories =
                sym (ap (λ x. x.repositories.enabled) same)
                ∙ ap (λ s. replaced s.repositories old.repositories.enabled) given;
            bundles =
                sym (ap (λ x. x.ohpc.enabled) same)
                ∙ ap (λ s. replaced s.bundles old.ohpc.enabled) given;
            queues =
                subst
                  (λ (x : answer.AnswerFile d.Address d.Store).
                    AreQueuesOf file.pbs.enabled file.pbs file.slurm
                      (passwords_from file.slurm c.slurm_passwords) old.pbs old.slurm x.pbs x.slurm)
                  same
                  (subst
                    (λ p.
                      AreQueuesOf file.pbs.enabled file.pbs file.slurm p old.pbs old.slurm
                        (pbs_section c'.queue_system old.pbs)
                        (slurm_section c'.queue_system c'.slurm_passwords old.slurm))
                    conf.passwords
                    (subst
                      (λ q.
                        AreQueuesOf file.pbs.enabled file.pbs file.slurm c'.slurm_passwords old.pbs
                          old.slurm (pbs_section q old.pbs)
                          (slurm_section q c'.slurm_passwords old.slurm))
                      (sym (ap (λ s. s.queue_system) given))
                      (queues_restored file.pbs file.slurm c'.slurm_passwords old.pbs old.slurm)));
          }
