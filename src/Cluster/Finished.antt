-- ===== src/Cluster/Finished.antt =====
-- The provisioner, and the part behind the nodes, of `fillData` in src/models/cluster.cpp.
use opencattus.Base.{
  ◌≡◌, refl, sym, subst, Bool, true, false, Option, some, ok, after, if◌then◌else◌,
}
use opencattus.Deps.{Deps}
use opencattus.AnswerFile as answer
use opencattus.AnswerFile.{AfOfed, AfSlurm}
use opencattus.Os.{Os}
use opencattus.Machine.Names.{get_domain_name}
use opencattus.Cluster.{Cluster, Common, MailSystem, SlurmPasswords}
use opencattus.Cluster.Given.{
  passwords_from, IsMailOf, IsGenericOf, fill_mail-IsMailOf, fill_generic-IsGenericOf,
}
use opencattus.Cluster.Support.{validate_provisioner_support}
use opencattus.Cluster.Supported.{IsSupported, validate_support-ok_iff}
use opencattus.Cluster.Settings.{select_provisioner, fill_mail, fill_generic, fill_passwords}
use opencattus.Cluster.Fill.{fill_provisioner, fill_rest}
use opencattus.Cluster.Kept.{frame}

module _ (d : Deps) where
  -- What the last part keeps of a cluster, and the mail system and the passwords that it gives.
  abbrev IsFinished :
      AfSlurm
      → Option MailSystem
      → Common d.Address
      → Cluster d.Address
      → Cluster d.Address
      → Type 0
  IsFinished section mail common c c' =
      (frame d c' ≡ frame d c)
      × (c'.mail_system ≡ mail)
      × (c'.common ≡ common)
      × (c'.slurm_passwords ≡ passwords_from section c.slurm_passwords)

  passwords-frame :
      (section : AfSlurm) (mail : Option MailSystem) (common : Common d.Address)
      (c : Cluster d.Address)
      → IsFinished section mail common c
          (fill_passwords section (record c { mail_system = mail; common = common }))
  passwords-frame section mail common c = split section.enabled
    where
      given : SlurmPasswords
      given = record {
        mariadb_root_password = section.mariadb_root_password;
        slurmdb_password = section.slurmdb_password;
        storage_password = section.storage_password;
      }

      mailed : Cluster d.Address
      mailed = record c { mail_system = mail; common = common }

      split :
          (b : Bool)
          → (frame d (if b then record mailed { slurm_passwords = given } else mailed) ≡ frame d c)
            × ((if b then record mailed { slurm_passwords = given } else mailed).mail_system ≡ mail)
            × ((if b then record mailed { slurm_passwords = given } else mailed).common ≡ common)
            × ((if b then record mailed { slurm_passwords = given } else mailed).slurm_passwords
                ≡ (if b then given else c.slurm_passwords))
      split true = (refl, refl, refl, refl)
      split false = (refl, refl, refl, refl)

  pub rest-frame :
      (file : answer.AnswerFile d.Address d.Store) (c : Cluster d.Address) {c' : Cluster d.Address}
      → fill_rest d file c ≡ ok c'
      → (frame d c' ≡ frame d c)
        × IsMailOf c.headnode.hostname
            (get_domain_name c.headnode)
            file.postfix
            file.postfix.enabled
            c.mail_system
            c'.mail_system
        × IsGenericOf file.nodes.generic c'.common
        × (c'.slurm_passwords ≡ passwords_from file.slurm c.slurm_passwords)
  unfolding fill_rest
  rest-frame file c {c'} h =
      after (fill_mail c.headnode.hostname (get_domain_name c.headnode) file.postfix c.mail_system)
        _ h
        λ mail e1 h1. after (fill_generic file.nodes.generic) _ h1 λ common e2 h2.
          let same : fill_passwords file.slurm (record c { mail_system = mail; common = common })
              ≡ c' =
            cc in
          let (kept, m, k, p) =
            subst (IsFinished file.slurm mail common c) same
              (passwords-frame file.slurm mail common c) in
          (
            kept,
            subst
                (IsMailOf c.headnode.hostname (get_domain_name c.headnode) file.postfix
                  file.postfix.enabled c.mail_system)
                (sym m)
                (fill_mail-IsMailOf c.headnode.hostname (get_domain_name c.headnode) file.postfix
                  c.mail_system e1),
            subst (IsGenericOf file.nodes.generic) (sym k)
                (fill_generic-IsGenericOf file.nodes.generic e2),
            p,
          )

  pub provisioner-frame :
      (file : answer.AnswerFile d.Address d.Store) (os : Os) (c : Cluster d.Address)
      {c' : Cluster d.Address}
      → fill_provisioner d file os c ≡ ok c'
      → (select_provisioner file.system.provisioner ≡ ok c'.provisioner)
        × IsSupported c'.provisioner c.headnode.os.distro c.headnode.os.platform os.platform
        × (c' ≡ record c {
          update_system = true;
          provisioner = c'.provisioner;
          compute_node_os = some os;
        })
  unfolding fill_provisioner
  provisioner-frame file os c {c'} h =
      after (select_provisioner file.system.provisioner) _ h λ provisioner e1 h1.
        after (validate_provisioner_support c.headnode.os os provisioner) _ h1 λ u e2 h2.
          let same : record c {
            update_system = true;
            provisioner = provisioner;
            compute_node_os = some os;
          }
              ≡ c' =
            cc in
          subst
            (λ x.
              (select_provisioner file.system.provisioner ≡ ok x.provisioner)
              × IsSupported x.provisioner c.headnode.os.distro c.headnode.os.platform os.platform
              × (x ≡ record c {
                update_system = true;
                provisioner = x.provisioner;
                compute_node_os = some os;
              }))
            same (e1, (validate_support-ok_iff c.headnode.os os provisioner).0 e2, refl)
