-- ===== src/AnswerFile/Sections/Release.antt =====
-- The [system] section of src/models/answerfile.cpp.
use opencattus.Base.{
  String, ◌≡◌, ◌⊎◌, inl, inr, Bool, false, ◌&&◌, not, some, ok, str_eq, Option-cases,
}
use opencattus.Base.Text.{lower}
use opencattus.Enums.{Distro, rhel, ol, rocky, alma_linux, ubuntu, distros, distro_name}
use opencattus.Deps.{Deps}
use opencattus.KeyFile.View.{reads, Lacks}
use opencattus.AnswerFile.{AfSystem}
use opencattus.AnswerFile.Dump.{dump_system_settings}
use opencattus.AnswerFile.Load.{load_system_settings, full_distro_name}

-- A provisioner that `loadSystemSettings` accepts, in small letters.
abbrev pub IsProvisioner : String → Type 0
IsProvisioner name = (name ≡ "confluent") ⊎ (name ≡ "xcat")

known_lower : {name : String} → IsProvisioner name → lower name ≡ name
unfolding lower
known_lower (inl e) = rw e
known_lower (inr e) = rw e

known_passes :
    {name : String}
    → IsProvisioner name
    → (not (str_eq name "confluent") && not (str_eq name "xcat")) ≡ false
known_passes (inl e) = rw e
known_passes (inr e) = rw e

module _ (d : Deps) where
  distro_cast :
      (x : Distro) → d.enum_cast distros (full_distro_name (lower (distro_name x))) ≡ some x
  unfolding lower
  distro_cast rhel = rw d.enum_cast-eq-lookup_lower
  distro_cast ol = rw d.enum_cast-eq-lookup_lower
  distro_cast rocky = rw d.enum_cast-eq-lookup_lower
  distro_cast alma_linux = rw d.enum_cast-eq-lookup_lower
  distro_cast ubuntu = rw d.enum_cast-eq-lookup_lower

  -- A [system] section with a known provisioner, written into a key file that has no such group,
  -- is read back unchanged, in a dry run or not.
  pub load-dump_system_settings :
      (dry_run : Bool) (system old : AfSystem) (file : d.Store)
      → IsProvisioner system.provisioner
      → Lacks d file "system"
      → load_system_settings d dry_run (dump_system_settings d system file) old ≡ ok system
  unfolding load_system_settings dump_system_settings
  load-dump_system_settings dry_run system old file known lacks =
      elim (Option-cases system.kernel) [
        | inl e ↦ rw e (
            simp (
              reads,
              d.has_group-set_value,
              lacks,
              distro_cast system.distro,
              known_lower known,
              known_passes known,
            ))
        | inr (k, e) ↦ rw e (
            simp (
              reads,
              d.has_group-set_value,
              distro_cast system.distro,
              known_lower known,
              known_passes known,
            ))
      ]
