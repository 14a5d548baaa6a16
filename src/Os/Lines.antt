-- ===== src/Os/Lines.antt =====
-- What the loop over the lines of the os-release file in src/models/os.cpp finds.
use opencattus.Base.{String, ◌≡◌, refl, ap, ◌∙◌, false, some, List, [], ◌∷◌, if◌then◌else◌, arith}
use opencattus.Base.Text.{starts_with}
use opencattus.Os.Probe.{
  HostOsProbe, value_from_os_release_line, platform_value, read_platform, read_distro, read_version,
  read_lines,
}

-- The value of the last line with a key, or the given one where there is none.
abbrev pub last_value {ℓ} : {A : Type ℓ} → String → (String → A) → List String → A → A
last_value key value [] old = old
last_value key value (line ∷ lines) old =
    last_value key value lines (if starts_with key line then value line else old)

module _ (line : String) (probe : HostOsProbe) where
  abbrev read_line : HostOsProbe
  read_line = read_version false line (read_distro false line (read_platform false line probe))

  distro_read :
      read_line.distro
      ≡ (if starts_with "ID=" line then value_from_os_release_line line else probe.distro)
  distro_read = ground arith

  platform_read : read_line.platform ≡ (
      if starts_with "PLATFORM_ID=" line
      then some (platform_value (value_from_os_release_line line))
      else probe.platform)
  platform_read = ground arith

-- Outside a test run, the loop ends with the distribution of the last line that begins with ID=
-- and with the platform of the last line that begins with PLATFORM_ID=, without the prefix
-- "platform:", and each stays as it was where no line begins in this way.
pub read_lines-last_value :
    (lines : List String) (probe : HostOsProbe)
    → ((read_lines false lines probe).distro
        ≡ last_value "ID=" value_from_os_release_line lines probe.distro)
      × ((read_lines false lines probe).platform
          ≡ last_value "PLATFORM_ID="
              (λ line. some (platform_value (value_from_os_release_line line)))
              lines
              probe.platform)
unfolding read_lines
read_lines-last_value [] probe = (refl, refl)
read_lines-last_value (line ∷ lines) probe =
    let (distro, platform) = read_lines-last_value lines (read_line line probe) in
    (
      distro ∙ ap (last_value "ID=" value_from_os_release_line lines) (distro_read line probe),
      platform
          ∙ ap
              (last_value "PLATFORM_ID=" (λ l. some (platform_value (value_from_os_release_line l)))
                lines)
              (platform_read line probe),
    )
