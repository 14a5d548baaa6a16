-- ===== src/DiskImage.antt =====
-- The disk image of the compute nodes: src/diskImage.cpp.
use opencattus.Base.{
  String, Bool, true, false, not, Option, none, some, List, [], ◌∷◌, if◌then◌else◌, str_eq,
  has_value, Result, ok, err, ◌>>=◌, ◌>>◌, runtime_error, says,
}
use opencattus.Base.Text.{starts_with}
use opencattus.Enums.{Distro, rhel, ol, rocky, alma_linux, ubuntu}
use opencattus.Deps.{Deps}
use opencattus.Network.Cidr.{find_text}
use opencattus.Site.{Site}

-- The members of class DiskImage.
pub record DiskImage : Type 0 where
  pub path : String
  pub distro : Option Distro

abbrev pub blank_disk_image : DiskImage
blank_disk_image = record { path = ""; distro = none }

-- `m_knownImageFilename`
abbrev pub known_images : List String
known_images =
    "AlmaLinux-8.8-x86_64-dvd.iso" ∷ "OracleLinux-R8-U8-x86_64-dvd.iso" ∷ "rhel-8.8-x86_64-dvd.iso"
    ∷ "Rocky-8.8-x86_64-dvd1.iso" ∷ "Rocky-9.5-x86_64-dvd.iso" ∷ []

-- `toDistroImage`
unfoldable pub to_distro_image : String → Option Distro
to_distro_image name =
    if starts_with "Rocky" name
    then some rocky
    else if starts_with "rhel" name
    then some rhel
    else if starts_with "OracleLinux" name
    then some ol
    else if starts_with "AlmaLinux" name
    then some alma_linux
    else if starts_with "ubuntu-" name
    then some ubuntu
    else none

-- The loop of `isKnownImage`; it keeps the distribution that the last match has set.
unfoldable pub search_images : List String → String → Option Distro → Bool × Option Distro
unfolding to_distro_image
search_images [] name distro = (false, to_distro_image name)
search_images (image ∷ images) name distro =
    let rest = search_images images name in
    if str_eq name image
    then (if has_value (to_distro_image image)
        then (true, to_distro_image image)
        else rest (to_distro_image image))
    else rest distro

-- `hash_map` of `hasVerifiedChecksum`.
abbrev pub known_checksums : List (String × String)
known_checksums =
    ("rhel-8.8-x86_64-dvd.iso", "517abcc67ee3b7212f57e180f5d30be3e8269e7a99e127a3399b7935c7e00a09")
    ∷ (
      "OracleLinux-R8-U8-x86_64-dvd.iso",
      "cae39116245ff7c3c86d5305d9c11430ce5c4e512987563435ac59c37a082d7e",
    )
    ∷ (
      "Rocky-8.8-x86_64-dvd1.iso",
      "7b8bdfe189cf24ae5c2d6a88f7a0b5f3012d23f9332c47943d538b4bc03a3704",
    )
    ∷ (
      "AlmaLinux-8.8-x86_64-dvd.iso",
      "635b30b967b509a32a1a3d81401db9861922acb396d065922b39405a43a04a31",
    )
    ∷ (
      "Rocky-9.5-x86_64-dvd.iso",
      "ba60c3653640b5747610ddfb4d09520529bef2d1d83c1feb86b0c84dff31e04e",
    )
    ∷ []

-- Whether a checksum is the one that the map has.
abbrev pub is_checksum : Option String → String → Bool
is_checksum none checksum = false
is_checksum (some expected) checksum = str_eq checksum expected

module _ (d : Deps) (site : Site d) where
  -- `DiskImage::isKnownImage`, with the image whose distribution it sets.
  unfoldable pub is_known_image : String → DiskImage → Bool × DiskImage
  unfolding search_images
  is_known_image path image =
      let (known, distro) = search_images known_images (site.filename path) image.distro in
      (known, record image { distro = distro })

  -- `DiskImage::hasVerifiedChecksum`
  unfoldable pub has_verified_checksum : String → Result Bool
  has_verified_checksum path =
      if site.dry_run then ok true else if site.should_skip "disk-checksum" then ok true else do
        checksum ← site.checksum path
        ok (is_checksum (find_text (site.filename path) known_checksums) checksum)

  -- The checksum of a known image; a wrong one is only logged.
  abbrev pub verify_known : Bool → String → Result (Unit {0})
  verify_known false path = ok tt
  verify_known true path = do verified ← has_verified_checksum path; ok tt

  -- `DiskImage::setPath`
  unfoldable pub set_path : String → DiskImage → Result DiskImage
  unfolding is_known_image has_verified_checksum
  set_path path image =
      if not (str_eq (site.extension path) ".iso")
      then err (runtime_error (says "Disk Image must have ISO extension"))
      else do
        verify_known (is_known_image path image).0 path
        ok (record (is_known_image path image).1 { path = path })
