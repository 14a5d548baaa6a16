-- ===== src/Cluster/DiskTaken.antt =====
-- When `setDiskImage` of src/models/cluster.cpp takes a path, and what it changes.
use opencattus.Base.{
  String, ◌≡◌, refl, ap, ◌∙◌, ◌↔◌, Bool, true, false, ◌||◌, none, str_eq, Result, ok, err, Error,
  ◌>>=◌, >>=-eq-ok, arith, if◌then◌else◌,
}
use opencattus.Deps.{Deps}
use opencattus.Site.{Site, Found, there, missing, denied, unreadable}
use opencattus.DiskImage.{DiskImage, is_known_image, verify_known, set_path}
use opencattus.Cluster.{Cluster}
use opencattus.Cluster.Disk.{accept_disk_image, set_found_disk_image, set_disk_image}

or_true : (b : Bool) → (b || true) ≡ true
or_true true = refl
or_true false = refl

-- The file is there, or the program may not look.
abbrev pub is_usable : Found → Bool
is_usable there = true
is_usable denied = true
is_usable missing = false
is_usable unreadable = false

module _ (d : Deps) (site : Site d) where
  -- A path that the cluster takes: a usable file or a dry run, the extension of an image, and a
  -- checksum that can be read where the image is a known one.
  pub record IsTaken (path : String) (image : DiskImage) : Type 0 where
    pub usable : (is_usable (site.exists path) || site.dry_run) ≡ true
    pub image_extension : str_eq (site.extension path) ".iso" ≡ true
    pub checked : verify_known d site (is_known_image d site path image).0 path ≡ ok tt

  -- The cluster behind it.
  abbrev pub with_image : String → Cluster d.Address → Cluster d.Address
  with_image path cluster = record cluster {
    disk_image = record (is_known_image d site path cluster.disk_image).1 { path = path };
    pending_download = none;
  }

  set_path-eq-ok :
      (path : String) (image : DiskImage) {image' : DiskImage}
      → set_path d site path image ≡ ok image'
      → (str_eq (site.extension path) ".iso" ≡ true)
        × (verify_known d site (is_known_image d site path image).0 path ≡ ok tt)
        × (record (is_known_image d site path image).1 { path = path } ≡ image')
  unfolding set_path
  set_path-eq-ok path image {image'} h = split (str_eq (site.extension path) ".iso") refl
    where
      rest :
          (verify_known d site (is_known_image d site path image).0 path >>= λ u.
          ok (record (is_known_image d site path image).1 { path = path }))
            ≡ ok image'
          → (verify_known d site (is_known_image d site path image).0 path ≡ ok tt)
            × (record (is_known_image d site path image).1 { path = path } ≡ image')
      rest h' =
          let (u, e, h1) =
            >>=-eq-ok (verify_known d site (is_known_image d site path image).0 path) _ h' in
          (e, cc)

      split :
          (b : Bool)
          → str_eq (site.extension path) ".iso" ≡ b
          → (str_eq (site.extension path) ".iso" ≡ true)
            × (verify_known d site (is_known_image d site path image).0 path ≡ ok tt)
            × (record (is_known_image d site path image).1 { path = path } ≡ image')
      split true e = let (checked, same) = rest (rw e at h) in (e, checked, same)
      split false e = absurd (ground arith)

  set_path-ok :
      (path : String) (cluster : Cluster d.Address)
      → IsTaken path cluster.disk_image
      → accept_disk_image d site path cluster ≡ ok (with_image path cluster)
  unfolding set_path
  set_path-ok path cluster t = rw (t.image_extension, t.checked) refl

  accepted-IsTaken :
      (path : String) (cluster : Cluster d.Address) {cluster' : Cluster d.Address}
      → (is_usable (site.exists path) || site.dry_run) ≡ true
      → accept_disk_image d site path cluster ≡ ok cluster'
      → IsTaken path cluster.disk_image × (with_image path cluster ≡ cluster')
  accepted-IsTaken path cluster {cluster'} usable h =
      let (image, e, h1) = >>=-eq-ok (set_path d site path cluster.disk_image) _ h in
      let (iso, checked, same) = set_path-eq-ok path cluster.disk_image e in
      let last : record cluster { disk_image = image; pending_download = none } ≡ cluster' = cc in
      (
        record { usable = usable; image_extension = iso; checked = checked },
        ap (λ i. record cluster { disk_image = i; pending_download = none }) same ∙ last,
      )

  -- A disk image is set exactly when its path is taken, and then the cluster has the image and no
  -- pending download, and is otherwise as it was.
  pub set_disk_image-ok_iff :
      (path : String) (cluster : Cluster d.Address) {cluster' : Cluster d.Address}
      → (set_disk_image d site path cluster ≡ ok cluster')
        ↔ (IsTaken path cluster.disk_image × (with_image path cluster ≡ cluster'))
  unfolding set_disk_image
  set_disk_image-ok_iff path cluster {cluster'} =
      (forth (site.exists path) refl, λ t. back (site.exists path) refl t.0 ∙ ap ok t.1)
    where
      dry :
          (b : Bool) (f : Found) (error : Error)
          → site.dry_run ≡ b
          → site.exists path ≡ f
          → (if b then accept_disk_image d site path cluster else err error) ≡ ok cluster'
          → IsTaken path cluster.disk_image × (with_image path cluster ≡ cluster')
      dry true f error e e' h =
          accepted-IsTaken path cluster (rw e (or_true (is_usable (site.exists path)))) h
      dry false f error e e' h = cc

      forth :
          (f : Found)
          → site.exists path ≡ f
          → set_found_disk_image d site f path cluster ≡ ok cluster'
          → IsTaken path cluster.disk_image × (with_image path cluster ≡ cluster')
      forth there e h = accepted-IsTaken path cluster (rw e refl) h
      forth denied e h = accepted-IsTaken path cluster (rw e refl) h
      forth missing e h = dry site.dry_run missing _ refl e h
      forth unreadable e h = dry site.dry_run unreadable _ refl e h

      dry_of :
          (f : Found)
          → site.exists path ≡ f
          → IsTaken path cluster.disk_image
          → is_usable f ≡ false
          → site.dry_run ≡ true
      dry_of f e t unusable = ground (arith, t.usable)

      dry_back :
          (b : Bool) (error : Error) {result : Result (Cluster d.Address)}
          → b ≡ true
          → accept_disk_image d site path cluster ≡ result
          → (if b then accept_disk_image d site path cluster else err error) ≡ result
      dry_back true error e h = h
      dry_back false error e h = cc

      back :
          (f : Found)
          → site.exists path ≡ f
          → IsTaken path cluster.disk_image
          → set_found_disk_image d site f path cluster ≡ ok (with_image path cluster)
      back there e t = set_path-ok path cluster t
      back denied e t = set_path-ok path cluster t
      back missing e t =
          dry_back site.dry_run _ (dry_of missing e t refl) (set_path-ok path cluster t)
      back unreadable e t =
          dry_back site.dry_run _ (dry_of unreadable e t refl) (set_path-ok path cluster t)
