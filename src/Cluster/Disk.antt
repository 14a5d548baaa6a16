-- ===== src/Cluster/Disk.antt =====
-- The disk image of the cluster: `setDiskImage` and the pending download of
-- src/models/cluster.cpp.
use opencattus.Base.{
  String, none, some, if◌then◌else◌, Result, ok, err, ◌>>=◌, runtime_error, about,
}
use opencattus.Deps.{Deps}
use opencattus.Site.{Site, Found, there, missing, denied, unreadable}
use opencattus.DiskImage.{set_path}
use opencattus.Cluster.{Cluster}

module _ (d : Deps) (site : Site d) where
  -- The image is taken, and a pending download is forgotten.
  abbrev pub accept_disk_image : String → Cluster d.Address → Result (Cluster d.Address)
  accept_disk_image path cluster = do
    image ← set_path d site path cluster.disk_image
    ok (record cluster { disk_image = image; pending_download = none })

  -- The cases of `setDiskImage`, for the answer of `exists`.
  abbrev pub set_found_disk_image : Found → String → Cluster d.Address → Result (Cluster d.Address)
  set_found_disk_image there path cluster = accept_disk_image path cluster
  set_found_disk_image denied path cluster = accept_disk_image path cluster
  set_found_disk_image unreadable path cluster =
      if site.dry_run
      then accept_disk_image path cluster
      else err (runtime_error (about "Unable to inspect disk image path" path))
  set_found_disk_image missing path cluster =
      if site.dry_run
      then accept_disk_image path cluster
      else err (runtime_error (about "Disk image path doesn't exist" path))

  -- `Cluster::setDiskImage`
  unfoldable pub set_disk_image : String → Cluster d.Address → Result (Cluster d.Address)
  set_disk_image path cluster = set_found_disk_image (site.exists path) path cluster

  -- `Cluster::setPendingDiskImageDownload`
  unfoldable pub set_pending_disk_image_download :
      String → String → Cluster d.Address → Result (Cluster d.Address)
  set_pending_disk_image_download path url cluster = do
    image ← set_path d site path cluster.disk_image
    ok (record cluster { disk_image = image; pending_download = some url })
