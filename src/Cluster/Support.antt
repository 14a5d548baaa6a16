-- ===== src/Cluster/Support.antt =====
-- Which systems a provisioner installs: `validateProvisionerSupport` of src/models/cluster.cpp.
use opencattus.Base.{
  Bool, true, false, not, Result, ok, ◌>>=◌, ◌>>◌, throw_if, or_throw, runtime_error,
  bad_variant_access, says,
}
use opencattus.Enums.{Platform, ubuntu2404}
use opencattus.Os.{Os, PackageType, rpm, deb, get_package_type}
use opencattus.Cluster.{Provisioner, xcat, confluent}

-- `OS::getPlatform`
abbrev pub get_platform : Os → Result Platform
get_platform os = or_throw os.platform bad_variant_access

abbrev pub is_ubuntu2404 : Platform → Bool
is_ubuntu2404 ubuntu2404 = true
is_ubuntu2404 _ = false

-- The conditions for xCAT on a head node with a package type.
unfoldable pub validate_xcat : Os → Os → PackageType → Result (Unit {0})
validate_xcat headnode_os node_os rpm = ok tt
validate_xcat headnode_os node_os deb = do
  platform ← get_platform headnode_os
  throw_if (not (is_ubuntu2404 platform))
      (runtime_error (says "xCAT on DEB head nodes is only implemented for Ubuntu 24.04"))
  node_platform ← get_platform node_os
  throw_if (not (is_ubuntu2404 node_platform)) (
      runtime_error (
        says "xCAT on Ubuntu 24.04 head nodes is only implemented for Ubuntu 24.04 compute images"))

-- The first condition looks at the package type for xCAT only.
unfoldable pub validate_provisioner : Os → Os → Provisioner → Result (Unit {0})
unfolding validate_xcat
validate_provisioner headnode_os node_os confluent = ok tt
validate_provisioner headnode_os node_os xcat = do
  package_type ← get_package_type headnode_os
  validate_xcat headnode_os node_os package_type

-- `validateProvisionerSupport`: the last `switch` returns for every platform there is.
unfoldable pub validate_provisioner_support : Os → Os → Provisioner → Result (Unit {0})
unfolding validate_provisioner
validate_provisioner_support headnode_os node_os provisioner = do
  validate_provisioner headnode_os node_os provisioner
  platform ← get_platform node_os
  ok tt
