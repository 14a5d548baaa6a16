-- ===== src/Cluster/Supported.antt =====
-- Which pairs of systems `validateProvisionerSupport` of src/models/cluster.cpp accepts.
use opencattus.Base.{◌≡◌, refl, ◌↔◌, true, Option, none, some, ok, arith, has_value}
use opencattus.Enums.{Distro, rhel, ol, rocky, alma_linux, ubuntu, Platform, ubuntu2404}
use opencattus.Os.{Os, get_package_type}
use opencattus.Cluster.{Provisioner, xcat, confluent}
use opencattus.Cluster.Support.{validate_xcat, validate_provisioner, validate_provisioner_support}

-- The systems of head node and nodes that a provisioner installs, by the distribution and the
-- platform of the head node and the platform of the nodes. xCAT on a head node with Debian packages
-- needs Ubuntu 24.04 on both.
abbrev pub IsSupported : Provisioner → Option Distro → Option Platform → Option Platform → Type 0
IsSupported confluent distro platform node_platform = has_value node_platform ≡ true
IsSupported xcat none platform node_platform = ⊥
IsSupported xcat (some rhel) platform node_platform = has_value node_platform ≡ true
IsSupported xcat (some ol) platform node_platform = has_value node_platform ≡ true
IsSupported xcat (some rocky) platform node_platform = has_value node_platform ≡ true
IsSupported xcat (some alma_linux) platform node_platform = has_value node_platform ≡ true
IsSupported xcat (some ubuntu) platform node_platform =
    (platform ≡ some ubuntu2404) × (node_platform ≡ some ubuntu2404)

module _ (headnode node : Os) where
  validate-IsSupported :
      (provisioner : Provisioner) (distro : Option Distro)
      → headnode.distro ≡ distro
      → validate_provisioner_support headnode node provisioner ≡ ok tt
      → IsSupported provisioner distro headnode.platform node.platform
  unfolding validate_provisioner_support validate_provisioner validate_xcat get_package_type
  validate-IsSupported confluent distro e h = ground arith
  validate-IsSupported xcat none e h = ground arith
  validate-IsSupported xcat (some rhel) e h = ground arith
  validate-IsSupported xcat (some ol) e h = ground arith
  validate-IsSupported xcat (some rocky) e h = ground arith
  validate-IsSupported xcat (some alma_linux) e h = ground arith
  validate-IsSupported xcat (some ubuntu) e h = ground arith

  IsSupported-validate :
      (provisioner : Provisioner) (distro : Option Distro)
      → headnode.distro ≡ distro
      → IsSupported provisioner distro headnode.platform node.platform
      → validate_provisioner_support headnode node provisioner ≡ ok tt
  unfolding validate_provisioner_support validate_provisioner validate_xcat get_package_type
  IsSupported-validate confluent distro e h = ground arith
  IsSupported-validate xcat none e h = absurd h
  IsSupported-validate xcat (some rhel) e h = ground arith
  IsSupported-validate xcat (some ol) e h = ground arith
  IsSupported-validate xcat (some rocky) e h = ground arith
  IsSupported-validate xcat (some alma_linux) e h = ground arith
  IsSupported-validate xcat (some ubuntu) e h = ground arith

  -- A provisioner is accepted for two systems exactly when it installs them: the nodes have a
  -- platform, and for xCAT the head node has a distribution, which with Debian packages goes with
  -- Ubuntu 24.04 on both.
  pub validate_support-ok_iff :
      (provisioner : Provisioner)
      → (validate_provisioner_support headnode node provisioner ≡ ok tt)
        ↔ IsSupported provisioner headnode.distro headnode.platform node.platform
  validate_support-ok_iff provisioner = (
    validate-IsSupported provisioner headnode.distro refl,
    IsSupported-validate provisioner headnode.distro refl,
  )
