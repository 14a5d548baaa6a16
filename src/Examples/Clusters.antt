-- ===== src/Examples/Clusters.antt =====
-- A cluster that is configured from an answerfile, and written back.
use opencattus.Base.{
  ◌↔◌, Option, arith, String, Bool, true, false, ◌≡◌, refl, true, none, some, List, [], ◌∷◌, ◌++◌,
  All, Result, ok, err,
}
use opencattus.Base.Text.{has_char, lower}
use opencattus.Base.Decimal.{to_string}
use opencattus.Base.Stoul.{stoul}
use opencattus.Deps.Assoc.{assoc}
use opencattus.Enums.{relay}
use opencattus.AnswerFile.{AnswerFile, AfPostfix}
use opencattus.Os.{get_package_type}
use opencattus.Os.Probe.{host_os}
use opencattus.Cluster.{Cluster, confluent, xcat, MailSystem}
use opencattus.Cluster.Disk.{set_disk_image}
use opencattus.Cluster.DiskTaken.{IsTaken, with_image, set_disk_image-ok_iff}
use opencattus.Cluster.Support.{validate_provisioner_support}
use opencattus.Cluster.Supported.{IsSupported, validate_support-ok_iff}
use opencattus.Cluster.Settings.{fill_mail}
use opencattus.Cluster.Fill.{fill_settings, fill_networks, fill_provisioner, fill_rest, fill_data}
use opencattus.Cluster.Sections.{postfix_section}
use opencattus.Cluster.Dump.{dump_sections}
use opencattus.Cluster.Whole.{IsConfigured, fill_data-IsConfigured}
use opencattus.Cluster.Restored.{
  IsRestoredFrom, mail_section-IsRestored, dump_sections-IsRestoredFrom,
}
use opencattus.Examples.Sites.{
  got, is_ok, ok-got, rocky_9, machine, blank_file, file, blank_cluster,
}

abbrev configured : Cluster assoc.Address
configured = got blank_cluster (fill_data assoc machine file blank_cluster)

fills : is_ok (fill_data assoc machine file blank_cluster) ≡ true
unfolding fill_data opencattus.Cluster.Fetched.management_network opencattus.Network.set_subnet_mask
    opencattus.Network.Cidr.cidr_contains opencattus.Network.set_domain_name
    opencattus.Network.Fetch.fetch_nameservers opencattus.Network.Fetch.calculate_address
    opencattus.Network.set_nameservers opencattus.Network.set_address
    opencattus.Cluster.Fetched.external_network opencattus.Network.Fetch.fetch_subnet_mask
    opencattus.Network.Fetch.fetch_domain_name opencattus.Network.set_nameservers_text
    set_disk_image opencattus.DiskImage.set_path opencattus.Cluster.Settings.fill_node_os host_os
    opencattus.Os.set_arch opencattus.Base.Stoul.is_space opencattus.Base.Stoul.leading_digits
    opencattus.Base.Stoul.skip_spaces stoul lower opencattus.Base.Text.to_lower
    opencattus.Base.Text.transliterate opencattus.Cluster.Attach.address_network
    opencattus.Cluster.Attach.attach_external opencattus.Cluster.Attach.attach_management
    fill_networks fill_provisioner fill_rest fill_settings opencattus.Cluster.Networks.find_network
    opencattus.Cluster.Networks.get_network opencattus.Cluster.Networks.place_of
    opencattus.Cluster.Networks.network_pointer opencattus.Cluster.Networks.update_network
    opencattus.Cluster.Nodes.convert_or_error opencattus.Cluster.Nodes.fill_bmc
    opencattus.Cluster.Nodes.fill_mac opencattus.Cluster.Nodes.fill_node
    opencattus.Cluster.Nodes.fill_nodes opencattus.Cluster.Nodes.require_bmc_field
    opencattus.Cluster.Settings.fill_common fill_mail opencattus.Cluster.Settings.fill_ofed
    opencattus.Cluster.Settings.fill_queue opencattus.Cluster.Settings.fill_smtp
    opencattus.Cluster.Settings.name_headnode opencattus.Cluster.Settings.parse_ofed_kind
    opencattus.Cluster.Settings.select_provisioner opencattus.Cluster.Support.validate_provisioner
    validate_provisioner_support opencattus.Connection.new_connection
    opencattus.Connection.set_address opencattus.Connection.set_interface
    opencattus.Connection.set_mac opencattus.Connection.validate_mac
    opencattus.DiskImage.has_verified_checksum opencattus.DiskImage.is_known_image
    opencattus.DiskImage.search_images opencattus.DiskImage.to_distro_image
    opencattus.Network.Cidr.cidr opencattus.Network.Fetch.fetch_address
    opencattus.Network.Fetch.fetch_gateway opencattus.Network.make_all
    opencattus.Network.new_network opencattus.Os.Version.set_el_version
    opencattus.Os.Version.set_version get_package_type opencattus.Os.normalized_distro
    opencattus.Os.set_distro opencattus.Os.set_family opencattus.Os.set_major_version
    opencattus.Os.set_platform opencattus.Os.new_os
fills = refl

configured_is : fill_data assoc machine file blank_cluster ≡ ok configured
configured_is = ok-got blank_cluster (fill_data assoc machine file blank_cluster) fills

fill_data-IsConfigured_example : IsConfigured assoc machine file blank_cluster configured
fill_data-IsConfigured_example =
    fill_data-IsConfigured assoc machine file blank_cluster configured_is

abbrev written : AnswerFile assoc.Address assoc.Store
written = got blank_file (dump_sections assoc configured blank_file)

dumps : is_ok (dump_sections assoc configured blank_file) ≡ true
unfolding fill_data opencattus.Cluster.Fetched.management_network opencattus.Network.set_subnet_mask
    opencattus.Network.Cidr.cidr_contains opencattus.Network.set_domain_name
    opencattus.Network.Fetch.fetch_nameservers opencattus.Network.Fetch.calculate_address
    opencattus.Network.set_nameservers opencattus.Network.set_address
    opencattus.Cluster.Fetched.external_network opencattus.Network.Fetch.fetch_subnet_mask
    opencattus.Network.Fetch.fetch_domain_name opencattus.Network.set_nameservers_text
    set_disk_image opencattus.DiskImage.set_path opencattus.Cluster.Settings.fill_node_os host_os
    opencattus.Os.set_arch opencattus.Base.Stoul.is_space opencattus.Base.Stoul.leading_digits
    opencattus.Base.Stoul.skip_spaces stoul lower opencattus.Base.Text.to_lower
    opencattus.Base.Text.transliterate opencattus.Cluster.Attach.address_network
    opencattus.Cluster.Attach.attach_external opencattus.Cluster.Attach.attach_management
    fill_networks fill_provisioner fill_rest fill_settings opencattus.Cluster.Networks.find_network
    opencattus.Cluster.Networks.get_network opencattus.Cluster.Networks.place_of
    opencattus.Cluster.Networks.network_pointer opencattus.Cluster.Networks.update_network
    opencattus.Cluster.Nodes.convert_or_error opencattus.Cluster.Nodes.fill_bmc
    opencattus.Cluster.Nodes.fill_mac opencattus.Cluster.Nodes.fill_node
    opencattus.Cluster.Nodes.fill_nodes opencattus.Cluster.Nodes.require_bmc_field
    opencattus.Cluster.Settings.fill_common fill_mail opencattus.Cluster.Settings.fill_ofed
    opencattus.Cluster.Settings.fill_queue opencattus.Cluster.Settings.fill_smtp
    opencattus.Cluster.Settings.name_headnode opencattus.Cluster.Settings.parse_ofed_kind
    opencattus.Cluster.Settings.select_provisioner opencattus.Cluster.Support.validate_provisioner
    validate_provisioner_support opencattus.Connection.new_connection
    opencattus.Connection.set_address opencattus.Connection.set_interface
    opencattus.Connection.set_mac opencattus.Connection.validate_mac
    opencattus.DiskImage.has_verified_checksum opencattus.DiskImage.is_known_image
    opencattus.DiskImage.search_images opencattus.DiskImage.to_distro_image
    opencattus.Network.Cidr.cidr opencattus.Network.Fetch.fetch_address
    opencattus.Network.Fetch.fetch_gateway opencattus.Network.make_all
    opencattus.Network.new_network opencattus.Os.Version.set_el_version
    opencattus.Os.Version.set_version get_package_type opencattus.Os.normalized_distro
    opencattus.Os.set_distro opencattus.Os.set_family opencattus.Os.set_major_version
    opencattus.Os.set_platform opencattus.Os.new_os dump_sections
    opencattus.Cluster.Sections.system_section opencattus.Os.Version.get_version
    opencattus.Base.Decimal.to_string
dumps = refl

dump_sections-IsRestoredFrom_example :
    IsRestoredFrom assoc machine blank_cluster.slurm_passwords file blank_file written
dump_sections-IsRestoredFrom_example =
    dump_sections-IsRestoredFrom assoc machine file blank_file blank_cluster configured
      fill_data-IsConfigured_example refl
      (ok-got blank_file (dump_sections assoc configured blank_file) dumps)

set_disk_image-ok_iff_example :
    (set_disk_image assoc machine "a.iso" blank_cluster
      ≡ ok (with_image assoc machine "a.iso" blank_cluster))
    ↔ (IsTaken assoc machine "a.iso" blank_cluster.disk_image
        × (with_image assoc machine "a.iso" blank_cluster
            ≡ with_image assoc machine "a.iso" blank_cluster))
set_disk_image-ok_iff_example = set_disk_image-ok_iff assoc machine "a.iso" blank_cluster

validate_support-ok_iff_example :
    (validate_provisioner_support rocky_9 rocky_9 xcat ≡ ok tt)
    ↔ IsSupported xcat rocky_9.distro rocky_9.platform rocky_9.platform
validate_support-ok_iff_example = validate_support-ok_iff rocky_9 rocky_9 xcat

abbrev mail : AfPostfix
mail = record {
  enabled = true;
  destination = "example.com" ∷ [];
  profile = relay;
  smtp = some (record { server = "smtp.example.com"; port = 587; sasl_login = none });
  cert_file = "/etc/cert";
  key_file = "/etc/key";
}

mail_section-IsRestored_example :
    (made : Option MailSystem) × (fill_mail "head" "example.com" mail none ≡ ok made)
    × (postfix_section made blank_file.postfix ≡ mail)
mail_section-IsRestored_example =
    mail_section-IsRestored "head" "example.com" none blank_file.postfix mail refl
      (omega arith, refl) refl
