-- ===== src/Cluster/Fill.antt =====
-- `fillData` of src/models/cluster.cpp: a cluster configured from an answerfile.
use opencattus.Base.{true, some, Result, ok, ◌>>=◌, ◌>>◌}
use opencattus.Deps.{Deps}
use opencattus.Site.{Site}
use opencattus.AnswerFile as answer
use opencattus.Os.{Os}
use opencattus.Network as network
use opencattus.Machine.Names.{get_domain_name}
use opencattus.Cluster.{Cluster}
use opencattus.Cluster.Disk.{set_disk_image}
use opencattus.Cluster.Support.{validate_provisioner_support}
use opencattus.Cluster.Fetched.{management_network, external_network}
use opencattus.Cluster.Attach.{
  attach_management, attach_external, attach_service_on, attach_application_on,
}
use opencattus.Cluster.Settings.{
  fill_node_os, fill_names, fill_ofed, fill_queue, select_provisioner, fill_mail, fill_generic,
  fill_passwords,
}
use opencattus.Cluster.Nodes.{fill_nodes}

module _ (d : Deps) where
  -- The part up to the queue system.
  unfoldable pub fill_settings :
      answer.AnswerFile d.Address d.Store → Cluster d.Address → Result (Cluster d.Address)
  fill_settings file cluster = do
    with_ofed ← fill_ofed d file.ofed (fill_names file.information file.time file.hostname cluster)
    ok (record with_ofed {
      enabled_repositories = file.repositories.enabled;
      enabled_openhpc_bundles = file.ohpc.enabled;
      queue_system = fill_queue file.pbs file.slurm;
    })

  -- The provisioner, and the system of the nodes.
  unfoldable pub fill_provisioner :
      answer.AnswerFile d.Address d.Store → Os → Cluster d.Address → Result (Cluster d.Address)
  fill_provisioner file node_os cluster = do
    provisioner ← select_provisioner file.system.provisioner
    validate_provisioner_support cluster.headnode.os node_os provisioner
    ok (record cluster {
      update_system = true;
      provisioner = provisioner;
      compute_node_os = some node_os;
    })

  -- The part behind the nodes.
  unfoldable pub fill_rest :
      answer.AnswerFile d.Address d.Store → Cluster d.Address → Result (Cluster d.Address)
  fill_rest file cluster = do
    mail ←
        fill_mail cluster.headnode.hostname (get_domain_name cluster.headnode) file.postfix
          cluster.mail_system
    common ← fill_generic file.nodes.generic
    ok (fill_passwords file.slurm (record cluster { mail_system = mail; common = common }))

module _ (d : Deps) (site : Site d) where
  -- The networks with the connections of the head node.
  unfoldable pub fill_networks :
      answer.AnswerFile d.Address d.Store
      → network.Network d.Address
      → network.Network d.Address
      → Cluster d.Address
      → Result (Cluster d.Address)
  fill_networks file management external cluster = do
    with_management ← attach_management d site management file.management cluster
    with_external ← attach_external d site external file.external with_management
    with_service ← attach_service_on d site file.service.con_interface file.service with_external
    attach_application_on d site file.application.con_interface file.application with_service

  -- `Cluster::fillData`
  unfoldable pub fill_data :
      answer.AnswerFile d.Address d.Store → Cluster d.Address → Result (Cluster d.Address)
  unfolding fill_settings fill_networks fill_provisioner fill_rest
  fill_data file cluster = do
    management ← management_network d site file.management
    external ← external_network d site file.external
    with_disk ← set_disk_image d site file.system.disk_image cluster
    node_os ← fill_node_os d site file.system
    with_settings ← fill_settings d file with_disk
    with_networks ← fill_networks file management external with_settings
    with_provisioner ← fill_provisioner d file node_os with_networks
    with_nodes ← fill_nodes d site node_os file.nodes.nodes with_provisioner
    fill_rest d file with_nodes
