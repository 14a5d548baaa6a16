-- ===== src/Cluster/Whole.antt =====
-- `fillData` of src/models/cluster.cpp as a whole: what the cluster has of the answerfile.
use opencattus.Base.{◌≡◌, sym, ap, ◌∙◌, subst, true, some, List, ◌++◌, ok, after}
use opencattus.Enums.{Profile}
use opencattus.Deps.{Deps}
use opencattus.Site.{Site}
use opencattus.AnswerFile as answer
use opencattus.AnswerFile.{AfNetwork}
use opencattus.Connection.{Connection}
use opencattus.Os.{Os}
use opencattus.Machine.{Node}
use opencattus.Network as network
use opencattus.Cluster.{Cluster}
use opencattus.Cluster.Disk.{set_disk_image}
use opencattus.Cluster.DiskTaken.{IsTaken, with_image, set_disk_image-ok_iff}
use opencattus.Cluster.Supported.{IsSupported}
use opencattus.Cluster.Fetched.{management_network, external_network}
use opencattus.Cluster.Networked.{management-IsNetworkOf, external-IsNetworkOf}
use opencattus.Cluster.Attached.{AreAttached, AreNetworksOf, shapes}
use opencattus.Cluster.Configured.{wanted_sections, networks-IsExtended}
use opencattus.Cluster.Settings.{fill_node_os, select_provisioner}
use opencattus.Cluster.Nodes.{fill_nodes}
use opencattus.Cluster.Nodes.Filled.{AreNodesOf, fill_nodes-AreNodesOf}
use opencattus.Cluster.Fill.{fill_settings, fill_networks, fill_provisioner, fill_data}
use opencattus.Base.Text.{after_first}
use opencattus.Cluster.Given.{
  IsNodeOs, fill_node_os-IsNodeOs, IsMailOf, IsGenericOf, passwords_from,
}
use opencattus.Cluster.Finished.{rest-frame, provisioner-frame}
use opencattus.Cluster.Kept.{Settings, others, settings_of, settings_in, IsOfedOf, settings-frame}

module _ (d : Deps) (site : Site d) where
  abbrev wanted : answer.AnswerFile d.Address d.Store → List (Profile × AfNetwork d.Address)
  wanted file = wanted_sections d file

  -- A cluster that was configured from an answerfile.
  pub record IsConfigured (file : answer.AnswerFile d.Address d.Store) (c c' : Cluster d.Address)
      : Type 0 where
    pub image_taken : IsTaken d site file.system.disk_image c.disk_image
    pub ofed_given : IsOfedOf d file.ofed.enabled file.ofed c'.ofed
    pub settings_given :
        settings_of c' ≡ settings_in d file (with_image d site file.system.disk_image c) c'.ofed
    pub networks : List (network.Network d.Address)
    pub networked : AreNetworksOf d site (wanted file) networks
    pub networks_added : shapes d c'.networks ≡ shapes d c.networks ++ shapes d networks
    pub connections : List (Connection d.Address)
    pub attached : AreAttached d site (wanted file) connections
    pub connections_added : c'.headnode.connections ≡ c.headnode.connections ++ connections
    pub provisioner_named : select_provisioner file.system.provisioner ≡ ok c'.provisioner
    pub updated : c'.update_system ≡ true
    pub node_os : Os
    pub node_os_set : c'.compute_node_os ≡ some node_os
    pub node_os_read : IsNodeOs file.system site.host.kernel node_os
    pub supported :
        IsSupported c'.provisioner c.headnode.os.distro c.headnode.os.platform node_os.platform
    pub made : List (Node d.Address)
    pub nodes_made : AreNodesOf d site node_os file.nodes.nodes made
    pub nodes_added : c'.nodes ≡ c.nodes ++ made
    pub mail :
        IsMailOf c'.headnode.hostname
          (after_first "." c'.headnode.fqdn)
          file.postfix
          file.postfix.enabled
          c.mail_system
          c'.mail_system
    pub common : IsGenericOf file.nodes.generic c'.common
    pub passwords : c'.slurm_passwords ≡ passwords_from file.slurm c.slurm_passwords
    pub firewall_kept : c'.firewall ≡ c.firewall
    pub selinux_kept : c'.selinux ≡ c.selinux

  pub fill_data-IsConfigured :
      (file : answer.AnswerFile d.Address d.Store) (c : Cluster d.Address) {c' : Cluster d.Address}
      → fill_data d site file c ≡ ok c'
      → IsConfigured file c c'
  unfolding fill_data
  fill_data-IsConfigured file c {c'} h =
      after (management_network d site file.management) _ h λ m e1 h1.
        after (external_network d site file.external) _ h1 λ e e2 h2.
          after (set_disk_image d site file.system.disk_image c) _ h2 λ c1 e3 h3.
            after (fill_node_os d site file.system) _ h3 λ os e4 h4.
              after (fill_settings d file c1) _ h4 λ c2 e5 h5.
                after (fill_networks d site file m e c2) _ h5 λ c3 e6 h6.
                  after (fill_provisioner d file os c3) _ h6 λ c4 e7 h7.
                    after (fill_nodes d site os file.nodes.nodes c4) _ h7 λ c5 e8 h8.
                      let (taken, disk) =
                        (set_disk_image-ok_iff d site file.system.disk_image c).0 e3 in
                      let (ofed, settings, nets, links, nodes, others_kept) =
                        settings-frame d file c1 e5 in
                      let extended =
                        networks-IsExtended d site file m e c2
                          (management-IsNetworkOf d site file.management e1)
                          (external-IsNetworkOf d site file.external e2) e6 in
                      let (named, supported, installed) = provisioner-frame d file os c3 e7 in
                      let (made, are, filled) =
                        fill_nodes-AreNodesOf d site os file.nodes.nodes c4 e8 in
                      let (last, mail, common, passwords) = rest-frame d file c5 h8 in
                      let kept : settings_of c' ≡ settings_of c2 =
                        ap (λ f. f.0) last
                        ∙ ap settings_of filled
                        ∙ ap settings_of installed
                        ∙ ap settings_of extended.rest_kept in
                      let same_ofed : c'.ofed ≡ c2.ofed = ap (λ s. s.ofed) kept in
                      let same_nets : c'.networks ≡ c3.networks =
                        ap (λ f. f.1) last
                        ∙ ap (λ x. x.networks) filled
                        ∙ ap (λ x. x.networks) installed in
                      let same_links : c'.headnode.connections ≡ c3.headnode.connections =
                        ap (λ f. f.2) last
                        ∙ ap (λ x. x.headnode.connections) filled
                        ∙ ap (λ x. x.headnode.connections) installed in
                      let same_provisioner : c'.provisioner ≡ c4.provisioner =
                        ap (λ f. f.4) last ∙ ap (λ x. x.provisioner) filled in
                      let named_last : settings_of c5 ≡ settings_of c' = sym (ap (λ f. f.0) last) in
                      let before : others d c5 ≡ others d c =
                        ap (others d) filled
                        ∙ ap (others d) installed
                        ∙ ap (others d) extended.rest_kept
                        ∙ others_kept
                        ∙ ap (others d) (sym disk) in
                      let same_os : c3.headnode.os ≡ c.headnode.os =
                        ap (λ x. x.headnode.os) extended.rest_kept
                        ∙ ap (λ s. s.headnode_os) settings
                        ∙ ap (λ x. x.headnode.os) (sym disk) in
                      record {
                        image_taken = taken;
                        ofed_given =
                            subst (IsOfedOf d file.ofed.enabled file.ofed) (sym same_ofed) ofed;
                        settings_given =
                            kept
                            ∙ settings
                            ∙ ap (λ x. settings_in d file x c2.ofed) (sym disk)
                            ∙ ap (settings_in d file (with_image d site file.system.disk_image c))
                                (sym same_ofed);
                        networks = extended.networks;
                        networked = extended.networked;
                        networks_added =
                            ap (shapes d) same_nets
                            ∙ extended.networks_added
                            ∙ ap (λ ns. shapes d ns ++ shapes d extended.networks)
                                (nets ∙ ap (λ x. x.networks) (sym disk));
                        connections = extended.made;
                        attached = extended.attached;
                        connections_added =
                            same_links
                            ∙ extended.connections_added
                            ∙ ap (λ ls. ls ++ extended.made)
                                (links ∙ ap (λ x. x.headnode.connections) (sym disk));
                        provisioner_named = named ∙ ap ok (sym same_provisioner);
                        updated =
                            ap (λ f. f.6) last
                            ∙ ap (λ x. x.update_system) filled
                            ∙ ap (λ x. x.update_system) installed;
                        node_os = os;
                        node_os_set =
                            ap (λ f. f.5) last
                            ∙ ap (λ x. x.compute_node_os) filled
                            ∙ ap (λ x. x.compute_node_os) installed;
                        node_os_read = fill_node_os-IsNodeOs d site file.system e4;
                        mail =
                            subst
                              (λ b.
                                IsMailOf c'.headnode.hostname (after_first "." c'.headnode.fqdn)
                                  file.postfix file.postfix.enabled b c'.mail_system)
                              (ap (λ o. o.0) before)
                              (subst
                                (λ (s : Settings).
                                  IsMailOf s.hostname (after_first "." s.fqdn) file.postfix
                                    file.postfix.enabled c5.mail_system c'.mail_system)
                                named_last mail);
                        common = common;
                        passwords =
                            passwords ∙ ap (passwords_from file.slurm) (ap (λ o. o.1) before);
                        firewall_kept = ap (λ f. f.7) last ∙ ap (λ o. o.2) before;
                        selinux_kept = ap (λ f. f.8) last ∙ ap (λ o. o.3) before;
                        supported =
                            subst
                              (λ p.
                                IsSupported p c.headnode.os.distro c.headnode.os.platform
                                  os.platform)
                              (sym same_provisioner)
                              (subst
                                (λ o. IsSupported c4.provisioner o.distro o.platform os.platform)
                                same_os supported);
                        made = made;
                        nodes_made = are;
                        nodes_added =
                            ap (λ f. f.3) last
                            ∙ ap (λ x. x.nodes) filled
                            ∙ ap (λ ns. ns ++ made)
                                (ap (λ x. x.nodes) installed
                                  ∙ ap (λ x. x.nodes) extended.rest_kept
                                  ∙ nodes
                                  ∙ ap (λ x. x.nodes) (sym disk));
                      }
