-- ===== src/AnswerFile/Accepted.antt =====
-- What holds of an answerfile that `loadOptions` of src/models/answerfile.cpp accepts.
use opencattus.Base.{
  String, ◌≡◌, subst, Bool, true, false, ◌&&◌, if◌then◌else◌, ok, throw_if-eq-ok, after, All,
}
use opencattus.Deps.{Deps}
use opencattus.AnswerFile.{AnswerFile, AfNetwork}
use opencattus.AnswerFile.Checks.{validate_single_queue_system}
use opencattus.AnswerFile.Checks.Gateway.{IsConsistent, load_network-IsConsistent}
use opencattus.AnswerFile.Load.{
  load_network, load_optional_network, load_information, load_time_settings, load_hostname_settings,
  load_system_settings, load_repositories, load_ohpc, load_postfix, load_ofed, load_slurm, load_pbs,
}
use opencattus.AnswerFile.Nodes.{load_nodes, load_options}
use opencattus.AnswerFile.Nodes.Resolved.{IsResolved}
use opencattus.AnswerFile.Nodes.Loaded.{IsInventory, load_nodes-IsInventory}

module _ (d : Deps) where
  optional-IsConsistent :
      (file : d.Store) (section : String) (old network : AfNetwork d.Address)
      → IsConsistent d old
      → load_optional_network d file section old ≡ ok network
      → IsConsistent d network
  unfolding load_optional_network
  optional-IsConsistent file section old network before h = chosen (d.has_group file section) h
    where
      chosen :
          (b : Bool)
          → (if b then load_network d file section old else ok old) ≡ ok network
          → IsConsistent d network
      chosen true h = load_network-IsConsistent d file section old network h
      chosen false h = let same : old ≡ network = cc in subst (IsConsistent d) same before

  single_queue :
      (slurm pbs : Bool) → validate_single_queue_system slurm pbs ≡ ok tt → (slurm && pbs) ≡ false
  unfolding validate_single_queue_system
  single_queue slurm pbs h = throw_if-eq-ok (slurm && pbs) _ h

  -- An answerfile that the program can build a cluster from.
  pub record IsAccepted (af : AnswerFile d.Address d.Store) : Type 0 where
    pub external : IsConsistent d af.external
    pub management : IsConsistent d af.management
    pub service : IsConsistent d af.service
    pub application : IsConsistent d af.application
    pub inventory : IsInventory d af.nodes.nodes
    pub one_queue : (af.slurm.enabled && af.pbs.enabled) ≡ false

  -- `load_options` returns only answerfiles whose four networks are consistent, whose nodes are an
  -- inventory, and which have not both queue systems, when it begins with consistent optional
  -- networks and resolved nodes, as a new answerfile does.
  pub load_options-IsAccepted :
      (dry_run : Bool) (old af : AnswerFile d.Address d.Store)
      → IsConsistent d old.service
      → IsConsistent d old.application
      → All (IsResolved d) old.nodes.nodes
      → load_options d dry_run old ≡ ok af
      → IsAccepted af
  unfolding load_options
  load_options-IsAccepted dry_run old af service_before application_before before h =
      after (load_network d old.keyfile "network_external" old.external) _ h λ external e1 h1.
        after (load_network d old.keyfile "network_management" old.management) _ h1
          λ management e2 h2.
            after (load_optional_network d old.keyfile "network_service" old.service) _ h2
              λ service e3 h3.
                after (load_optional_network d old.keyfile "network_application" old.application) _
                  h3
                  λ application e4 h4.
                    after (load_information d old.keyfile) _ h4 λ information e5 h5.
                      after (load_time_settings d old.keyfile) _ h5 λ time e6 h6.
                        after (load_hostname_settings d old.keyfile) _ h6 λ hostname e7 h7.
                          after (load_system_settings d dry_run old.keyfile old.system) _ h7
                            λ system e8 h8.
                              after (load_repositories d old.keyfile old.repositories) _ h8
                                λ repositories e9 h9.
                                  after (load_ohpc d old.keyfile old.ohpc) _ h9 λ ohpc e10 h10.
                                    after (load_nodes d old.keyfile old.nodes) _ h10
                                      λ nodes e11 h11.
                                        after (load_postfix d old.keyfile old.postfix) _ h11
                                          λ postfix e12 h12.
                                            after (load_ofed d old.keyfile old.ofed) _ h12
                                              λ ofed e13 h13.
                                                after (load_slurm d old.keyfile old.slurm) _ h13
                                                  λ slurm e14 h14.
                                                    after (load_pbs d old.keyfile old.pbs) _ h14
                                                      λ pbs e15 h15.
                                                        after
                                                          (validate_single_queue_system
                                                            slurm.enabled pbs.enabled)
                                                          _ h15
                                                          λ done e16 h16.
                                                            let same : record {
                                                            keyfile = old.keyfile;
                                                            external = external;
                                                            management = management;
                                                            application = application;
                                                            service = service;
                                                            information = information;
                                                            time = time;
                                                            hostname = hostname;
                                                            system = system;
                                                            nodes = nodes;
                                                            postfix = postfix;
                                                            ofed = ofed;
                                                            repositories = repositories;
                                                            ohpc = ohpc;
                                                            slurm = slurm;
                                                            pbs = pbs;
                                                            }
                                                            ≡ af =
                                                            cc in
                                                            subst IsAccepted same (record {
                                                            external =
                                                            load_network-IsConsistent d old.keyfile
                                                            "network_external" old.external external
                                                            e1;
                                                            management =
                                                            load_network-IsConsistent d old.keyfile
                                                            "network_management" old.management
                                                            management e2;
                                                            service =
                                                            optional-IsConsistent old.keyfile
                                                            "network_service" old.service service
                                                            service_before e3;
                                                            application =
                                                            optional-IsConsistent old.keyfile
                                                            "network_application" old.application
                                                            application application_before e4;
                                                            inventory =
                                                            load_nodes-IsInventory d old.keyfile
                                                            old.nodes nodes before e11;
                                                            one_queue =
                                                            single_queue slurm.enabled pbs.enabled
                                                            e16;
                                                            })
