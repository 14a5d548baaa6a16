-- ===== src/Cluster/Attached.antt =====
-- The networks and connections that the parts of `fillData` of src/models/cluster.cpp add: for each
-- profile one network of the cluster and one connection of the head node, in the same order.
use opencattus.Base.{
  Option, none, String, ◌≡◌, refl, sym, ap, ◌∙◌, subst, some, List, [], ◌∷◌, ◌++◌, ok, after, value,
  Bool-cases, inl, inr,
}
use opencattus.Enums.{Profile, external, management}
use opencattus.Deps.{Deps}
use opencattus.Site.{Site}
use opencattus.AnswerFile.{AfNetwork}
use opencattus.Network as network
use opencattus.Network.Configured.{set_address-eq-ok}
use opencattus.Network.Fetch.{calculate_address}
use opencattus.Connection.{Connection, set_interface, set_address}
use opencattus.Machine.{same_profile}
use opencattus.Cluster.{Cluster}
use opencattus.Cluster.Networks.{
  or_no_network, find_network, get_network, update_network, add_network,
}
use opencattus.Cluster.Networked.{IsNetworkOf}
use opencattus.Cluster.Wired.{
  value-some-eq, IsAttached, connect-profile, numbered-IsAttached, behind-IsAttached,
  fetched-address,
}
use opencattus.Cluster.Attach.{
  connect, mac_unless_empty, address_network, attach, attach_management, ip_or_fetched,
  attach_external, attach_behind,
}

module _ (d : Deps) where
  -- The networks without their addresses.
  abbrev pub shapes : List (network.Network d.Address) → List (network.Network d.Address)
  shapes [] = []
  shapes (n ∷ ns) = record n { address = d.unspecified } ∷ shapes ns

  pub shapes-append :
      (ns ms : List (network.Network d.Address)) → shapes (ns ++ ms) ≡ shapes ns ++ shapes ms
  shapes-append [] ms = refl
  shapes-append (n ∷ ns) ms =
      ap (λ l. record n { address = d.unspecified } ∷ l) (shapes-append ns ms)

  update-shapes :
      (profile : Profile) (address : d.Address) (found : network.Network d.Address)
      (ns : List (network.Network d.Address))
      → find_network profile ns ≡ some found
      → shapes (update_network profile (record found { address = address }) ns) ≡ shapes ns
  unfolding update_network find_network
  update-shapes profile address found [] h = refl
  update-shapes profile address found (n ∷ ns) h =
      elim (Bool-cases (same_profile n.profile profile)) [
        | inl same ↦
            let first : some n ≡ some found = rw same at h in
            let equal : n ≡ found = cc in
            rw same (
              ap
                (λ (x : network.Network d.Address).
                  record x { address = d.unspecified } ∷ shapes ns)
                (sym equal))
        | inr other ↦ rw other (
            ap (λ l. record n { address = d.unspecified } ∷ l)
              (update-shapes profile address found ns (rw other at h)))
      ]

  get_network-find_network :
      (profile : Profile) (c : Cluster d.Address) {found : network.Network d.Address}
      → get_network profile c ≡ ok found
      → find_network profile c.networks ≡ some found
  unfolding get_network
  get_network-find_network profile c {found} h = got (find_network profile c.networks) h
    where
      got :
          (o : Option (network.Network d.Address))
          → or_no_network profile o ≡ ok found
          → o ≡ some found
      got none h = cc
      got (some n) h = cc

module _ (d : Deps) (site : Site d) where
  -- A connection for each profile and section, in the same order.
  abbrev pub AreAttached :
      List (Profile × AfNetwork d.Address) → List (Connection d.Address) → Type 0
  AreAttached [] [] = Unit {0}
  AreAttached ((profile, section) ∷ wanted) (connection ∷ connections) =
      IsAttached d site profile section connection × AreAttached wanted connections
  AreAttached _ _ = ⊥

  -- A network for each profile and section, in the same order.
  abbrev pub AreNetworksOf :
      List (Profile × AfNetwork d.Address) → List (network.Network d.Address) → Type 0
  AreNetworksOf [] [] = Unit {0}
  AreNetworksOf ((profile, section) ∷ wanted) (n ∷ ns) =
      IsNetworkOf d site profile section n × AreNetworksOf wanted ns
  AreNetworksOf _ _ = ⊥

  -- The second cluster is the first with networks and connections of the profiles and sections
  -- added.
  pub record IsExtended (wanted : List (Profile × AfNetwork d.Address)) (c c' : Cluster d.Address)
      : Type 0 where
    pub networks : List (network.Network d.Address)
    pub networked : AreNetworksOf wanted networks
    pub networks_added : shapes d c'.networks ≡ shapes d c.networks ++ shapes d networks
    pub made : List (Connection d.Address)
    pub attached : AreAttached wanted made
    pub connections_added : c'.headnode.connections ≡ c.headnode.connections ++ made
    pub rest_kept : c' ≡ record c {
      networks = c'.networks;
      headnode = record c.headnode { connections = c'.headnode.connections };
    }

  -- What adds a network and a connection of one profile.
  grown-IsExtended :
      (profile : Profile) (section : AfNetwork d.Address) (c : Cluster d.Address)
      (made : network.Network d.Address) (connection : Connection d.Address)
      (ns : List (network.Network d.Address))
      → IsNetworkOf d site profile section made
      → IsAttached d site profile section connection
      → shapes d ns ≡ shapes d (add_network made c).networks
      → IsExtended ((profile, section) ∷ []) c (record c {
        networks = ns;
        headnode = record c.headnode { connections = c.headnode.connections ++ (connection ∷ []) };
      })
  grown-IsExtended profile section c made connection ns e is kept = record {
    networks = made ∷ [];
    networked = (e, tt);
    networks_added = kept ∙ shapes-append d c.networks (made ∷ []);
    made = connection ∷ [];
    attached = (is, tt);
    connections_added = refl;
    rest_kept = refl;
  }

  addressed :
      (profile : Profile) (ip : d.Address) (c : Cluster d.Address) {c' : Cluster d.Address}
      → address_network d site profile ip c ≡ ok c'
      → (ns : List (network.Network d.Address)) × (record c { networks = ns } ≡ c')
        × (shapes d ns ≡ shapes d c.networks)
  unfolding address_network
  addressed profile ip c {c'} h = after (get_network profile c) _ h λ found e1 h1.
      after (calculate_address d site found ip) _ h1 λ address e2 h2.
        after (network.set_address d address found) _ h2 λ changed e3 h3.
          let same : changed ≡ record found { address = address } =
            (set_address-eq-ok d address found e3).1 in
          (
            update_network profile changed c.networks,
            cc,
            ap (λ x. shapes d (update_network profile x c.networks)) same
                ∙ update-shapes d profile address found c.networks
                    (get_network-find_network d profile c e1),
          )

  pub management-IsExtended :
      (made : network.Network d.Address) (section : AfNetwork d.Address) (c : Cluster d.Address)
      {c' : Cluster d.Address}
      → IsNetworkOf d site management section made
      → attach_management d site made section c ≡ ok c'
      → IsExtended ((management, section) ∷ []) c c'
  unfolding attach_management
  management-IsExtended made section c {c'} e h =
      after (connect d site management (add_network made c)) _ h λ blank e1 h1.
        after (value section.con_interface) _ h1 λ interface e2 h2.
          after (set_interface site.release site.interfaces interface blank) _ h2 λ wired e3 h3.
            after (value section.con_ip_addr) _ h3 λ ip e4 h4.
              after (set_address d ip wired) _ h4 λ numbered e5 h5.
                after (mac_unless_empty section.con_mac_addr numbered) _ h5 λ done e6 h6.
                  let same : attach d site done (add_network made c) ≡ c' = cc in
                  subst (IsExtended ((management, section) ∷ []) c) same (
                    grown-IsExtended management section c made done (add_network made c).networks e
                      (numbered-IsAttached d site management section interface ip blank wired
                        numbered (connect-profile d site management (add_network made c) e1)
                        (value-some-eq _ e2) e3 e5 e6 (inl (value-some-eq _ e4)))
                      refl)

  pub external-IsExtended :
      (made : network.Network d.Address) (section : AfNetwork d.Address) (c : Cluster d.Address)
      {c' : Cluster d.Address}
      → IsNetworkOf d site external section made
      → attach_external d site made section c ≡ ok c'
      → IsExtended ((external, section) ∷ []) c c'
  unfolding attach_external
  external-IsExtended made section c {c'} e h =
      after (connect d site external (add_network made c)) _ h λ blank e1 h1.
        after (value section.con_interface) _ h1 λ interface e2 h2.
          after (set_interface site.release site.interfaces interface blank) _ h2 λ wired e3 h3.
            after (ip_or_fetched d site section.con_ip_addr interface) _ h3 λ ip e4 h4.
              after (set_address d ip wired) _ h4 λ numbered e5 h5.
                after (address_network d site external ip (add_network made c)) _ h5 λ known e6 h6.
                  after (mac_unless_empty section.con_mac_addr numbered) _ h6 λ done e7 h7.
                    let (ns, networks, kept) = addressed external ip (add_network made c) e6 in
                    let same : attach d site done known ≡ c' = cc in
                    subst (IsExtended ((external, section) ∷ []) c)
                      (ap (attach d site done) networks ∙ same)
                      (grown-IsExtended external section c made done ns e
                        (numbered-IsAttached d site external section interface ip blank wired
                          numbered (connect-profile d site external (add_network made c) e1)
                          (value-some-eq _ e2) e3 e5 e7
                          (fetched-address d site section.con_ip_addr interface e4))
                        kept)

  pub behind-IsExtended :
      (profile : Profile) (made : network.Network d.Address) (interface : String)
      (section : AfNetwork d.Address) (c : Cluster d.Address) {c' : Cluster d.Address}
      → IsNetworkOf d site profile section made
      → section.con_interface ≡ some interface
      → attach_behind d site profile made interface section c ≡ ok c'
      → IsExtended ((profile, section) ∷ []) c c'
  unfolding attach_behind
  behind-IsExtended profile made interface section c {c'} e given h =
      after (connect d site profile (add_network made c)) _ h λ blank e1 h1.
        after (mac_unless_empty section.con_mac_addr blank) _ h1 λ marked e2 h2.
          after (set_interface site.release site.interfaces interface marked) _ h2 λ wired e3 h3.
            after (value section.con_ip_addr) _ h3 λ ip e4 h4.
              after (set_address d ip wired) _ h4 λ done e5 h5.
                after (address_network d site profile ip (add_network made c)) _ h5 λ known e6 h6.
                  let (ns, networks, kept) = addressed profile ip (add_network made c) e6 in
                  let same : attach d site done known ≡ c' = cc in
                  subst (IsExtended ((profile, section) ∷ []) c)
                    (ap (attach d site done) networks ∙ same)
                    (grown-IsExtended profile section c made done ns e
                      (behind-IsAttached d site profile section interface ip blank marked wired
                        (connect-profile d site profile (add_network made c) e1) given e2 e3 e5
                        (value-some-eq _ e4))
                      kept)
