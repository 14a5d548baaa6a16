-- ===== src/AnswerFile/Checks/Topology.antt =====
-- The inventory of nodes: the rounds of `validateNodeInventoryTopology` of src/models/answerfile.cpp,
-- and what holds behind them.
use opencattus.Base.{
  ℕ, suc, String, ◌≡◌, refl, ap, ◌∙◌, subst, inl, Bool, true, false, Option, none, some, List, [],
  ◌∷◌, if◌then◌else◌, ok, ◌>>=◌, >>=-eq-ok, value_or,
}
use opencattus.Base.Text.{◌<>◌, is_empty, lower}
use opencattus.Deps.{Deps}
use opencattus.AnswerFile.{AfNode}
use opencattus.AnswerFile.Checks.{
  Inventory, remember_unique_node_value, remember_hostname, remember_mac, remember_start_ip,
  remember_bmc, owner_label, remember_node, remember_nodes, validate_node_inventory_topology,
}
use opencattus.AnswerFile.Checks.Distinct.{
  DistinctFrom, keys, Noted, remember-Noted, Noted-DistinctFrom, address_text, bmc_text,
  hostnames_of, macs_of, addresses_of,
}

module _ (d : Deps) where
  -- What the address phases change.
  abbrev pub AddressNoted : Inventory → String → Inventory → Type 0
  AddressNoted seen text i =
      Noted (keys seen.all_addresses) text (keys i.all_addresses)
      × (i.hostnames ≡ seen.hostnames)
      × (i.mac_addresses ≡ seen.mac_addresses)

  module _ (owner : String) (seen : Inventory) {seen' : Inventory} where
    pub hostname-Noted :
        (o : Option String)
        → remember_hostname d o owner seen ≡ ok seen'
        → Noted (keys seen.hostnames) (value_or o "") (keys seen'.hostnames)
          × (seen'.mac_addresses ≡ seen.mac_addresses)
          × (seen'.all_addresses ≡ seen.all_addresses)
    unfolding remember_hostname
    hostname-Noted none h =
        let same : seen' ≡ seen = cc in
        (
          inl (refl, ap (λ (i : Inventory). keys i.hostnames) same),
          ap (λ (i : Inventory). i.mac_addresses) same,
          ap (λ (i : Inventory). i.all_addresses) same,
        )
    hostname-Noted (some name) h =
        let (hostnames, e, h1) =
          >>=-eq-ok (remember_unique_node_value seen.hostnames "hostname" name owner) _ h in
        let same : record seen { hostnames = hostnames } ≡ seen' = cc in
        subst
          (λ (i : Inventory).
            Noted (keys seen.hostnames) name (keys i.hostnames)
            × (i.mac_addresses ≡ seen.mac_addresses)
            × (i.all_addresses ≡ seen.all_addresses))
          same (remember-Noted seen.hostnames "hostname" name owner e, refl, refl)

    pub mac-Noted :
        (o : Option String)
        → remember_mac d o owner seen ≡ ok seen'
        → Noted (keys seen.mac_addresses) (lower (value_or o "")) (keys seen'.mac_addresses)
          × (seen'.hostnames ≡ seen.hostnames)
          × (seen'.all_addresses ≡ seen.all_addresses)
    unfolding remember_mac lower
    mac-Noted none h =
        let same : seen' ≡ seen = cc in
        (
          inl (refl, ap (λ (i : Inventory). keys i.mac_addresses) same),
          ap (λ (i : Inventory). i.hostnames) same,
          ap (λ (i : Inventory). i.all_addresses) same,
        )
    mac-Noted (some mac) h =
        let (macs, e, h1) =
          >>=-eq-ok (remember_unique_node_value seen.mac_addresses "mac_address" (lower mac) owner)
            _ h in
        let same : record seen { mac_addresses = macs } ≡ seen' = cc in
        subst
          (λ (i : Inventory).
            Noted (keys seen.mac_addresses) (lower mac) (keys i.mac_addresses)
            × (i.hostnames ≡ seen.hostnames)
            × (i.all_addresses ≡ seen.all_addresses))
          same (remember-Noted seen.mac_addresses "mac_address" (lower mac) owner e, refl, refl)

    unchanged-AddressNoted : seen ≡ seen' → AddressNoted seen "" seen'
    unchanged-AddressNoted same = subst (AddressNoted seen "") same (inl (refl, refl), refl, refl)

    pub start_ip-AddressNoted :
        (o : Option d.Address)
        → remember_start_ip d o owner seen ≡ ok seen'
        → AddressNoted seen (address_text d o) seen'
    unfolding remember_start_ip
    start_ip-AddressNoted none h = unchanged-AddressNoted cc
    start_ip-AddressNoted (some a) h = checked (d.is_unspecified a) h
      where
        text : String
        text = d.address_string a

        checked :
            (b : Bool)
            → (if b
                then ok seen
                else (remember_unique_node_value seen.node_addresses "node_ip" text owner
                    >>= λ nodes.
                        remember_unique_node_value seen.all_addresses "node/BMC address" text
                          (owner <> " node_ip")
                        >>= λ every.
                            ok (record seen { node_addresses = nodes; all_addresses = every })))
              ≡ ok seen'
            → AddressNoted seen (if b then "" else text) seen'
        checked true h = unchanged-AddressNoted cc
        checked false h =
            let (nodes, e, h1) =
              >>=-eq-ok (remember_unique_node_value seen.node_addresses "node_ip" text owner) _ h in
            let (every, e2, h2) =
              >>=-eq-ok
                (remember_unique_node_value seen.all_addresses "node/BMC address" text
                  (owner <> " node_ip"))
                _ h1 in
            let same : record seen { node_addresses = nodes; all_addresses = every } ≡ seen' = cc in
            subst (AddressNoted seen text) same (
              remember-Noted seen.all_addresses "node/BMC address" text (owner <> " node_ip") e2,
              refl,
              refl,
            )

    pub bmc-AddressNoted :
        (o : Option String)
        → remember_bmc d o owner seen ≡ ok seen'
        → AddressNoted seen (value_or o "") seen'
    unfolding remember_bmc
    bmc-AddressNoted none h = unchanged-AddressNoted cc
    bmc-AddressNoted (some bmc) h = checked (is_empty bmc) refl h
      where
        checked :
            (b : Bool)
            → is_empty bmc ≡ b
            → (if b
                then ok seen
                else (remember_unique_node_value seen.bmc_addresses "bmc_address" bmc owner
                    >>= λ bmcs.
                        remember_unique_node_value seen.all_addresses "node/BMC address" bmc
                          (owner <> " bmc_address")
                        >>= λ every.
                            ok (record seen { bmc_addresses = bmcs; all_addresses = every })))
              ≡ ok seen'
            → AddressNoted seen bmc seen'
        checked true blank h =
            let same : seen ≡ seen' = cc in
            subst (AddressNoted seen bmc) same (inl (blank, refl), refl, refl)
        checked false filled h =
            let (bmcs, e, h1) =
              >>=-eq-ok (remember_unique_node_value seen.bmc_addresses "bmc_address" bmc owner) _
                h in
            let (every, e2, h2) =
              >>=-eq-ok
                (remember_unique_node_value seen.all_addresses "node/BMC address" bmc
                  (owner <> " bmc_address"))
                _ h1 in
            let same : record seen { bmc_addresses = bmcs; all_addresses = every } ≡ seen' = cc in
            subst (AddressNoted seen bmc) same (
              remember-Noted seen.all_addresses "node/BMC address" bmc (owner <> " bmc_address") e2,
              refl,
              refl,
            )

  -- The texts of the nodes are new to the inventory and to each other.
  abbrev pub AreNew : Inventory → List (AfNode d.Address) → Type 0
  AreNew seen nodes =
      DistinctFrom (keys seen.hostnames) (hostnames_of d nodes)
      × DistinctFrom (keys seen.mac_addresses) (macs_of d nodes)
      × DistinctFrom (keys seen.all_addresses) (addresses_of d nodes)

  node-AreNew :
      (number : ℕ) (node : AfNode d.Address) (nodes : List (AfNode d.Address)) (seen : Inventory)
      {next : Inventory}
      → remember_node d number node seen ≡ ok next
      → AreNew next nodes
      → AreNew seen (node ∷ nodes)
  unfolding remember_node
  node-AreNew number node nodes seen {next} h (names, macs, addresses) =
      let owner = owner_label d number node in
      let (s1, e1, h1) = >>=-eq-ok (remember_hostname d node.hostname owner seen) _ h in
      let (s2, e2, h2) = >>=-eq-ok (remember_mac d node.mac_address owner s1) _ h1 in
      let (s3, e3, h3) = >>=-eq-ok (remember_start_ip d node.start_ip owner s2) _ h2 in
      let (n1, m1, a1) = hostname-Noted owner seen node.hostname e1 in
      let (n2, o2, a2) = mac-Noted owner s1 node.mac_address e2 in
      let (n3, o3, m3) = start_ip-AddressNoted owner s2 node.start_ip e3 in
      let (n4, o4, m4) = bmc-AddressNoted owner s3 node.bmc_address h3 in
      let names1 = subst (λ x. DistinctFrom (keys x) (hostnames_of d nodes)) (o4 ∙ o3 ∙ o2) names in
      let macs2 = subst (λ x. DistinctFrom (keys x) (macs_of d nodes)) (m4 ∙ m3) macs in
      let all2 =
        Noted-DistinctFrom (bmc_text d node ∷ addresses_of d nodes) n3
          (Noted-DistinctFrom (addresses_of d nodes) n4 addresses) in
      (
        Noted-DistinctFrom (hostnames_of d nodes) n1 names1,
        subst (λ x. DistinctFrom (keys x) (macs_of d (node ∷ nodes))) m1
            (Noted-DistinctFrom (macs_of d nodes) n2 macs2),
        subst (λ x. DistinctFrom (keys x) (addresses_of d (node ∷ nodes))) (a2 ∙ a1) all2,
      )

  nodes-AreNew :
      (number : ℕ) (nodes : List (AfNode d.Address)) (seen : Inventory) {last : Inventory}
      → remember_nodes d number nodes seen ≡ ok last
      → AreNew seen nodes
  unfolding remember_nodes
  nodes-AreNew number [] seen h = (tt, tt, tt)
  nodes-AreNew number (node ∷ nodes) seen h =
      let (next, e, h1) = >>=-eq-ok (remember_node d (suc number) node seen) _ h in
      node-AreNew (suc number) node nodes seen e (nodes-AreNew (suc number) nodes next h1)

  -- Nodes that pass the check have no nonempty hostname twice, no MAC address twice whatever the
  -- case of its letters, and no address twice among the specified node addresses and the nonempty
  -- BMC addresses together.
  pub validate_topology-distinct :
      (nodes : List (AfNode d.Address))
      → validate_node_inventory_topology d nodes ≡ ok tt
      → DistinctFrom [] (hostnames_of d nodes)
        × DistinctFrom [] (macs_of d nodes)
        × DistinctFrom [] (addresses_of d nodes)
  unfolding validate_node_inventory_topology
  validate_topology-distinct nodes h =
      let (last, e, h1) = >>=-eq-ok (remember_nodes d 0 nodes _) _ h in nodes-AreNew 0 nodes _ e
