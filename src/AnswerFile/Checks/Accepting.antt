-- ===== src/AnswerFile/Checks/Accepting.antt =====
-- The inventories that `validateNodeInventoryTopology` of src/models/answerfile.cpp accepts: all
-- whose texts are distinct.
use opencattus.Base.{
  ℕ, suc, String, ◌≡◌, refl, sym, ◌∙◌, subst, ◌↔◌, ◌⊎◌, inl, inr, true, false, Option, none, some,
  List, [], ◌∷◌, arith, ok, ◌>>=◌, Bool-cases, value_or, begin,
}
use opencattus.Base.Text.{◌<>◌, is_empty, lower}
use opencattus.Deps.{Deps}
use opencattus.Network.Cidr.{find_text}
use opencattus.AnswerFile.{AfNode}
use opencattus.AnswerFile.Checks.{
  Seen, Inventory, remember_unique_node_value, remember_hostname, remember_mac, remember_start_ip,
  remember_bmc, owner_label, remember_node, remember_nodes, validate_node_inventory_topology,
}
use opencattus.AnswerFile.Checks.Distinct.{
  member, DistinctFrom, keys, Noted, address_text, bmc_text, hostname_text, mac_text, hostnames_of,
  macs_of, addresses_of,
}
use opencattus.AnswerFile.Checks.Topology.{
  AreNew, hostname-Noted, mac-Noted, start_ip-AddressNoted, bmc-AddressNoted,
  validate_topology-distinct,
}

-- A text that a round can take: an empty one, or one that is not among the keys.
abbrev Free : List String → String → Type 0
Free ks v = (is_empty v ≡ true) ⊎ ((is_empty v ≡ false) × (member v ks ≡ false))

member-find_text :
    (v : String) (seen : Seen) → member v (keys seen) ≡ false → find_text v seen ≡ none
member-find_text v [] h = refl
member-find_text v ((k, owner) ∷ seen) h = ground (arith, member-find_text v seen)

module _ (seen : Seen) (field v owner : String) where
  passed : is_empty v ≡ true → remember_unique_node_value seen field v owner ≡ ok seen
  unfolding remember_unique_node_value
  passed blank = rw blank

  added :
      is_empty v ≡ false
      → member v (keys seen) ≡ false
      → remember_unique_node_value seen field v owner ≡ ok ((v, owner) ∷ seen)
  unfolding remember_unique_node_value
  added filled new = rw (filled, member-find_text v seen new)

  remembered :
      Free (keys seen) v
      → (seen' : Seen) × (remember_unique_node_value seen field v owner ≡ ok seen')
  remembered (inl blank) = (seen, passed blank)
  remembered (inr (filled, new)) = ((v, owner) ∷ seen, added filled new)

DistinctFrom-Free :
    (ks : List String) (v : String) (vs : List String) → DistinctFrom ks (v ∷ vs) → Free ks v
DistinctFrom-Free ks v vs (inl (blank, h)) = inl blank
DistinctFrom-Free ks v vs (inr (filled, new, h)) = inr (filled, new)

DistinctFrom-Noted :
    {ks ks' : List String} {v : String} (vs : List String)
    → DistinctFrom ks (v ∷ vs)
    → Noted ks v ks'
    → DistinctFrom ks' vs
DistinctFrom-Noted vs (inl (blank, h)) (inl (b, same)) = subst (λ x. DistinctFrom x vs) (sym same) h
DistinctFrom-Noted vs (inl (blank, h)) (inr (filled, new, more)) = absurd cc
DistinctFrom-Noted vs (inr (filled, new, h)) (inl (blank, same)) = absurd cc
DistinctFrom-Noted vs (inr (filled, new, h)) (inr (f, n, more)) =
    subst (λ x. DistinctFrom x vs) (sym more) h

-- The maps of node and BMC addresses hold no key that the common map does not hold.
abbrev Within : Inventory → Type 0
Within seen =
    (v : String)
    → member v (keys seen.all_addresses) ≡ false
    → (member v (keys seen.node_addresses) ≡ false) × (member v (keys seen.bmc_addresses) ≡ false)

module _ (d : Deps) where
  module _ (owner : String) (seen : Inventory) (w : Within seen) where
    hostname_passes :
        (o : Option String)
        → Free (keys seen.hostnames) (value_or o "")
        → (next : Inventory) × (remember_hostname d o owner seen ≡ ok next) × Within next
    unfolding remember_hostname
    hostname_passes none f = (seen, refl, w)
    hostname_passes (some name) f =
        let (names, e) = remembered seen.hostnames "hostname" name owner f in
        (record seen { hostnames = names }, rw e, w)

    mac_passes :
        (o : Option String)
        → Free (keys seen.mac_addresses) (lower (value_or o ""))
        → (next : Inventory) × (remember_mac d o owner seen ≡ ok next) × Within next
    unfolding remember_mac
    mac_passes none f = (seen, refl, w)
    mac_passes (some mac) f =
        let (macs, e) = remembered seen.mac_addresses "mac_address" (lower mac) owner f in
        (record seen { mac_addresses = macs }, rw e, w)

    text_passes :
        (text : String)
        → Free (keys seen.all_addresses) text
        → (next : Inventory) × ((remember_unique_node_value seen.node_addresses "node_ip" text owner
              >>= λ nodes.
                  remember_unique_node_value seen.all_addresses "node/BMC address" text
                    (owner <> " node_ip")
                  >>= λ every. ok (record seen { node_addresses = nodes; all_addresses = every }))
            ≡ ok next)
          × Within next
    text_passes text (inl blank) = (
      seen,
      simp (
        passed seen.node_addresses "node_ip" text owner blank,
        passed seen.all_addresses "node/BMC address" text (owner <> " node_ip") blank,
      ),
      w,
    )
    text_passes text (inr (filled, new)) = (
      record seen {
        node_addresses = (text, owner) ∷ seen.node_addresses;
        all_addresses = (text, owner <> " node_ip") ∷ seen.all_addresses;
      },
      simp (
        added seen.node_addresses "node_ip" text owner filled (w text new).0,
        added seen.all_addresses "node/BMC address" text (owner <> " node_ip") filled new,
      ),
      λ v h. ground (arith, w v),
    )

    start_ip_passes :
        (o : Option d.Address)
        → Free (keys seen.all_addresses) (address_text d o)
        → (next : Inventory) × (remember_start_ip d o owner seen ≡ ok next) × Within next
    unfolding remember_start_ip
    start_ip_passes none f = (seen, refl, w)
    start_ip_passes (some a) f = elim (Bool-cases (d.is_unspecified a)) [
      | inl blank ↦ (seen, rw blank, w)
      | inr given ↦
          let (next, e, inside) = text_passes (d.address_string a) (rw given at f) in
          (next, rw given e, inside)
    ]

    bmc_passes :
        (o : Option String)
        → Free (keys seen.all_addresses) (value_or o "")
        → (next : Inventory) × (remember_bmc d o owner seen ≡ ok next) × Within next
    unfolding remember_bmc
    bmc_passes none f = (seen, refl, w)
    bmc_passes (some bmc) (inl blank) = (seen, rw blank, w)
    bmc_passes (some bmc) (inr (filled, new)) = (
      record seen {
        bmc_addresses = (bmc, owner) ∷ seen.bmc_addresses;
        all_addresses = (bmc, owner <> " bmc_address") ∷ seen.all_addresses;
      },
      simp (
        filled,
        added seen.bmc_addresses "bmc_address" bmc owner filled (w bmc new).1,
        added seen.all_addresses "node/BMC address" bmc (owner <> " bmc_address") filled new,
      ),
      λ v h. ground (arith, w v),
    )

  node_passes :
      (number : ℕ) (node : AfNode d.Address) (nodes : List (AfNode d.Address)) (seen : Inventory)
      → Within seen
      → AreNew d seen (node ∷ nodes)
      → (next : Inventory) × (remember_node d number node seen ≡ ok next)
        × Within next
        × AreNew d next nodes
  unfolding remember_node
  node_passes number node nodes seen w (names, macs, addresses) =
      let owner = owner_label d number node in
      let (s1, e1, w1) =
        hostname_passes owner seen w node.hostname
          (DistinctFrom-Free _ (hostname_text d node) (hostnames_of d nodes) names) in
      let (n1, m1, a1) = hostname-Noted d owner seen node.hostname e1 in
      let macs1 = subst (λ x. DistinctFrom (keys x) (macs_of d (node ∷ nodes))) (sym m1) macs in
      let (s2, e2, w2) =
        mac_passes owner s1 w1 node.mac_address
          (DistinctFrom-Free _ (mac_text d node) (macs_of d nodes) macs1) in
      let (n2, o2, a2) = mac-Noted d owner s1 node.mac_address e2 in
      let all2 =
        subst (λ x. DistinctFrom (keys x) (addresses_of d (node ∷ nodes))) (sym (a2 ∙ a1))
          addresses in
      let (s3, e3, w3) = start_ip_passes owner s2 w2 node.start_ip (
        DistinctFrom-Free _ (address_text d node.start_ip) (bmc_text d node ∷ addresses_of d nodes)
          all2) in
      let (n3, o3, m3) = start_ip-AddressNoted d owner s2 node.start_ip e3 in
      let all3 = DistinctFrom-Noted (bmc_text d node ∷ addresses_of d nodes) all2 n3 in
      let (s4, e4, w4) =
        bmc_passes owner s3 w3 node.bmc_address
          (DistinctFrom-Free _ (bmc_text d node) (addresses_of d nodes) all3) in
      let (n4, o4, m4) = bmc-AddressNoted d owner s3 node.bmc_address e4 in
      (
        s4,
        begin (remember_hostname d node.hostname owner seen) _ e1 (
            begin (remember_mac d node.mac_address owner s1) _ e2
              (begin (remember_start_ip d node.start_ip owner s2) _ e3 e4)),
        w4,
        (
          subst (λ x. DistinctFrom (keys x) (hostnames_of d nodes)) (sym (o4 ∙ o3 ∙ o2))
              (DistinctFrom-Noted (hostnames_of d nodes) names n1),
          subst (λ x. DistinctFrom (keys x) (macs_of d nodes)) (sym (m4 ∙ m3))
              (DistinctFrom-Noted (macs_of d nodes) macs1 n2),
          DistinctFrom-Noted (addresses_of d nodes) all3 n4,
        ),
      )

  nodes_pass :
      (number : ℕ) (nodes : List (AfNode d.Address)) (seen : Inventory)
      → Within seen
      → AreNew d seen nodes
      → (last : Inventory) × (remember_nodes d number nodes seen ≡ ok last)
  unfolding remember_nodes
  nodes_pass number [] seen w new = (seen, refl)
  nodes_pass number (node ∷ nodes) seen w new =
      let (next, e, inside, others) = node_passes (suc number) node nodes seen w new in
      let (last, e2) = nodes_pass (suc number) nodes next inside others in
      (last, begin (remember_node d (suc number) node seen) _ e e2)

  distinct-validate_topology :
      (nodes : List (AfNode d.Address))
      → DistinctFrom [] (hostnames_of d nodes)
        × DistinctFrom [] (macs_of d nodes)
        × DistinctFrom [] (addresses_of d nodes)
      → validate_node_inventory_topology d nodes ≡ ok tt
  unfolding validate_node_inventory_topology
  distinct-validate_topology nodes distinct =
      let (last, e) = nodes_pass 0 nodes _ (λ v h. (refl, refl)) distinct in
      begin (remember_nodes d 0 nodes _) _ e refl

  -- The inventory check passes exactly when no nonempty hostname occurs twice, no MAC address in
  -- any case of its letters, and no address among the specified node addresses and the nonempty
  -- BMC addresses together.
  pub validate_topology-ok_iff :
      (nodes : List (AfNode d.Address))
      → (validate_node_inventory_topology d nodes ≡ ok tt) ↔ (
          DistinctFrom [] (hostnames_of d nodes)
          × DistinctFrom [] (macs_of d nodes)
          × DistinctFrom [] (addresses_of d nodes))
  validate_topology-ok_iff nodes =
      (validate_topology-distinct d nodes, distinct-validate_topology nodes)
