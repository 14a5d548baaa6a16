-- ===== src/AnswerFile/Nodes/Loaded.antt =====
-- The nodes that `loadNodes` of src/models/answerfile.cpp returns.
use opencattus.Base.{
  ℕ, String, ◌≡◌, subst, Bool, true, false, Option, none, some, List, [], ◌∷◌, ◌++◌, if◌then◌else◌,
  ltb, All, All-append, Result, ok, err, ◌>>=◌, >>=-eq-ok, Message, invalid_argument,
}
use opencattus.Deps.{Deps}
use opencattus.KeyFile.{list_all_prefixed_entries}
use opencattus.AnswerFile.{AfNode, AfNodes}
use opencattus.AnswerFile.Checks.{validate_node_inventory_topology}
use opencattus.AnswerFile.Checks.Distinct.{DistinctFrom, hostnames_of, macs_of, addresses_of}
use opencattus.AnswerFile.Checks.Topology.{validate_topology-distinct}
use opencattus.AnswerFile.Load.{rethrow_invalid}
use opencattus.AnswerFile.Nodes.{
  load_node, node_counter, name_node, load_numbered_node, load_node_sections, load_nodes,
}
use opencattus.AnswerFile.Nodes.Resolved.{IsResolved, validate_node-IsResolved}

rethrow-eq-ok :
    {A : Type 0} (longer : Message → Message) (m : Result A) {a : A}
    → rethrow_invalid longer m ≡ ok a
    → m ≡ ok a
rethrow-eq-ok longer (ok b) h = h
rethrow-eq-ok longer (err (invalid_argument m)) h = cc
rethrow-eq-ok longer (err other) h = h

module _ (d : Deps) where
  numbered-IsResolved :
      (file : d.Store) (generic : AfNode d.Address) (section : String) (counter : ℕ)
      {node : AfNode d.Address}
      → load_numbered_node d file generic section counter ≡ ok node
      → IsResolved d node
  unfolding load_numbered_node
  numbered-IsResolved file generic section counter {node} h =
      let (own, e, h1) = >>=-eq-ok (load_node d file section) _ h in
      let (named, e2, h2) = >>=-eq-ok (name_node d generic counter own) _ h1 in
      (validate_node-IsResolved d generic named node section (rethrow-eq-ok _ _ h2)).0

  sections-IsResolved :
      (file : d.Store) (generic : AfNode d.Address) (sections : List String)
      (nodes : List (AfNode d.Address))
      → load_node_sections d file generic sections ≡ ok nodes
      → All (IsResolved d) nodes
  unfolding load_node_sections
  sections-IsResolved file generic [] nodes h =
      let same : [] ≡ nodes = cc in subst (All (IsResolved d)) same tt
  sections-IsResolved file generic (section ∷ sections) nodes h =
      chosen (λ others e. sections-IsResolved file generic sections others e)
        (node_counter d section) h
    where
      positive :
          ((others : List (AfNode d.Address))
            → load_node_sections d file generic sections ≡ ok others
            → All (IsResolved d) others)
          → (b : Bool) (counter : ℕ)
          → (if b
              then (load_numbered_node d file generic section counter >>= λ node.
                  load_node_sections d file generic sections >>= λ others. ok (node ∷ others))
              else load_node_sections d file generic sections)
            ≡ ok nodes
          → All (IsResolved d) nodes
      positive again false counter h = again nodes h
      positive again true counter h =
          let (node, e, h1) = >>=-eq-ok (load_numbered_node d file generic section counter) _ h in
          let (others, e2, h2) = >>=-eq-ok (load_node_sections d file generic sections) _ h1 in
          let same : (node ∷ others) ≡ nodes = cc in
          subst (All (IsResolved d)) same
            (numbered-IsResolved file generic section counter e, again others e2)

      chosen :
          ((others : List (AfNode d.Address))
            → load_node_sections d file generic sections ≡ ok others
            → All (IsResolved d) others)
          → (o : Option ℕ)
          → (elim o [
            | none ↦ load_node_sections d file generic sections
            | some counter ↦
                if ltb 0 counter
                then (load_numbered_node d file generic section counter >>= λ node.
                    load_node_sections d file generic sections >>= λ others. ok (node ∷ others))
                else load_node_sections d file generic sections
          ])
            ≡ ok nodes
          → All (IsResolved d) nodes
      chosen again none h = again nodes h
      chosen again (some counter) h = positive again (ltb 0 counter) counter h

  -- An inventory whose nodes are resolved and differ in hostname, MAC address and addresses.
  pub record IsInventory (nodes : List (AfNode d.Address)) : Type 0 where
    pub resolved : All (IsResolved d) nodes
    pub hostnames_distinct : DistinctFrom [] (hostnames_of d nodes)
    pub macs_distinct : DistinctFrom [] (macs_of d nodes)
    pub addresses_distinct : DistinctFrom [] (addresses_of d nodes)

  -- Every list of nodes that `load_nodes` returns, when those already there are resolved, is an
  -- inventory: each node is resolved, and no nonempty hostname, MAC address in any case, or node or
  -- BMC address occurs twice.
  pub load_nodes-IsInventory :
      (file : d.Store) (old nodes : AfNodes d.Address)
      → All (IsResolved d) old.nodes
      → load_nodes d file old ≡ ok nodes
      → IsInventory nodes.nodes
  unfolding load_nodes
  load_nodes-IsInventory file old nodes before h =
      let (generic, e, h1) = >>=-eq-ok (load_node d file "node") _ h in
      let (loaded, e2, h2) =
        >>=-eq-ok (load_node_sections d file generic (list_all_prefixed_entries d file "node.")) _
          h1 in
      let (done, e3, h3) =
        >>=-eq-ok (validate_node_inventory_topology d (old.nodes ++ loaded)) _ h2 in
      let (names, macs, addresses) = validate_topology-distinct d (old.nodes ++ loaded) e3 in
      let same : record { generic = some generic; nodes = old.nodes ++ loaded } ≡ nodes = cc in
      subst (λ (n : AfNodes d.Address). IsInventory n.nodes) same
        (record {
          resolved = All-append (IsResolved d) old.nodes loaded before (
              sections-IsResolved file generic (list_all_prefixed_entries d file "node.") loaded
                e2);
          hostnames_distinct = names;
          macs_distinct = macs;
          addresses_distinct = addresses;
        })
