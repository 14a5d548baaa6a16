-- ===== src/Cluster/Nodes/Filled.antt =====
-- What the loop over the nodes in `fillData` of src/models/cluster.cpp makes of each node.
use opencattus.Base.{
  ℕ, String, ◌≡◌, refl, sym, ap, ◌∙◌, subst, ◌⊎◌, inl, inr, Bool, false, Option, none, some, List,
  [], ◌∷◌, ◌++◌, Result, ok, err, >>=-eq-ok, after, value, Error, arith, invalid_argument,
}
use mathlib.Core.List.{append-nil, append_assoc}
use opencattus.Base.Text.{is_empty, lower}
use opencattus.Base.Stoul.{stoul}
use opencattus.Enums.{management}
use opencattus.Deps.{Deps}
use opencattus.Site.{Site}
use opencattus.AnswerFile.{AfNode}
use opencattus.Os.{Os}
use opencattus.Os.Probe.{host_os}
use opencattus.Connection.{Connection, validate_mac, set_mac, set_address}
use opencattus.Network.Configured.{IsHostAddress}
use opencattus.Connection.Configured.{set_address-eq-ok, set_mac-eq-ok}
use opencattus.Cluster.Wired.{connect-profile}
use opencattus.Connection.Formats.{IsMac, IsMac-validate_mac}
use opencattus.Machine.{Bmc, Node}
use opencattus.Cluster.{Cluster, add_node}
use opencattus.Cluster.Attach.{connect}
use opencattus.Cluster.Nodes.{
  catch_invalid, convert_or_error, convert_field, accept_mac, fill_mac, require_bmc_field,
  fill_bmc_fields, fill_bmc_at, fill_bmc, node_cpu, made_node, fill_node, fill_nodes,
}

-- A field that holds a text which `std::stoul` reads as the number.
abbrev pub IsRead : Option String → ℕ → Type 0
IsRead field n = (written : String) × (field ≡ some written) × (stoul written ≡ ok n)

-- A field that holds a text which is not empty.
abbrev pub IsFilledWith : Option String → String → Type 0
IsFilledWith field s = (field ≡ some s) × (is_empty s ≡ false)

value-eq-ok : {A : Type 0} (o : Option A) {a : A} → value o ≡ ok a → o ≡ some a
value-eq-ok none h = cc
value-eq-ok (some a) h = cc

convert_or_error-eq-ok :
    (field written : String) {n : ℕ} → convert_or_error field written ≡ ok n → stoul written ≡ ok n
unfolding convert_or_error
convert_or_error-eq-ok field written {n} h = caught (stoul written) _ h
  where
    caught : (r : Result ℕ) (e : Error) → catch_invalid e r ≡ ok n → r ≡ ok n
    caught (ok m) e h = h
    caught (err (invalid_argument m)) e h = cc
    caught (err other) e h = h

convert_field-IsRead :
    (field : String) (o : Option String) {n : ℕ} → convert_field field o ≡ ok n → IsRead o n
convert_field-IsRead field o h =
    after (value o) _ h
      λ written e h1. (written, value-eq-ok o e, convert_or_error-eq-ok field written h1)

-- The MAC address in the field, which the node has in lower case.
abbrev pub IsMacOf : Option String → String → Type 0
IsMacOf field mac =
    (written : String) × (field ≡ some written) × IsMac written × (mac ≡ lower written)

fill_mac-IsMacOf :
    (name : String) (o : Option String) {mac : String} → fill_mac name o ≡ ok mac → IsMacOf o mac
unfolding fill_mac
fill_mac-IsMacOf name none h = cc
fill_mac-IsMacOf name (some written) {mac} h = checked (validate_mac written) refl h
  where
    checked :
        (r : Result Bool)
        → validate_mac written ≡ r
        → accept_mac written name r ≡ ok mac
        → IsMacOf (some written) mac
    checked (ok valid) e h = (written, refl, IsMac-validate_mac written e, cc)
    checked (err error) e h = cc

require-IsFilledWith :
    (field : String) (o : Option String) {s : String}
    → require_bmc_field field o ≡ ok s
    → IsFilledWith o s
unfolding require_bmc_field
require-IsFilledWith field none h = cc
require-IsFilledWith field (some written) h = (ground arith, ground arith)

-- The controller of a node: none where the node has no address for it, and else with the values of
-- the node's fields.
abbrev pub IsBmcOf : {Address : Type 0} → AfNode Address → Option Bmc → Type 0
IsBmcOf node none = (node.bmc_address ≡ none) ⊎ (node.bmc_address ≡ some "")
IsBmcOf node (some bmc) =
    IsFilledWith node.bmc_address bmc.address
    × IsFilledWith node.bmc_username bmc.username
    × IsFilledWith node.bmc_password bmc.password
    × IsRead node.bmc_serialport bmc.serial_port
    × IsRead node.bmc_serialspeed bmc.serial_speed

module _ {Address : Type 0} where
  fill_bmc_fields-IsBmcOf :
      (node : AfNode Address) {bmc : Option Bmc} → fill_bmc_fields node ≡ ok bmc → IsBmcOf node bmc
  fill_bmc_fields-IsBmcOf node {bmc} h =
      after (require_bmc_field "bmc_address" node.bmc_address) _ h λ address e1 h1.
        after (require_bmc_field "bmc_username" node.bmc_username) _ h1 λ username e2 h2.
          after (require_bmc_field "bmc_password" node.bmc_password) _ h2 λ password e3 h3.
            after (require_bmc_field "bmc_serialport" node.bmc_serialport) _ h3 λ port_text e4 h4.
              after (convert_or_error "bmc_serialport" port_text) _ h4 λ port e5 h5.
                after (require_bmc_field "bmc_serialspeed" node.bmc_serialspeed) _ h5
                  λ speed_text e6 h6.
                    after (convert_or_error "bmc_serialspeed" speed_text) _ h6 λ speed e7 h7.
                      let same : some (record {
                        address = address;
                        username = username;
                        password = password;
                        serial_port = port;
                        serial_speed = speed;
                      })
                          ≡ bmc =
                        cc in
                      subst (IsBmcOf node) same (
                        require-IsFilledWith _ node.bmc_address e1,
                        require-IsFilledWith _ node.bmc_username e2,
                        require-IsFilledWith _ node.bmc_password e3,
                        (
                          port_text,
                          (require-IsFilledWith _ node.bmc_serialport e4).0,
                          convert_or_error-eq-ok _ port_text e5,
                        ),
                        (
                          speed_text,
                          (require-IsFilledWith _ node.bmc_serialspeed e6).0,
                          convert_or_error-eq-ok _ speed_text e7,
                        ),
                      )

  fill_bmc-IsBmcOf :
      (node : AfNode Address) {bmc : Option Bmc} → fill_bmc node ≡ ok bmc → IsBmcOf node bmc
  unfolding fill_bmc
  fill_bmc-IsBmcOf node {bmc} h = at_address node.bmc_address refl h
    where
      nothing :
          (node.bmc_address ≡ none) ⊎ (node.bmc_address ≡ some "")
          → ok none ≡ ok bmc
          → IsBmcOf node bmc
      nothing e h = let same : none ≡ bmc = cc in subst (IsBmcOf node) same e

      at_address :
          (o : Option String)
          → node.bmc_address ≡ o
          → fill_bmc_at o node ≡ ok bmc
          → IsBmcOf node bmc
      at_address none e h = nothing (inl e) h
      at_address (some String.[]) e h = nothing (inr e) h
      at_address (some (String.◌∷◌ c s)) e h = fill_bmc_fields-IsBmcOf node h

module _ (d : Deps) where
  -- The one connection of a node: to the management network, with its MAC and its start address.
  pub record IsWired (mac : String) (start : d.Address) (connections : List (Connection d.Address))
      : Type 0 where
    pub connection : Connection d.Address
    pub only : connections ≡ connection ∷ []
    pub managed : connection.network.profile ≡ management
    pub mac_set : connection.mac ≡ some (lower mac)
    pub addressed : connection.address ≡ start
    pub usable : IsHostAddress d start

  -- A node of the cluster that was made of a node of the answerfile.
  pub record IsNodeOf (os : Os) (source : AfNode d.Address) (node : Node d.Address) : Type 0 where
    pub named : source.hostname ≡ some node.server.hostname
    pub start : d.Address
    pub started : (source.start_ip ≡ some start) × (node.node_start_ip ≡ some start)
    pub mac : IsMacOf source.mac_address node.mac_address
    pub password :
        (p : String) × (source.root_password ≡ some p) × (node.node_root_password ≡ some p)
    pub sockets : IsRead source.sockets node.server.cpu.sockets
    pub cores : IsRead source.cores_per_socket node.server.cpu.cores_per_socket
    pub threads : IsRead source.threads_per_core node.server.cpu.threads_per_core
    pub controller : IsBmcOf source node.server.bmc
    pub runs : node.server.os ≡ os
    pub wired : IsWired node.mac_address start node.server.connections

  set_mac-mac :
      (mac : String) (c : Connection d.Address) {c' : Connection d.Address}
      → set_mac mac c ≡ ok c'
      → c'.mac ≡ some (lower mac)
  unfolding set_mac
  set_mac-mac mac c {c'} h = after (validate_mac mac) _ h λ valid e h1.
      let same : record c { mac = some (lower mac) } ≡ c' = cc in ap (λ x. x.mac) (sym same)

  wire :
      (mac : String) (start : d.Address) (blank marked addressed : Connection d.Address)
      → blank.network.profile ≡ management
      → set_mac mac blank ≡ ok marked
      → set_address d start marked ≡ ok addressed
      → IsWired mac start (addressed ∷ [])
  wire mac start blank marked addressed points e1 e2 =
      let (usable, same) = set_address-eq-ok d start marked e2 in
      record {
        connection = addressed;
        only = refl;
        managed =
            ap (λ c. c.network.profile) same
            ∙ ap (λ c. c.network.profile) (set_mac-eq-ok mac blank e1).1
            ∙ points;
        mac_set = ap (λ c. c.mac) same ∙ set_mac-mac mac blank e1;
        addressed = ap (λ c. c.address) same;
        usable = usable;
      }

module _ (d : Deps) (site : Site d) where
  pub fill_node-IsNodeOf :
      (os : Os) (cluster : Cluster d.Address) (source : AfNode d.Address) {node : Node d.Address}
      → fill_node d site os cluster source ≡ ok node
      → IsNodeOf d os source node
  unfolding fill_node
  fill_node-IsNodeOf os cluster source {node} h = after (value source.hostname) _ h λ name e1 h1.
      after (connect d site management cluster) _ h1 λ blank e2 h2.
        after (host_os d site.host) _ h2 λ probed e3 h3.
          after (value source.start_ip) _ h3 λ start e4 h4.
            after (fill_mac name source.mac_address) _ h4 λ mac e5 h5.
              after (value source.root_password) _ h5 λ password e6 h6.
                after (convert_field "sockets" source.sockets) _ h6 λ sockets e7 h7.
                  after (convert_field "cores_per_socket" source.cores_per_socket) _ h7
                    λ cores e8 h8.
                      after (convert_field "threads_per_core" source.threads_per_core) _ h8
                        λ threads e9 h9. after (fill_bmc source) _ h9 λ bmc e10 h10.
                          after (set_mac mac blank) _ h10 λ marked e11 h11.
                            after (set_address d start marked) _ h11 λ addressed e12 h12.
                              let same : made_node os probed name start mac password
                                    (node_cpu sockets cores threads) bmc addressed
                                  ≡ node =
                                cc in
                              subst (IsNodeOf d os source) same (record {
                                named = value-eq-ok source.hostname e1;
                                start = start;
                                started = (value-eq-ok source.start_ip e4, refl);
                                mac = fill_mac-IsMacOf name source.mac_address e5;
                                password = (password, value-eq-ok source.root_password e6, refl);
                                sockets = convert_field-IsRead "sockets" source.sockets e7;
                                cores =
                                    convert_field-IsRead "cores_per_socket" source.cores_per_socket
                                      e8;
                                threads =
                                    convert_field-IsRead "threads_per_core" source.threads_per_core
                                      e9;
                                controller = fill_bmc-IsBmcOf source e10;
                                runs = refl;
                                wired =
                                    wire d mac start blank marked addressed
                                      (connect-profile d site management cluster e2).0 e11 e12;
                              })

  -- The nodes of two lists, one by one.
  pub data AreNodesOf (os : Os) : List (AfNode d.Address) → List (Node d.Address) → Type 0 where
    no_nodes : AreNodesOf os [] []
    next_node :
        {source : AfNode d.Address} {sources : List (AfNode d.Address)} {node : Node d.Address}
        {nodes : List (Node d.Address)}
        → IsNodeOf d os source node
        → AreNodesOf os sources nodes
        → AreNodesOf os (source ∷ sources) (node ∷ nodes)

  -- The loop over the nodes of an answerfile returns a cluster that differs from the one before in
  -- its nodes alone: behind those already there, one for each node of the answerfile, in order,
  -- with that node's name, address, password, processor counts, controller and system, its MAC
  -- address in lower case, and one connection, to the management network, with that MAC address
  -- and an address other than 0.0.0.0.
  pub fill_nodes-AreNodesOf :
      (os : Os) (sources : List (AfNode d.Address)) (cluster : Cluster d.Address)
      {cluster' : Cluster d.Address}
      → fill_nodes d site os sources cluster ≡ ok cluster'
      → (made : List (Node d.Address)) × AreNodesOf os sources made
        × (cluster' ≡ record cluster { nodes = cluster.nodes ++ made })
  unfolding fill_nodes
  fill_nodes-AreNodesOf os [] cluster {cluster'} h =
      let same : cluster ≡ cluster' = cc in
      (
        [],
        no_nodes,
        sym same ∙ ap (λ ns. record cluster { nodes = ns }) (sym (append-nil cluster.nodes)),
      )
  fill_nodes-AreNodesOf os (source ∷ sources) cluster {cluster'} h =
      let (node, e, h1) = >>=-eq-ok (fill_node d site os cluster source) _ h in
      let (made, are, same) = fill_nodes-AreNodesOf os sources (add_node node cluster) h1 in
      (
        node ∷ made,
        next_node (fill_node-IsNodeOf os cluster source e) are,
        same
            ∙ ap (λ ns. record cluster { nodes = ns })
                (append_assoc cluster.nodes (node ∷ []) made),
      )
