-- ===== src/Cluster/Nodes/Returning.antt =====
-- The loop over the nodes in `fillData` of src/models/cluster.cpp does not fail for the nodes that
-- the loader of the answerfile returns, where each has a name, a MAC address and an address.
use opencattus.Base.{
  String, ◌≡◌, refl, subst, inl, inr, Bool, true, false, Option, none, some, List, [], ◌∷◌, All,
  Result, ok, ◌>>=◌, begin, value, arith,
}
use opencattus.Base.Text.{is_empty, lower}
use opencattus.Base.Decimal.{decimal}
use opencattus.Base.Stoul.{stoul, stoul-digits}
use opencattus.Enums.{management}
use opencattus.Deps.{Deps}
use opencattus.Site.{Site}
use opencattus.AnswerFile.{AfNode}
use opencattus.AnswerFile.Checks.Unsigned.{IsUnsigned, IsUnsignedOpt}
use opencattus.AnswerFile.Nodes.{has_text}
use opencattus.AnswerFile.Nodes.Resolved.{IsResolved, IsBmcComplete}
use opencattus.Os.{Os}
use opencattus.Os.Probe.{host_os}
use opencattus.Network.Configured.{IsHostAddress}
use opencattus.Connection.{Connection, validate_mac, set_mac, set_address}
use opencattus.Connection.Formats.{IsMac, validate_mac-ok_iff}
use opencattus.Connection.Lower.{IsMac-lower}
use opencattus.Cluster.{Cluster, add_node}
use opencattus.Cluster.Attach.{connect}
use opencattus.Cluster.Networks.{get_network}
use opencattus.Cluster.Nodes.{
  convert_or_error, convert_field, fill_mac, require_bmc_field, fill_bmc_fields, fill_bmc_at,
  fill_bmc, fill_node, fill_nodes,
}

-- A result that is not an exception.
abbrev pub Returns {ℓ} : {A : Type ℓ} → Result A → Type ℓ
Returns {A = A} r = (a : A) × (r ≡ ok a)

-- Where the first part returns and the rest returns on any value, the whole returns.
returning {ℓ κ} :
    {A : Type ℓ} {B : Type κ} (first : Result A) (next : A → Result B)
    → Returns first
    → ((a : A) → first ≡ ok a → Returns (next a))
    → Returns (first >>= next)
returning first next (a, e) rest = let (b, e') = rest a e in (b, begin first next e e')

text-Returns :
    (o : Option String) → has_text o ≡ true → (s : String) × (o ≡ some s) × (is_empty s ≡ false)
text-Returns none h = cc
text-Returns (some s) h = (s, refl, ground arith)

value-Returns : (o : Option String) → has_text o ≡ true → Returns (value o)
value-Returns none h = cc
value-Returns (some s) h = (s, refl)

stoul-IsUnsigned : (s : String) (z : Bool) → IsUnsigned s z → stoul s ≡ ok (decimal 0 s)
stoul-IsUnsigned s z u = stoul-digits s u.filled u.digits u.in_range

convert-Returns :
    (field s : String) (z : Bool) → IsUnsigned s z → Returns (convert_or_error field s)
unfolding convert_or_error
convert-Returns field s z u = (decimal 0 s, rw (stoul-IsUnsigned s z u) refl)

field-Returns :
    (field : String) (o : Option String) (z : Bool)
    → has_text o ≡ true
    → IsUnsignedOpt o z
    → Returns (convert_field field o)
field-Returns field none z h u = cc
field-Returns field (some s) z h u = convert-Returns field s z u

require-Returns :
    (field : String) (o : Option String) → has_text o ≡ true → Returns (require_bmc_field field o)
unfolding require_bmc_field
require-Returns field none h = cc
require-Returns field (some s) h = (s, ground arith)

required-number :
    (field : String) (o : Option String) (z : Bool)
    → IsUnsignedOpt o z
    → (s : String) → require_bmc_field field o ≡ ok s
    → Returns (convert_or_error field s)
unfolding require_bmc_field
required-number field none z u s h = cc
required-number field (some t) z u s h =
    let same : t ≡ s = ground arith in
    convert-Returns field s z (subst (λ x. IsUnsigned x z) same u)

fill_mac-lower :
    (name : String) (o : Option String) (mac : String)
    → o ≡ some mac
    → IsMac mac
    → fill_mac name o ≡ ok (lower mac)
unfolding fill_mac
fill_mac-lower name o mac e m = simp (e, (validate_mac-ok_iff mac).1 m)

value-some : {A : Type 0} (o : Option A) (a : A) → o ≡ some a → value o ≡ ok a
value-some o a e = rw e refl

ok-equal : {A : Type 0} {r : Result A} {a b : A} → r ≡ ok a → r ≡ ok b → a ≡ b
ok-equal h k = cc

module _ (d : Deps) where
  fields-Returns :
      (node : AfNode d.Address)
      → has_text node.bmc_address ≡ true
      → has_text node.bmc_username ≡ true
      → has_text node.bmc_password ≡ true
      → has_text node.bmc_serialport ≡ true
      → has_text node.bmc_serialspeed ≡ true
      → IsUnsignedOpt node.bmc_serialport true
      → IsUnsignedOpt node.bmc_serialspeed false
      → Returns (fill_bmc_fields node)
  fields-Returns node a u p t v port speed =
      returning (require_bmc_field "bmc_address" node.bmc_address) _ (require-Returns _ _ a) λ _ _.
        returning (require_bmc_field "bmc_username" node.bmc_username) _ (require-Returns _ _ u)
          λ _ _.
            returning (require_bmc_field "bmc_password" node.bmc_password) _ (require-Returns _ _ p)
              λ _ _.
                returning (require_bmc_field "bmc_serialport" node.bmc_serialport) _
                  (require-Returns _ _ t)
                  λ port_text e.
                    returning (convert_or_error "bmc_serialport" port_text) _
                      (required-number _ _ true port port_text e)
                      λ _ _.
                        returning (require_bmc_field "bmc_serialspeed" node.bmc_serialspeed) _
                          (require-Returns _ _ v)
                          λ speed_text e'.
                            returning (convert_or_error "bmc_serialspeed" speed_text) _
                              (required-number _ _ false speed speed_text e') λ _ _. (_, refl)

  bmc-Returns : (node : AfNode d.Address) → IsResolved d node → Returns (fill_bmc node)
  unfolding fill_bmc
  bmc-Returns node r = complete r.bmc
    where
      at_address :
          (o : Option String)
          → has_text o ≡ true
          → Returns (fill_bmc_fields node)
          → Returns (fill_bmc_at o node)
      at_address none h f = cc
      at_address (some String.[]) h f = cc
      at_address (some (String.◌∷◌ c s)) h f = f

      complete : IsBmcComplete d node → Returns (fill_bmc_at node.bmc_address node)
      complete (inl (a, u, p, t, v)) =
          at_address node.bmc_address a
            (fields-Returns node a u p t v r.serialport_number r.serialspeed_number)
      complete (inr e) = rw e (none, refl)

  -- A node with a name, a MAC address, and an address other than 0.0.0.0.
  pub record IsReady (node : AfNode d.Address) : Type 0 where
    pub resolved : IsResolved d node
    pub named : (name : String) × (node.hostname ≡ some name)
    pub has_mac : (mac : String) × (node.mac_address ≡ some mac) × IsMac mac
    pub has_start : (start : d.Address) × (node.start_ip ≡ some start) × IsHostAddress d start

  set_mac-Returns : (mac : String) (c : Connection d.Address) → IsMac mac → Returns (set_mac mac c)
  unfolding set_mac
  set_mac-Returns mac c m = (_, begin (validate_mac mac) _ ((validate_mac-ok_iff mac).1 m) refl)

  set_address-Returns :
      (zero start : d.Address) (c : Connection d.Address)
      → d.make_address "0.0.0.0" ≡ some zero
      → IsHostAddress d start
      → Returns (set_address d start c)
  unfolding set_address
  set_address-Returns zero start c parsed usable =
      (record c { address = start }, simp (parsed, usable zero parsed))

module _ (d : Deps) (site : Site d) (probed : Os) (zero : d.Address)
    (probes : host_os d site.host ≡ ok probed) (parses : d.make_address "0.0.0.0" ≡ some zero) where
  ready-Returns :
      (os : Os) (cluster : Cluster d.Address) (blank : Connection d.Address)
      (node : AfNode d.Address)
      → connect d site management cluster ≡ ok blank
      → IsReady d node
      → Returns (fill_node d site os cluster node)
  unfolding fill_node
  ready-Returns os cluster blank node connects r =
      let (name, named) = r.named in
      let (mac, has_mac, is_mac) = r.has_mac in
      let (start, has_start, usable) = r.has_start in
      let resolved = r.resolved in
      returning (value node.hostname) _ (name, value-some _ _ named)
        λ name' _.
          returning (connect d site management cluster) _ (blank, connects)
            λ blank' _.
              returning (host_os d site.host) _ (probed, probes)
                λ _ _.
                  returning (value node.start_ip) _ (start, value-some _ _ has_start)
                    λ start' e4.
                      returning (fill_mac name' node.mac_address) _
                        (lower mac, fill_mac-lower name' node.mac_address mac has_mac is_mac)
                        λ mac' e5.
                          returning (value node.root_password) _
                            (value-Returns _ resolved.has_password)
                            λ _ _.
                              returning (convert_field "sockets" node.sockets) _
                                (field-Returns _ _ false resolved.has_sockets
                                  resolved.sockets_number)
                                λ _ _.
                                  returning (convert_field "cores_per_socket" node.cores_per_socket)
                                    _
                                    (field-Returns _ _ false resolved.has_cores
                                      resolved.cores_number)
                                    λ _ _.
                                      returning
                                        (convert_field "threads_per_core" node.threads_per_core) _
                                        (field-Returns _ _ false resolved.has_threads
                                          resolved.threads_number)
                                        λ _ _.
                                          returning (fill_bmc node) _ (bmc-Returns d node resolved)
                                            λ _ _.
                                              returning (set_mac mac' blank') _
                                                (set_mac-Returns d mac' blank'
                                                  (lowered name' mac' e5))
                                                λ marked _.
                                                  returning (set_address d start' marked) _
                                                    (set_address-Returns d zero start' marked parses
                                                      (started start' e4))
                                                    λ _ _. (_, refl)
    where
      lowered : (name mac' : String) → fill_mac name node.mac_address ≡ ok mac' → IsMac mac'
      lowered name mac' e =
          let (mac, has_mac, is_mac) = r.has_mac in
          subst IsMac (ok-equal (fill_mac-lower name node.mac_address mac has_mac is_mac) e)
            (IsMac-lower mac is_mac)

      started : (start' : d.Address) → value node.start_ip ≡ ok start' → IsHostAddress d start'
      started start' e =
          let (start, has_start, usable) = r.has_start in
          subst (IsHostAddress d) (ok-equal (value-some node.start_ip start has_start) e) usable

  -- Where the program's own system is a supported one, "0.0.0.0" is an address, and the cluster
  -- has a management network, the loop over the nodes returns for nodes that the loader of the
  -- answerfile has resolved and that have a name, a MAC address, and an address but 0.0.0.0.
  pub fill_nodes-Returns :
      (os : Os) (nodes : List (AfNode d.Address)) (cluster : Cluster d.Address)
      (blank : Connection d.Address)
      → connect d site management cluster ≡ ok blank
      → All (IsReady d) nodes
      → Returns (fill_nodes d site os nodes cluster)
  unfolding fill_nodes get_network opencattus.Cluster.Networks.network_pointer
  fill_nodes-Returns os [] cluster blank connects ready = (cluster, refl)
  fill_nodes-Returns os (node ∷ nodes) cluster blank connects (r, rs) =
      returning (fill_node d site os cluster node) _
        (ready-Returns os cluster blank node connects r)
        λ made _. fill_nodes-Returns os nodes (add_node made cluster) blank connects rs
