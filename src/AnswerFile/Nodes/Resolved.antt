-- ===== src/AnswerFile/Nodes/Resolved.antt =====
-- What `validateNode` of src/models/answerfile.cpp returns: the node with the gaps filled from the
-- generic node, every required field there, and the BMC fields all there or none used.
use opencattus.Base.{
  String, ◌≡◌, refl, ◌⊎◌, inl, inr, true, false, ◌||◌, Option, some, none, if◌then◌else◌, arith,
  Result, ok, Bool-cases, >>=-eq-ok, ◌∙◌,
}
use opencattus.Deps.{Deps}
use opencattus.AnswerFile.{AfNode}
use opencattus.AnswerFile.Checks.{validate_resolved_node_scalars}
use opencattus.AnswerFile.Checks.Unsigned.{IsUnsignedOpt, validate_unsigned-IsUnsignedOpt}
use opencattus.AnswerFile.Nodes.{
  has_text, clear_if_empty, has_address, validate_text_attribute, validate_address_attribute,
  validate_bmc, validate_node,
}

-- The node's own text, or else the generic one.
abbrev pub own_or : Option String → Option String → Option String
own_or own generic = if has_text own then own else generic

validate_text-eq-ok :
    (section attribute : String) (own generic : Option String) (r : Option String)
    → validate_text_attribute section attribute own generic ≡ ok r
    → (r ≡ own_or own generic) × (has_text r ≡ true)
unfolding validate_text_attribute
validate_text-eq-ok section attribute own generic r e = elim (Bool-cases (has_text own)) [
  | inl mine ↦ (ground arith, ground arith)
  | inr missing ↦ (ground arith, ground arith)
]

module _ (d : Deps) where
  abbrev pub own_or_address : Option d.Address → Option d.Address → Option d.Address
  own_or_address own generic = if has_address d own then own else generic

  validate_address-eq-ok :
      (section attribute : String) (own generic : Option d.Address) (r : Option d.Address)
      → validate_address_attribute d section attribute own generic ≡ ok r
      → (r ≡ own_or_address own generic) × (has_address d r ≡ true)
  unfolding validate_address_attribute
  validate_address-eq-ok section attribute own generic r e = elim (Bool-cases (has_address d own)) [
    | inl mine ↦ (ground arith, ground arith)
    | inr missing ↦ (ground arith, ground arith)
  ]

  -- The BMC fields are all there, or there is no address.
  abbrev pub IsBmcComplete : AfNode d.Address → Type 0
  IsBmcComplete node =
      ((has_text node.bmc_address ≡ true)
        × (has_text node.bmc_username ≡ true)
        × (has_text node.bmc_password ≡ true)
        × (has_text node.bmc_serialport ≡ true)
        × (has_text node.bmc_serialspeed ≡ true))
      ⊎ (node.bmc_address ≡ none)

  pub record IsResolved (node : AfNode d.Address) : Type 0 where
    pub addressed : has_address d node.start_ip ≡ true
    pub has_password : has_text node.root_password ≡ true
    pub has_sockets : has_text node.sockets ≡ true
    pub has_cores : has_text node.cores_per_socket ≡ true
    pub has_threads : has_text node.threads_per_core ≡ true
    pub bmc : IsBmcComplete node
    pub sockets_number : IsUnsignedOpt node.sockets false
    pub cores_number : IsUnsignedOpt node.cores_per_socket false
    pub threads_number : IsUnsignedOpt node.threads_per_core false
    pub serialport_number : IsUnsignedOpt node.bmc_serialport true
    pub serialspeed_number : IsUnsignedOpt node.bmc_serialspeed false

  -- Which of its fields the result takes from the node and which from the generic node.
  pub record IsFilled (generic node filled : AfNode d.Address) : Type 0 where
    pub start_ip_from : filled.start_ip ≡ own_or_address node.start_ip generic.start_ip
    pub password_from : filled.root_password ≡ own_or node.root_password generic.root_password
    pub sockets_from : filled.sockets ≡ own_or node.sockets generic.sockets
    pub cores_from : filled.cores_per_socket ≡ own_or node.cores_per_socket generic.cores_per_socket
    pub threads_from :
        filled.threads_per_core ≡ own_or node.threads_per_core generic.threads_per_core
    pub same_hostname : filled.hostname ≡ node.hostname
    pub same_mac : filled.mac_address ≡ node.mac_address

  record BmcDone (node filled : AfNode d.Address) : Type 0 where
    complete : IsBmcComplete filled
    start_ip_kept : filled.start_ip ≡ node.start_ip
    password_kept : filled.root_password ≡ node.root_password
    sockets_kept : filled.sockets ≡ node.sockets
    cores_kept : filled.cores_per_socket ≡ node.cores_per_socket
    threads_kept : filled.threads_per_core ≡ node.threads_per_core
    hostname_kept : filled.hostname ≡ node.hostname
    mac_kept : filled.mac_address ≡ node.mac_address

  clear-none : (o : Option String) → has_text o ≡ false → clear_if_empty o ≡ none
  clear-none none h = refl
  clear-none (some v) h = ground arith

  bmc_filled :
      (generic node filled : AfNode d.Address)
      → (has_text node.bmc_address || has_text generic.bmc_address) ≡ true
      → validate_bmc d generic node ≡ ok filled
      → BmcDone node filled
  unfolding validate_bmc
  bmc_filled generic node filled wanted e =
      let (a, ea, e1) = >>=-eq-ok _ _ (rw wanted at e) in
      let (u, eu, e2) = >>=-eq-ok _ _ e1 in
      let (p, ep, e3) = >>=-eq-ok _ _ e2 in
      let (t, et, e4) = >>=-eq-ok _ _ e3 in
      let (v, ev, e5) = >>=-eq-ok _ _ e4 in
      let ha = (validate_text-eq-ok _ _ _ _ _ ea).1 in
      let hu = (validate_text-eq-ok _ _ _ _ _ eu).1 in
      let hp = (validate_text-eq-ok _ _ _ _ _ ep).1 in
      let ht = (validate_text-eq-ok _ _ _ _ _ et).1 in
      let hv = (validate_text-eq-ok _ _ _ _ _ ev).1 in
      record {
        complete = inl (ground arith, ground arith, ground arith, ground arith, ground arith);
        start_ip_kept = cc;
        password_kept = cc;
        sockets_kept = cc;
        cores_kept = cc;
        threads_kept = cc;
        hostname_kept = cc;
        mac_kept = cc;
      }

  bmc_unused :
      (generic node filled : AfNode d.Address)
      → (has_text node.bmc_address || has_text generic.bmc_address) ≡ false
      → validate_bmc d generic node ≡ ok filled
      → BmcDone node filled
  unfolding validate_bmc
  bmc_unused generic node filled unused e =
      let none_given : has_text node.bmc_address ≡ false = ground arith in
      let cleared = clear-none node.bmc_address none_given in
      record {
        complete = inr (ground arith);
        start_ip_kept = ground arith;
        password_kept = ground arith;
        sockets_kept = ground arith;
        cores_kept = ground arith;
        threads_kept = ground arith;
        hostname_kept = ground arith;
        mac_kept = ground arith;
      }

  validate_bmc-BmcDone :
      (generic node filled : AfNode d.Address)
      → validate_bmc d generic node ≡ ok filled
      → BmcDone node filled
  validate_bmc-BmcDone generic node filled e =
      elim (Bool-cases (has_text node.bmc_address || has_text generic.bmc_address)) [
        | inl wanted ↦ bmc_filled generic node filled wanted e
        | inr unused ↦ bmc_unused generic node filled unused e
      ]

  scalars_checked :
      (section : String) (node : AfNode d.Address)
      → validate_resolved_node_scalars d section node ≡ ok tt
      → IsUnsignedOpt node.sockets false
        × IsUnsignedOpt node.cores_per_socket false
        × IsUnsignedOpt node.threads_per_core false
        × IsUnsignedOpt node.bmc_serialport true
        × IsUnsignedOpt node.bmc_serialspeed false
  unfolding validate_resolved_node_scalars
  scalars_checked section node e =
      let (_, e1, r1) = >>=-eq-ok _ _ e in
      let (_, e2, r2) = >>=-eq-ok _ _ r1 in
      let (_, e3, r3) = >>=-eq-ok _ _ r2 in
      let (_, e4, e5) = >>=-eq-ok _ _ r3 in
      (
        validate_unsigned-IsUnsignedOpt _ _ _ _ e1,
        validate_unsigned-IsUnsignedOpt _ _ _ _ e2,
        validate_unsigned-IsUnsignedOpt _ _ _ _ e3,
        validate_unsigned-IsUnsignedOpt _ _ _ _ e4,
        validate_unsigned-IsUnsignedOpt _ _ _ _ e5,
      )

  finish :
      (generic mid out filled : AfNode d.Address) (section : String) (u : Unit {0})
      → validate_bmc d generic mid ≡ ok out
      → validate_resolved_node_scalars d section out ≡ ok u
      → ◌≡◌ {A = Result (AfNode d.Address)} (ok out) (ok filled)
      → BmcDone mid filled
        × IsUnsignedOpt filled.sockets false
        × IsUnsignedOpt filled.cores_per_socket false
        × IsUnsignedOpt filled.threads_per_core false
        × IsUnsignedOpt filled.bmc_serialport true
        × IsUnsignedOpt filled.bmc_serialspeed false
  finish generic mid out filled section u e6 e7 e8 =
      let same : out ≡ filled = cc in
      let (n1, n2, n3, n4, n5) = scalars_checked section filled (rw same at e7) in
      (validate_bmc-BmcDone generic mid filled (rw same at e6), n1, n2, n3, n4, n5)

  -- A node that passes `validateNode` has an address, a password and numeric processor counts,
  -- has its BMC fields all filled or no BMC address, has numeric serial settings where it has
  -- any, takes each required field from itself where it has one and else from the generic node,
  -- and keeps its hostname and MAC address.
  pub validate_node-IsResolved :
      (generic node filled : AfNode d.Address) (section : String)
      → validate_node d generic node section ≡ ok filled
      → IsResolved filled × IsFilled generic node filled
  unfolding validate_node
  validate_node-IsResolved generic node filled section e =
      let (ip, e1, r1) = >>=-eq-ok _ _ e in
      let (pw, e2, r2) = >>=-eq-ok _ _ r1 in
      let (so, e3, r3) = >>=-eq-ok _ _ r2 in
      let (co, e4, r4) = >>=-eq-ok _ _ r3 in
      let (th, e5, r5) = >>=-eq-ok _ _ r4 in
      let (out, e6, r6) = >>=-eq-ok _ _ r5 in
      let (u, e7, e8) = >>=-eq-ok _ _ r6 in
      let mid : AfNode d.Address = record node {
        start_ip = ip;
        root_password = pw;
        sockets = so;
        cores_per_socket = co;
        threads_per_core = th;
      } in
      let (done, n1, n2, n3, n4, n5) = finish generic mid out filled section u e6 e7 e8 in
      let (ip_from, ip_there) = validate_address-eq-ok _ _ _ _ _ e1 in
      let (pw_from, pw_there) = validate_text-eq-ok _ _ _ _ _ e2 in
      let (so_from, so_there) = validate_text-eq-ok _ _ _ _ _ e3 in
      let (co_from, co_there) = validate_text-eq-ok _ _ _ _ _ e4 in
      let (th_from, th_there) = validate_text-eq-ok _ _ _ _ _ e5 in
      (
        record {
          addressed = rw done.start_ip_kept ip_there;
          has_password = rw done.password_kept pw_there;
          has_sockets = rw done.sockets_kept so_there;
          has_cores = rw done.cores_kept co_there;
          has_threads = rw done.threads_kept th_there;
          bmc = done.complete;
          sockets_number = n1;
          cores_number = n2;
          threads_number = n3;
          serialport_number = n4;
          serialspeed_number = n5;
        },
        record {
          start_ip_from = done.start_ip_kept ∙ ip_from;
          password_from = done.password_kept ∙ pw_from;
          sockets_from = done.sockets_kept ∙ so_from;
          cores_from = done.cores_kept ∙ co_from;
          threads_from = done.threads_kept ∙ th_from;
          same_hostname = done.hostname_kept;
          same_mac = done.mac_kept;
        },
      )
