-- ===== src/Connection/Configured.antt =====
-- What holds of a connection that the constructor of src/connection.cpp for given members makes.
use opencattus.Base.{
  ℕ, ◌≤◌, ◌≢◌, ◌⊎◌, inl, inr, eq_iff, String, ◌≡◌, refl, sym, ap, ◌∙◌, subst, Bool, true, false,
  Option, none, some, List, if◌then◌else◌, ok, err, Error, >>=-eq-ok, arith, str_eq,
}
use opencattus.Base.Text.{lower}
use opencattus.Enums.{NetworkType, ethernet, infiniband}
use opencattus.Deps.{Deps}
use opencattus.Network.{make}
use opencattus.Network.Configured.{catch_system-eq-ok, make-eq-ok, IsHostAddress}
use opencattus.Connection.{
  Connection, NetworkRef, validate_mac, minimum_mtu, set_interface, set_mac, set_mtu, set_address,
  set_address_text, new_configured_connection, set_interface_opt, set_mac_opt, default_mtu,
  blank_connection, lists,
}
use opencattus.Connection.Formats.{IsMac, IsMac-validate_mac}

module _ {Address : Type 0} where
  pub set_mac-eq-ok :
      (mac : String) (c : Connection Address) {c' : Connection Address}
      → set_mac mac c ≡ ok c'
      → IsMac mac × (c' ≡ record c { mac = some (lower mac) })
  unfolding set_mac
  set_mac-eq-ok mac c h =
      let (valid, v, h1) = >>=-eq-ok (validate_mac mac) _ h in (IsMac-validate_mac mac v, cc)

  set_mtu-eq-ok :
      (mtu : ℕ) (c : Connection Address) {c' : Connection Address}
      → set_mtu mtu c ≡ ok c'
      → (minimum_mtu c.network.kind ≤ mtu) × (c' ≡ record c { mtu = mtu })
  unfolding set_mtu
  set_mtu-eq-ok mtu c h = (ground arith, ground arith)

  -- The MTU that a constructor leaves: the standard one, or that of Infiniband.
  pub default_mtu-eq-ok :
      (c : Connection Address) {c' : Connection Address}
      → c.mtu ≡ 1500
      → default_mtu c ≡ ok c'
      → (minimum_mtu c'.network.kind ≤ c'.mtu) × (c' ≡ record c { mtu = c'.mtu })
  default_mtu-eq-ok c {c'} standard h = kinds c.network.kind refl h
    where
      kinds :
          (kind : NetworkType)
          → c.network.kind ≡ kind
          → (elim kind [ ethernet ↦ ok c | infiniband ↦ set_mtu 2044 c ]) ≡ ok c'
          → (minimum_mtu c'.network.kind ≤ c'.mtu) × (c' ≡ record c { mtu = c'.mtu })
      kinds ethernet k h =
          let same : c ≡ c' = cc in
          subst (λ x. (minimum_mtu x.network.kind ≤ x.mtu) × (x ≡ record c { mtu = x.mtu })) same
            (rw (k, standard) (omega arith), refl)
      kinds infiniband k h =
          let (fits, same) = set_mtu-eq-ok 2044 c h in
          subst (λ x. (minimum_mtu x.network.kind ≤ x.mtu) × (x ≡ record c { mtu = x.mtu }))
            (sym same) (fits, refl)

module _ (d : Deps) where
  pub set_address-eq-ok :
      (a : d.Address) (c : Connection d.Address) {c' : Connection d.Address}
      → set_address d a c ≡ ok c'
      → IsHostAddress d a × (c' ≡ record c { address = a })
  unfolding set_address
  set_address-eq-ok a c {c'} h =
      let (z, zero, h2) = >>=-eq-ok (make d "0.0.0.0") _ h in
      let (apart, same) = checked (d.same_address a z) _ (record c { address = a }) h2 in
      (
        (λ u there.
            let equal : z ≡ u = some_injective (sym (make-eq-ok d "0.0.0.0" zero) ∙ there) in
            subst (λ x. d.same_address a x ≡ false) equal apart),
        same,
      )
    where
      some_injective : {x y : d.Address} → some x ≡ some y → x ≡ y
      some_injective e = cc

      checked :
          (b : Bool) (error : Error) (set : Connection d.Address)
          → (if b then err error else ok set) ≡ ok c'
          → (b ≡ false) × (c' ≡ set)
      checked true error set h = cc
      checked false error set h = (refl, cc)

  set_address_text-eq-ok :
      (ip : String) (c : Connection d.Address) {c' : Connection d.Address}
      → set_address_text d ip c ≡ ok c'
      → (a : d.Address) × (d.make_address ip ≡ some a)
        × IsHostAddress d a
        × (c' ≡ record c { address = a })
  unfolding set_address_text
  set_address_text-eq-ok ip c h =
      let (a, e, h1) = >>=-eq-ok (make d ip) _ (catch_system-eq-ok _ _ h) in
      let (apart, same) = set_address-eq-ok a c h1 in (a, make-eq-ok d ip e, apart, same)

  -- What a connection keeps of its network and its MAC address.
  abbrev pub shown_mac : Option String → Option String
  shown_mac none = none
  shown_mac (some mac) = some (lower mac)

  abbrev pub IsMacOpt : Option String → Type 0
  IsMacOpt none = Unit {0}
  IsMacOpt (some mac) = IsMac mac

  set_mac_opt-eq-ok :
      (mac : Option String) (c : Connection d.Address) {c' : Connection d.Address}
      → c.mac ≡ none
      → set_mac_opt mac c ≡ ok c'
      → IsMacOpt mac × (c' ≡ record c { mac = shown_mac mac })
  set_mac_opt-eq-ok none c {c'} unset h =
      let same : c ≡ c' = cc in
      (tt, sym same ∙ ap (λ (m : Option String). record c { mac = m }) unset)
  set_mac_opt-eq-ok (some mac) c unset h = set_mac-eq-ok mac c h

  -- The interface of a connection: none for none; and for a name, which is not that of the loopback
  -- interface, the name where the machine has it, or none where only a release build insists on it.
  abbrev pub IsInterfaceOf : Bool → List String → Option String → Option String → Type 0
  IsInterfaceOf release interfaces none shown = shown ≡ none
  IsInterfaceOf release interfaces (some name) shown =
      (name ≢ "lo")
      × (((lists interfaces name ≡ true) × (shown ≡ some name))
          ⊎ ((lists interfaces name ≡ false) × (release ≡ false) × (shown ≡ none)))

  pub set_interface_opt-eq-ok :
      (release : Bool) (interfaces : List String) (name : Option String) (c : Connection d.Address)
      {c' : Connection d.Address}
      → c.interface ≡ none
      → set_interface_opt release interfaces name c ≡ ok c'
      → IsInterfaceOf release interfaces name c'.interface
        × (c' ≡ record c { interface = c'.interface })
  unfolding set_interface
  set_interface_opt-eq-ok release interfaces none c {c'} unset h =
      let same : c ≡ c' = cc in
      subst (λ x. (x.interface ≡ none) × (x ≡ record c { interface = x.interface })) same
        (unset, refl)
  set_interface_opt-eq-ok release interfaces (some name) c {c'} unset h =
      chosen (str_eq name "lo") (lists interfaces name) release (eq_iff name "lo").1 refl refl _ _ h
    where
      apart : (name ≡ "lo" → false ≡ true) → name ≢ "lo"
      apart l e = let no = l e in cc

      chosen :
          (a b e : Bool)
          → (name ≡ "lo" → a ≡ true)
          → lists interfaces name ≡ b
          → release ≡ e
          → (error other : Error)
          → (if a
              then err error
              else if b
              then ok (record c { interface = some name })
              else if e
              then err other
              else ok c)
            ≡ ok c'
          → IsInterfaceOf release interfaces (some name) c'.interface
            × (c' ≡ record c { interface = c'.interface })
      chosen true b e l m r error other h = cc
      chosen false true e l m r error other h =
          let same : record c { interface = some name } ≡ c' = cc in
          subst
            (λ x.
              IsInterfaceOf release interfaces (some name) x.interface
              × (x ≡ record c { interface = x.interface }))
            same ((apart l, inl (m, refl)), refl)
      chosen false false true l m r error other h = cc
      chosen false false false l m r error other h =
          let same : c ≡ c' = cc in
          subst
            (λ x.
              IsInterfaceOf release interfaces (some name) x.interface
              × (x ≡ record c { interface = x.interface }))
            same ((apart l, inr (m, r, unset)), refl)

  abbrev made : NetworkRef → Option String → Option String → d.Address → Connection d.Address
  made network interface mac a = record (blank_connection d network) {
    interface = interface;
    mac = shown_mac mac;
    address = a;
  }

  -- A connection that has the given members, each of them valid.
  pub record IsConnected (release : Bool) (interfaces : List String) (network : NetworkRef)
      (interface mac : Option String) (ip : String) (c : Connection d.Address) : Type 0 where
    pub network_kept : c.network ≡ network
    pub interface_known : IsInterfaceOf release interfaces interface c.interface
    pub mac_valid : IsMacOpt mac
    pub mac_kept : c.mac ≡ shown_mac mac
    pub address_read : d.make_address ip ≡ some c.address
    pub address_usable : IsHostAddress d c.address
    pub mtu_fits : minimum_mtu c.network.kind ≤ c.mtu

  -- A connection that the constructor for given members makes points to the given network, and no
  -- other of its type; has no interface where none is given, and else one that is not `lo` and that
  -- the machine has, unless a build that is not a release build leaves a missing one out; has the
  -- given MAC address, which is valid, in small letters; has the given address, which is not
  -- 0.0.0.0; and has an MTU that is large enough for the type of the network.
  pub new_configured_connection-IsConnected :
      (release : Bool) (interfaces : List String) (network : NetworkRef)
      (interface mac : Option String) (ip : String) (c : Connection d.Address)
      → new_configured_connection d release interfaces network interface mac ip ≡ ok c
      → IsConnected release interfaces network interface mac ip c
  unfolding new_configured_connection
  new_configured_connection-IsConnected release interfaces network interface mac ip c h =
      let (c1, e1, h1) =
        >>=-eq-ok (set_interface_opt release interfaces interface (blank_connection d network)) _
          h in
      let (c2, e2, h2) = >>=-eq-ok (set_mac_opt mac c1) _ h1 in
      let (c3, e3, h3) = >>=-eq-ok (set_address_text d ip c2) _ h2 in
      let (known, s1) =
        set_interface_opt-eq-ok release interfaces interface (blank_connection d network) refl e1 in
      let (valid, s2) = set_mac_opt-eq-ok mac c1 (ap (λ (x : Connection d.Address). x.mac) s1) e2 in
      let (a, there, usable, s3) = set_address_text-eq-ok ip c2 e3 in
      let steps : c3 ≡ made network c1.interface mac a =
        s3
        ∙ ap (λ (x : Connection d.Address). record x { address = a })
            (s2 ∙ ap (λ (x : Connection d.Address). record x { mac = shown_mac mac }) s1) in
      let (fits, s4) = default_mtu-eq-ok c3 (ap (λ (x : Connection d.Address). x.mtu) steps) h3 in
      let whole : c ≡ record (made network c1.interface mac a) { mtu = c.mtu } =
        s4 ∙ ap (λ (x : Connection d.Address). record x { mtu = c.mtu }) steps in
      record {
        network_kept = ap (λ (x : Connection d.Address). x.network) whole;
        interface_known =
            subst (IsInterfaceOf release interfaces interface)
              (ap (λ (x : Connection d.Address). x.interface) (sym whole)) known;
        mac_valid = valid;
        mac_kept = ap (λ (x : Connection d.Address). x.mac) whole;
        address_read = there ∙ ap (λ (x : Connection d.Address). some x.address) (sym whole);
        address_usable =
            subst (IsHostAddress d) (ap (λ (x : Connection d.Address). x.address) (sym whole))
              usable;
        mtu_fits = fits;
      }
