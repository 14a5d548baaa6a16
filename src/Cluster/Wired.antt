-- ===== src/Cluster/Wired.antt =====
-- One connection of the head node that `fillData` of src/models/cluster.cpp makes of a section.
use opencattus.Base.{
  false, ◌⊎◌, if◌then◌else◌, Bool, String, ◌≡◌, refl, sym, ap, ◌∙◌, subst, true, Option, none, some,
  List, [], ◌∷◌, ok, after, value, arith, Bool-cases, inl, inr,
}
use opencattus.Enums.{Profile, external}
use opencattus.Deps.{Deps}
use opencattus.Site.{Site}
use opencattus.AnswerFile.{AfNetwork}
use opencattus.Network as network
use opencattus.Base.Text.{is_empty, lower}
use opencattus.Network.Configured.{IsHostAddress}
use opencattus.Network.Fetch.{fetch_address}
use opencattus.Connection.Formats.{IsMac}
use opencattus.Connection.Configured.{
  IsInterfaceOf, set_interface_opt-eq-ok, set_mac-eq-ok, set_address-eq-ok as number-eq-ok,
  default_mtu-eq-ok,
}
use opencattus.Connection.{
  Connection, blank_connection, new_connection, set_mac, set_interface, set_address,
}
use opencattus.Machine.{same_profile}
use opencattus.Cluster.{Cluster}
use opencattus.Cluster.Networks.{network_pointer, or_no_network, find_network, get_network}
use opencattus.Cluster.Attach.{connect, mac_unless_empty, ip_or_fetched}

ok-same : {A : Type 0} {a b : A} → ok a ≡ ok b → a ≡ b
ok-same h = cc

pub value-some-eq : {A : Type 0} (o : Option A) {a : A} → value o ≡ ok a → o ≡ some a
value-some-eq none h = cc
value-some-eq (some a) h = cc

pub same_profile-eq : (p q : Profile) → same_profile p q ≡ true → p ≡ q
same_profile-eq p q h = ground arith

module _ {Address : Type 0} where
  find_network-profile :
      (profile : Profile) (ns : List (network.Network Address)) {found : network.Network Address}
      → find_network profile ns ≡ some found
      → found.profile ≡ profile
  unfolding find_network
  find_network-profile profile [] h = cc
  find_network-profile profile (n ∷ ns) {found} h =
      elim (Bool-cases (same_profile n.profile profile)) [
        | inl same ↦
            let e : some n ≡ some found = rw same at h in
            let e' : n ≡ found = cc in
            subst (λ x. x.profile ≡ profile) e' (same_profile-eq _ _ same)
        | inr other ↦ find_network-profile profile ns (rw other at h)
      ]

  pub get_network-profile :
      (profile : Profile) (c : Cluster Address) {found : network.Network Address}
      → get_network profile c ≡ ok found
      → found.profile ≡ profile
  unfolding get_network
  get_network-profile profile c {found} h = got (find_network profile c.networks) refl h
    where
      got :
          (o : Option (network.Network Address))
          → find_network profile c.networks ≡ o
          → or_no_network profile o ≡ ok found
          → found.profile ≡ profile
      got none e h = cc
      got (some n) e h =
          let same : n ≡ found = cc in
          subst (λ x. x.profile ≡ profile) same (find_network-profile profile c.networks e)

module _ (d : Deps) (site : Site d) where
  -- The MAC address of a section, which is a MAC address, in small letters, or none for an empty one.
  abbrev pub IsMacGiven : Option String → Option String → Type 0
  IsMacGiven none mac = ⊥
  IsMacGiven (some given) mac =
      ((is_empty given ≡ true) × (mac ≡ none))
      ⊎ ((is_empty given ≡ false) × IsMac given × (mac ≡ some (lower given)))

  -- A connection of the head node that was made of a section: it points to a network of the profile,
  -- and has the section's interface, MAC address, and address. Only the external section may leave
  -- the address out, which is then that of the interface.
  pub record IsAttached (profile : Profile) (section : AfNetwork d.Address)
      (connection : Connection d.Address) : Type 0 where
    pub points : connection.network.profile ≡ profile
    pub wire : String
    pub wire_given : section.con_interface ≡ some wire
    pub wire_set : IsInterfaceOf d site.release site.interfaces (some wire) connection.interface
    pub mac_set : IsMacGiven section.con_mac_addr connection.mac
    pub usable : IsHostAddress d connection.address
    pub address_set :
        (section.con_ip_addr ≡ some connection.address)
        ⊎ ((profile ≡ external)
            × (section.con_ip_addr ≡ none)
            × (fetch_address d site wire ≡ ok connection.address))

  -- The connection that is made for a profile points to a network of it and is blank.
  pub connect-profile :
      (profile : Profile) (c : Cluster d.Address) {blank : Connection d.Address}
      → connect d site profile c ≡ ok blank
      → (blank.network.profile ≡ profile) × (blank.interface ≡ none) × (blank.mac ≡ none)
  unfolding network_pointer new_connection
  connect-profile profile c {blank} h = after (network_pointer profile c) _ h λ pointer e h1.
      after (get_network profile c) _ e λ found e2 h2.
        let (fits, same) = default_mtu-eq-ok (blank_connection d pointer) refl h1 in
        (
          ap (λ x. x.network.profile) same
              ∙ sym (ap (λ x. x.profile) (ok-same h2))
              ∙ get_network-profile profile c e2,
          ap (λ x. x.interface) same,
          ap (λ x. x.mac) same,
        )

  mac_unless_empty-IsMacGiven :
      (mac : Option String) (c : Connection d.Address) {c' : Connection d.Address}
      → c.mac ≡ none
      → mac_unless_empty mac c ≡ ok c'
      → IsMacGiven mac c'.mac × (c' ≡ record c { mac = c'.mac })
  mac_unless_empty-IsMacGiven none c unset h = cc
  mac_unless_empty-IsMacGiven (some mac) c {c'} unset h = checked (is_empty mac) refl h
    where
      checked :
          (b : Bool)
          → is_empty mac ≡ b
          → (if b then ok c else set_mac mac c) ≡ ok c'
          → IsMacGiven (some mac) c'.mac × (c' ≡ record c { mac = c'.mac })
      checked true e h =
          subst (λ x. IsMacGiven (some mac) x.mac × (x ≡ record c { mac = x.mac })) (ok-same h)
            (inl (e, unset), refl)
      checked false e h =
          let (valid, same) = set_mac-eq-ok mac c h in
          subst (λ x. IsMacGiven (some mac) x.mac × (x ≡ record c { mac = x.mac })) (sym same)
            (inr (e, valid, refl), refl)

  -- A connection that is wired, numbered and marked, in this order.
  pub numbered-IsAttached :
      (profile : Profile) (section : AfNetwork d.Address) (interface : String) (ip : d.Address)
      (blank wired numbered : Connection d.Address) {done : Connection d.Address}
      → (blank.network.profile ≡ profile) × (blank.interface ≡ none) × (blank.mac ≡ none)
      → section.con_interface ≡ some interface
      → set_interface site.release site.interfaces interface blank ≡ ok wired
      → set_address d ip wired ≡ ok numbered
      → mac_unless_empty section.con_mac_addr numbered ≡ ok done
      → (section.con_ip_addr ≡ some ip)
        ⊎ ((profile ≡ external)
            × (section.con_ip_addr ≡ none)
            × (fetch_address d site interface ≡ ok ip))
      → IsAttached profile section done
  numbered-IsAttached profile section interface ip blank wired numbered {done}
        (points, no_wire, no_mac) given e1 e2 e3 from =
      let (wire, s1) =
        set_interface_opt-eq-ok d site.release site.interfaces (some interface) blank no_wire e1 in
      let (usable, s2) = number-eq-ok d ip wired e2 in
      let (mac, s3) =
        mac_unless_empty-IsMacGiven section.con_mac_addr numbered
          (ap (λ x. x.mac) s2 ∙ ap (λ x. x.mac) s1 ∙ no_mac) e3 in
      let number : done.address ≡ ip = ap (λ x. x.address) s3 ∙ ap (λ x. x.address) s2 in
      record {
        points =
            ap (λ x. x.network.profile) s3
            ∙ ap (λ x. x.network.profile) s2
            ∙ ap (λ x. x.network.profile) s1
            ∙ points;
        wire = interface;
        wire_given = given;
        wire_set =
            subst (IsInterfaceOf d site.release site.interfaces (some interface))
              (sym (ap (λ x. x.interface) s3 ∙ ap (λ x. x.interface) s2)) wire;
        mac_set = mac;
        usable = subst (IsHostAddress d) (sym number) usable;
        address_set =
            subst
              (λ a.
                (section.con_ip_addr ≡ some a)
                ⊎ ((profile ≡ external)
                    × (section.con_ip_addr ≡ none)
                    × (fetch_address d site interface ≡ ok a)))
              (sym number) from;
      }

  -- One that is marked, wired and numbered.
  pub behind-IsAttached :
      (profile : Profile) (section : AfNetwork d.Address) (interface : String) (ip : d.Address)
      (blank marked wired : Connection d.Address) {done : Connection d.Address}
      → (blank.network.profile ≡ profile) × (blank.interface ≡ none) × (blank.mac ≡ none)
      → section.con_interface ≡ some interface
      → mac_unless_empty section.con_mac_addr blank ≡ ok marked
      → set_interface site.release site.interfaces interface marked ≡ ok wired
      → set_address d ip wired ≡ ok done
      → section.con_ip_addr ≡ some ip
      → IsAttached profile section done
  behind-IsAttached profile section interface ip blank marked wired {done} (points, no_wire, no_mac)
        given e1 e2 e3 from =
      let (mac, s1) = mac_unless_empty-IsMacGiven section.con_mac_addr blank no_mac e1 in
      let (wire, s2) =
        set_interface_opt-eq-ok d site.release site.interfaces (some interface) marked
          (ap (λ x. x.interface) s1 ∙ no_wire) e2 in
      let (usable, s3) = number-eq-ok d ip wired e3 in
      let number : ip ≡ done.address = sym (ap (λ x. x.address) s3) in
      record {
        points =
            ap (λ x. x.network.profile) s3
            ∙ ap (λ x. x.network.profile) s2
            ∙ ap (λ x. x.network.profile) s1
            ∙ points;
        wire = interface;
        wire_given = given;
        wire_set =
            subst (IsInterfaceOf d site.release site.interfaces (some interface))
              (sym (ap (λ x. x.interface) s3)) wire;
        mac_set =
            subst (IsMacGiven section.con_mac_addr) (sym (ap (λ x. x.mac) s3 ∙ ap (λ x. x.mac) s2))
              mac;
        usable = subst (IsHostAddress d) number usable;
        address_set = inl (from ∙ ap some number);
      }

  pub fetched-address :
      (o : Option d.Address) (interface : String) {ip : d.Address}
      → ip_or_fetched d site o interface ≡ ok ip
      → (o ≡ some ip)
        ⊎ ((external ≡ external) × (o ≡ none) × (fetch_address d site interface ≡ ok ip))
  fetched-address (some a) interface h = inl (ap some (ok-same h))
  fetched-address none interface h = inr (refl, refl, h)
