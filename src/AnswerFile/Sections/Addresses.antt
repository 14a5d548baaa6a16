-- ===== src/AnswerFile/Sections/Addresses.antt =====
-- The network sections of src/models/answerfile.cpp.
use opencattus.Base.{String, ◌≡◌, refl, Option, none, some, List, [], ◌∷◌, ok, value_or}
use opencattus.Deps.{Deps}
use opencattus.KeyFile.View.{
  Lacks, Sees, Sees-start, Sees-set_opt, put, put_opt, nothing, or_else-none, get_string-Sees,
  get_string_or-Sees, get_string_opt-Sees,
}
use opencattus.AnswerFile.{AfNetwork, default_network}
use opencattus.AnswerFile.Checks.Gateway.{IsConsistent, check-IsMask, validate-IsReachable}
use opencattus.AnswerFile.Dump.{shown, joined, dump_network}
use opencattus.AnswerFile.Load.{
  convert_network_address_and_validate, check_mask, check_gateway, split_or, load_network,
}
use opencattus.AnswerFile.Sections.Choices.{AreTokens}

-- A list that `dumpNetwork` writes: an empty one is passed over.
abbrev pub written : Option (List String) → Option (List String)
written none = none
written (some []) = none
written (some (x ∷ xs)) = some (x ∷ xs)

module _ (d : Deps) where
  -- The section as a reader finds it: there is a MAC address, empty where none was written, and
  -- no empty list.
  abbrev pub as_read : AfNetwork d.Address → AfNetwork d.Address
  as_read network = record network {
    con_mac_addr = some (value_or network.con_mac_addr "");
    nameservers = written network.nameservers;
  }

  -- The entries that `dumpNetwork` writes.
  abbrev entries : AfNetwork d.Address → String → String → Option String
  entries network interface = put_opt "nameservers" (joined d network.nameservers) (
      put_opt "gateway" (shown d.address_string network.gateway) (
        put_opt "domain_name" network.domain_name (
          put_opt "subnet_mask" (shown d.address_string network.subnet_mask) (
            put_opt "mac_address" network.con_mac_addr (
              put_opt "ip_address" (shown d.address_string network.con_ip_addr)
                (put "interface" interface nothing))))))

  Sees-dump_network :
      (network : AfNetwork d.Address) (section interface : String) (file : d.Store)
      → network.con_interface ≡ some interface
      → Lacks d file section
      → Sees d (dump_network d network section file) section (entries network interface)
  unfolding dump_network
  Sees-dump_network network section interface file there lacks = simp there (
      Sees-set_opt d "nameservers" _ (
        Sees-set_opt d "gateway" _ (
          Sees-set_opt d "domain_name" _ (
            Sees-set_opt d "subnet_mask" _ (
              Sees-set_opt d "mac_address" _
                (Sees-set_opt d "ip_address" _ (Sees-start d "interface" interface lacks)))))))

  -- An address that was written is read back.
  convert-shown :
      {file : d.Store} {section : String} {f : String → Option String} (key : String)
      (a : Option d.Address)
      → Sees d file section f
      → f key ≡ shown d.address_string a
      → convert_network_address_and_validate d file section key none ≡ ok a
  unfolding convert_network_address_and_validate
  convert-shown key none s e = simp (get_string_opt-Sees d s, e)
  convert-shown key (some a) s e =
      simp (get_string_opt-Sees d s, get_string-Sees d s, e, d.make_address-address_string)

  split-joined :
      (ns : Option (List String)) → AreTokens ns → split_or d none (joined d ns) ≡ written ns
  split-joined none h = refl
  split-joined (some []) h = refl
  split-joined (some (x ∷ xs)) h = rw (d.split_values-join_values (x ∷ xs) (λ e. cc) h)

  mask_passes :
      (section : String) (mask : Option d.Address)
      → ((m : d.Address) → mask ≡ some m → check_mask d section (some m) ≡ ok tt)
      → check_mask d section mask ≡ ok tt
  mask_passes section none h = refl
  mask_passes section (some m) h = h m refl

  gateway_passes :
      (section : String) (ip mask gateway : Option d.Address)
      → ((i m g : d.Address)
          → ip ≡ some i
          → mask ≡ some m
          → gateway ≡ some g
          → check_gateway d section (some i) (some m) (some g) ≡ ok tt)
      → check_gateway d section ip mask gateway ≡ ok tt
  gateway_passes section none mask gateway h = refl
  gateway_passes section (some i) none gateway h = refl
  gateway_passes section (some i) (some m) none h = refl
  gateway_passes section (some i) (some m) (some g) h = h i m g refl refl refl

  -- A consistent network section with an interface, and with name servers that hold no commas or
  -- spaces, written into a key file without that group, is read back by a new answerfile: an
  -- absent MAC address as the empty text and an empty list of name servers as none.
  pub load-dump_network :
      (network : AfNetwork d.Address) (section interface : String) (file : d.Store)
      → network.con_interface ≡ some interface
      → IsConsistent d network
      → AreTokens network.nameservers
      → Lacks d file section
      → load_network d (dump_network d network section file) section (default_network d)
        ≡ ok (as_read network)
  unfolding load_network
  load-dump_network network section interface file there fits tokens lacks =
      let s = Sees-dump_network network section interface file there lacks in
      let ip = convert-shown "ip_address" network.con_ip_addr s (or_else-none _) in
      let mask = convert-shown "subnet_mask" network.subnet_mask s (or_else-none _) in
      let gateway = convert-shown "gateway" network.gateway s (or_else-none _) in
      let masked =
        mask_passes section network.subnet_mask
          (λ m e. check-IsMask d section m (fits.mask_listed m e)) in
      let routed =
        gateway_passes section network.con_ip_addr network.subnet_mask network.gateway
          (λ i m g a b c.
            validate-IsReachable d section i m g (fits.gateway_reachable i m g a b c)) in
      simp (
        get_string-Sees d s,
        get_string_or-Sees d s,
        get_string_opt-Sees d s,
        ip,
        mask,
        gateway,
        masked,
        routed,
        or_else-none,
        split-joined network.nameservers tokens,
        there,
      )
