-- ===== src/AnswerFile/Checks/Gateway.antt =====
-- The addresses of a network section: what `validateSubnetMask` and `validateGatewayInSubnet` of
-- src/models/answerfile.cpp accept, and what holds of a section that `loadNetwork` has read.
use opencattus.Base.{ℕ, String, ◌≡◌, ◌↔◌, ◌⊎◌, true, some, bit_and, arith, ok}
use opencattus.Deps.{Deps}
use opencattus.Network.Cidr.{cidr_contains}
use opencattus.AnswerFile.{AfNetwork}
use opencattus.AnswerFile.Checks.{validate_subnet_mask, validate_gateway_in_subnet}
use opencattus.AnswerFile.Load.{check_mask, check_gateway, load_network}

module _ (d : Deps) where
  -- The subnet of an address under a mask, as a number.
  abbrev pub subnet : d.Address → d.Address → ℕ
  subnet mask ip = bit_and (d.to_uint ip) (d.to_uint mask)

  -- A gateway that the host can reach: none, or an IPv4 address in the host's subnet.
  abbrev pub IsReachable : d.Address → d.Address → d.Address → Type 0
  IsReachable host mask gateway =
      (d.is_unspecified gateway ≡ true)
      ⊎ ((d.is_v4 host ≡ true)
          × (d.is_v4 mask ≡ true)
          × (d.is_v4 gateway ≡ true)
          × (subnet mask host ≡ subnet mask gateway))

  pub IsReachable-validate :
      (section : String) (host mask gateway : d.Address)
      → validate_gateway_in_subnet d section host mask gateway ≡ ok tt
      → IsReachable host mask gateway
  unfolding validate_gateway_in_subnet
  IsReachable-validate section host mask gateway e = ground arith

  pub validate-IsReachable :
      (section : String) (host mask gateway : d.Address)
      → IsReachable host mask gateway
      → validate_gateway_in_subnet d section host mask gateway ≡ ok tt
  unfolding validate_gateway_in_subnet
  validate-IsReachable section host mask gateway h = ground arith

  -- The gateway check passes exactly when the gateway is unspecified, or when host, mask and
  -- gateway are IPv4 addresses and the gateway has the host's subnet.
  pub validate_gateway-ok_iff :
      (section : String) (host mask gateway : d.Address)
      → (validate_gateway_in_subnet d section host mask gateway ≡ ok tt)
        ↔ IsReachable host mask gateway
  validate_gateway-ok_iff section host mask gateway = (
    IsReachable-validate section host mask gateway,
    validate-IsReachable section host mask gateway,
  )

  -- A mask of the table.
  abbrev pub IsMask : d.Address → Type 0
  IsMask mask = (d.is_v4 mask ≡ true) × (cidr_contains (d.address_string mask) ≡ true)

  pub IsMask-check :
      (section : String) (mask : d.Address)
      → validate_subnet_mask d section mask ≡ ok tt
      → IsMask mask
  unfolding validate_subnet_mask
  IsMask-check section mask e = ground arith

  pub check-IsMask :
      (section : String) (mask : d.Address)
      → IsMask mask
      → validate_subnet_mask d section mask ≡ ok tt
  unfolding validate_subnet_mask
  check-IsMask section mask h = ground arith

  -- The addresses of a network section fit together.
  pub record IsConsistent (network : AfNetwork d.Address) : Type 0 where
    pub mask_listed : (mask : d.Address) → network.subnet_mask ≡ some mask → IsMask mask
    pub gateway_reachable :
        (host mask gateway : d.Address)
        → network.con_ip_addr ≡ some host
        → network.subnet_mask ≡ some mask
        → network.gateway ≡ some gateway
        → IsReachable host mask gateway

  load_network_checks :
      (file : d.Store) (section : String) (old network : AfNetwork d.Address)
      → load_network d file section old ≡ ok network
      → (check_mask d section network.subnet_mask ≡ ok tt)
        × (check_gateway d section network.con_ip_addr network.subnet_mask network.gateway ≡ ok tt)
  unfolding load_network
  load_network_checks file section old network e = ground arith

  -- Every network section that is read without an error is consistent: its subnet mask, where it
  -- has one, is an IPv4 mask of the table, and its gateway, where address, mask and gateway are
  -- there, is unspecified or in the host's subnet.
  pub load_network-IsConsistent :
      (file : d.Store) (section : String) (old network : AfNetwork d.Address)
      → load_network d file section old ≡ ok network
      → IsConsistent network
  load_network-IsConsistent file section old network e =
      let (masked, routed) = load_network_checks file section old network e in
      record {
        mask_listed = λ mask m. IsMask-check section mask (rw m at masked);
        gateway_reachable = λ host mask gateway h m g.
            IsReachable-validate section host mask gateway (rw (h, m, g) at routed);
      }
