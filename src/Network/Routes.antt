-- ===== src/Network/Routes.antt =====
-- The gateway of an interface in the route table of the kernel, or in the file that NetworkManager
-- keeps of a device: the functions ahead of the class in src/network.cpp. A file is the list of its
-- lines, or none where it cannot be read.
use Prim.Native.Char.{Char, code}
use opencattus.Base.{
  ℕ, ◌+◌, ◌-◌, ◌*◌, ◌%◌, ◌^◌, String, ◌&&◌, ◌||◌, not, Option, none, some, List, [], ◌∷◌,
  if◌then◌else◌, str_eq, leb, ltb, ◌==◌, Result, ok, err, invalid_argument, out_of_range, says,
}
use opencattus.Base.Text.{is_hex, is_digit, is_empty, starts_with, drop_as_long}
use opencattus.Base.Stoul.{is_space, skip_spaces}
use opencattus.Deps.{Deps}
use opencattus.Site.{Site}

-- The word at the front of a text, and what is behind it.
abbrev pub leading_word : String → String
leading_word String.[] = String.[]
leading_word (String.◌∷◌ c s) =
    let rest = leading_word s in if is_space c then String.[] else String.◌∷◌ c rest

abbrev pub behind_word : String → String
behind_word String.[] = String.[]
behind_word (String.◌∷◌ c s) =
    let rest = behind_word s in if is_space c then String.◌∷◌ c s else rest

-- `>>` of a std::string, by what it reads and what it leaves.
abbrev pub next_word : String → String
next_word s = leading_word (skip_spaces s)

abbrev pub past_word : String → String
past_word s = behind_word (skip_spaces s)

abbrev pub leading_hex : String → String
leading_hex String.[] = String.[]
leading_hex (String.◌∷◌ c s) =
    let rest = leading_hex s in if is_hex c then String.◌∷◌ c rest else String.[]

abbrev pub hex_digit : Char → ℕ
hex_digit c =
    if is_digit c
    then code c - b'0'
    else if leb b'a' (code c)
    then code c - b'a' + 10
    else code c - b'A' + 10

abbrev pub hex_value : ℕ → String → ℕ
hex_value n String.[] = n
hex_value n (String.◌∷◌ c s) = hex_value (n * 16 + hex_digit c) s

-- The text behind a prefix 0x that a digit follows.
abbrev pub without_prefix : String → String
without_prefix s =
    if (starts_with "0x" s || starts_with "0X" s)
      && not (is_empty (leading_hex (drop_as_long "0x" s)))
    then drop_as_long "0x" s
    else s

abbrev pub hex_magnitude : String → Result ℕ
hex_magnitude digits =
    if is_empty digits
    then err (invalid_argument (says "stoul"))
    else if ltb (hex_value 0 digits) (2 ^ 64)
    then ok (hex_value 0 digits)
    else err (out_of_range (says "stoul"))

abbrev pub hex_negated : Result ℕ → Result ℕ
hex_negated (ok n) = ok ((2 ^ 64 - n) % 2 ^ 64)
hex_negated (err e) = err e

abbrev pub hex_signed : String → Result ℕ
hex_signed String.[] = hex_magnitude String.[]
hex_signed (String.◌∷◌ c s) =
    if code c == code "-"
    then hex_negated (hex_magnitude (leading_hex (without_prefix s)))
    else if code c == code "+"
    then hex_magnitude (leading_hex (without_prefix s))
    else hex_magnitude (leading_hex (without_prefix (String.◌∷◌ c s)))

-- `std::stoul` in base sixteen.
unfoldable pub stoul_hex : String → Result ℕ
stoul_hex s = hex_signed (skip_spaces s)

-- `std::ranges::replace` of commas by blanks.
abbrev pub commas_blank : String → String
commas_blank String.[] = String.[]
commas_blank (String.◌∷◌ c s) = String.◌∷◌ (if code c == code "," then " " else c) (commas_blank s)

abbrev pub push_char : Char → List String → List String
push_char c [] = String.◌∷◌ c String.[] ∷ []
push_char c (x ∷ xs) = String.◌∷◌ c x ∷ xs

-- The pieces between single blanks, of which the empty ones are no words.
abbrev pub pieces : String → List String
pieces String.[] = String.[] ∷ []
pieces (String.◌∷◌ c s) =
    let rest = pieces s in if is_space c then String.[] ∷ rest else push_char c rest

module _ (d : Deps) (site : Site d) where
  -- `gatewayFromRouteHex` for a number that is read; the cast keeps 32 bits.
  abbrev pub gateway_of : Result ℕ → Option d.Address
  gateway_of (err e) = none
  gateway_of (ok n) =
      if n % 2 ^ 32 == 0 then none else some (site.ipv4_address (site.ntohl (n % 2 ^ 32)))

  unfoldable pub gateway_from_route_hex : String → Option d.Address
  unfolding stoul_hex
  gateway_from_route_hex raw = gateway_of (stoul_hex raw)

  -- The loop of `parseGatewayFromProcRoute`.
  unfoldable pub route_in : String → List String → Option d.Address
  unfolding gateway_from_route_hex
  route_in interface [] = none
  route_in interface (line ∷ lines) =
      let rest = route_in interface lines in
      if str_eq (next_word line) interface && str_eq (next_word (past_word line)) "00000000"
      then gateway_from_route_hex (next_word (past_word (past_word line)))
      else rest

  -- `parseGatewayFromProcRoute`, which passes over the first line.
  unfoldable pub parse_gateway_from_proc_route : String → List String → Option d.Address
  unfolding route_in
  parse_gateway_from_proc_route interface [] = none
  parse_gateway_from_proc_route interface (header ∷ lines) = route_in interface lines

  -- The candidate, where it is an address that is specified, and else the next one.
  abbrev pub accepted_or : Option d.Address → Option d.Address → Option d.Address
  accepted_or none next = next
  accepted_or (some candidate) next = if d.is_unspecified candidate then next else some candidate

  abbrev pub first_address : List String → Option d.Address
  first_address [] = none
  first_address (token ∷ tokens) =
      let rest = first_address tokens in
      if is_empty token then rest else accepted_or (d.make_address token) rest

  -- `parseFirstAddressToken`
  unfoldable pub parse_first_address_token : String → Option d.Address
  parse_first_address_token raw = first_address (pieces (commas_blank raw))

  -- `parseGatewayFromNetworkManagerDevice`
  unfoldable pub parse_gateway_from_device : List String → Option d.Address
  unfolding parse_first_address_token
  parse_gateway_from_device [] = none
  parse_gateway_from_device (line ∷ lines) =
      let rest = parse_gateway_from_device lines in
      if starts_with "dhcp4.routers=" line
      then parse_first_address_token (drop_as_long "dhcp4.routers=" line)
      else rest

  abbrev pub route_gateway : Option (List String) → String → Option d.Address
  route_gateway none interface = none
  route_gateway (some lines) interface = parse_gateway_from_proc_route interface lines

  abbrev pub device_gateway : Option (List String) → Option d.Address
  device_gateway none = none
  device_gateway (some lines) = parse_gateway_from_device lines

  -- `fetchGatewayFromProcRouteFile`
  unfoldable pub fetch_route_gateway : String → Option d.Address
  unfolding parse_gateway_from_proc_route
  fetch_route_gateway interface = route_gateway site.proc_route interface

  -- `fetchGatewayFromNetworkManagerDeviceFile`
  unfoldable pub fetch_device_gateway : String → Option d.Address
  unfolding parse_gateway_from_device
  fetch_device_gateway interface =
      if site.if_nametoindex interface == 0
      then none
      else device_gateway (site.device_file (site.if_nametoindex interface))
