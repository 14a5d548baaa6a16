-- ===== src/Examples/Checks.antt =====
-- The checks of the answerfile at concrete values.
use opencattus.Base.{◌<◌, ◌≤◌, ◌≡◌, refl, ◌↔◌, false, none, some, ok, arith}
use opencattus.Base.Decimal.{to_string, decimal}
use opencattus.Deps.Assoc.{assoc}
use opencattus.AnswerFile.{AfNode, default_node}
use opencattus.AnswerFile.Checks.{
  parse_unsigned_answerfile_field, parse_port_answerfile_field, validate_gateway_in_subnet,
  validate_unsigned_answerfile_field, validate_resolved_node_scalars,
}
use opencattus.AnswerFile.Checks.Unsigned.{
  IsUnsigned, parse_field-ok_iff, parse_port_bounds, parse_port-to_string,
}
use opencattus.AnswerFile.Checks.Gateway.{IsReachable, validate_gateway-ok_iff}
use opencattus.AnswerFile.Nodes.{
  validate_node, validate_bmc, validate_text_attribute, validate_address_attribute,
}
use opencattus.AnswerFile.Nodes.Resolved.{IsResolved, IsFilled, validate_node-IsResolved}

parse_field-ok_iff_example :
    (parse_unsigned_answerfile_field "node.1" "sockets" "16" false ≡ ok 16)
    ↔ (IsUnsigned "16" false × (16 ≡ decimal 0 "16"))
parse_field-ok_iff_example = parse_field-ok_iff "node.1" "sockets" "16" false 16

port_read : parse_port_answerfile_field "postfix.relay" "port" "587" ≡ ok 587
unfolding parse_port_answerfile_field parse_unsigned_answerfile_field
port_read = refl

parse_port_bounds_example : (587 ≡ decimal 0 "587") × (0 < 587) × (587 ≤ 65535)
parse_port_bounds_example = parse_port_bounds "postfix.relay" "port" "587" 587 port_read

parse_port-to_string_example :
    parse_port_answerfile_field "postfix.relay" "port" (to_string 65535) ≡ ok 65535
parse_port-to_string_example =
    parse_port-to_string "postfix.relay" "port" 65535 (omega arith) (omega arith)

validate_gateway-ok_iff_example :
    (validate_gateway_in_subnet assoc "network_external" "10.0.0.2" "255.255.0.0" "10.0.9.1"
      ≡ ok tt)
    ↔ IsReachable assoc "10.0.0.2" "255.255.0.0" "10.0.9.1"
validate_gateway-ok_iff_example =
    validate_gateway-ok_iff assoc "network_external" "10.0.0.2" "255.255.0.0" "10.0.9.1"

abbrev generic : AfNode assoc.Address
generic = record (default_node assoc) {
  start_ip = some "10.0.0.100";
  root_password = some "secret";
  sockets = some "2";
  cores_per_socket = some "8";
  threads_per_core = some "1";
}

abbrev node : AfNode assoc.Address
node = record (default_node assoc) {
  hostname = some "n01";
  mac_address = some "AA:BB:CC:DD:EE:01";
  sockets = some "4";
  bmc_address = some "";
}

abbrev resolved : AfNode assoc.Address
resolved = record node {
  start_ip = some "10.0.0.100";
  root_password = some "secret";
  cores_per_socket = some "8";
  threads_per_core = some "1";
  bmc_address = none;
}

node_read : validate_node assoc generic node "node.1" ≡ ok resolved
unfolding validate_node validate_bmc validate_text_attribute validate_address_attribute
    validate_resolved_node_scalars validate_unsigned_answerfile_field
    parse_unsigned_answerfile_field
node_read = refl

validate_node-IsResolved_example : IsResolved assoc resolved × IsFilled assoc generic node resolved
validate_node-IsResolved_example =
    validate_node-IsResolved assoc generic node resolved "node.1" node_read
