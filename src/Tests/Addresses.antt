-- ===== src/Tests/Addresses.antt =====
-- The address in the log line of a new connection.
use u_dara_chat.Base.Decimal.{digits_onto, to_string, skip_spaces}
use u_dara_chat.Base.{◌≡◌, refl, ◌∷◌, ◌++◌, none, some, Text, codes}
use u_dara_chat.Group.Wire.{find_last}
use u_dara_chat.Server.Address.{stoi_hex, hex_value, dotted, convert_mapped_ipv6_to_ipv4}
use u_dara_chat.Server.AddressRoundTrip.{HexGroup, digits, convert_mapped_ipv6_to_ipv4-digits}

abbrev front : Text
front = codes "0000:0000:0000:0000:0000:ffff"

-- `7F0a` and `00B1`.
abbrev first_group : HexGroup
first_group = record {
  d1 = b'7';
  d2 = b'F';
  d3 = b'0';
  d4 = b'a';
  hex1 = refl;
  hex2 = refl;
  hex3 = refl;
  hex4 = refl;
}

abbrev second_group : HexGroup
second_group = record {
  d1 = b'0';
  d2 = b'0';
  d3 = b'B';
  d4 = b'1';
  hex1 = refl;
  hex2 = refl;
  hex3 = refl;
  hex4 = refl;
}

convert_mapped_ipv6_to_ipv4-digits_example :
    convert_mapped_ipv6_to_ipv4 ((front ++ b':' ∷ digits first_group) ++ b':' ∷ digits second_group)
    ≡ some (dotted 127 10 0 177)
convert_mapped_ipv6_to_ipv4-digits_example =
    convert_mapped_ipv6_to_ipv4-digits front first_group second_group

loopback :
    convert_mapped_ipv6_to_ipv4 (codes "0000:0000:0000:0000:0000:ffff:7f00:0001")
    ≡ some (codes "127.0.0.1")
unfolding convert_mapped_ipv6_to_ipv4 find_last stoi_hex skip_spaces hex_value to_string digits_onto
loopback = refl

no_colons : convert_mapped_ipv6_to_ipv4 (codes "127.0.0.1") ≡ some (codes "")
unfolding convert_mapped_ipv6_to_ipv4 find_last
no_colons = refl

-- A group without digits: `std::stoi` throws.
shortened : convert_mapped_ipv6_to_ipv4 (codes "::1") ≡ none
unfolding convert_mapped_ipv6_to_ipv4 find_last stoi_hex skip_spaces hex_value
shortened = refl
