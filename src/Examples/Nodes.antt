-- ===== src/Examples/Nodes.antt =====
-- Node information: a node that announces itself with a name, a checksum and no certificate.
use libwlmio.Prelude.{◌≡◌, refl, [], ◌∷◌, some, arith, pos, replicate}
use libwlmio.NodeInfo.{read_node_info}
use libwlmio.NodeInfo.Safety.{Sound, read_node_info-Sound}
use libwlmio.NodeInfo.RoundTrip.{
  Announced, IsAnnounced, reply_format, info_of, read_node_info-reply_format,
}
use libwlmio.Examples.Setup.{plain}

abbrev pub node : Announced
node = record {
  protocol = record { major = 1; minor = 0 };
  hardware = record { major = 2; minor = 3 };
  software = record { major = 1; minor = 4 };
  revision = 0x1234;
  unique_id = replicate 16 7;
  name = b'm' ∷ b'i' ∷ b'o' ∷ [];
  crc = some 99;
  certificate = [];
}

pub node-IsAnnounced : IsAnnounced node
node-IsAnnounced = record {
  protocol_fits = (omega arith, omega arith);
  hardware_fits = (omega arith, omega arith);
  software_fits = (omega arith, omega arith);
  revision_fits = omega arith;
  unique_id_size = refl;
  name_fits = omega arith;
  crc_fits = omega arith;
  certificate_fits = omega arith;
}

read_node_info-reply_format_example :
    read_node_info plain (reply_format node (0 ∷ [])) ≡ some (pos 0, info_of node)
read_node_info-reply_format_example =
    read_node_info-reply_format plain node node-IsAnnounced (0 ∷ [])

-- A reply that ends in its fields.
read_node_info-Sound_example : Sound (read_node_info plain (1 ∷ 0 ∷ 1 ∷ []))
read_node_info-Sound_example = read_node_info-Sound plain (1 ∷ 0 ∷ 1 ∷ [])
