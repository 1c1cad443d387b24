-- ===== src/NodeInfo.antt =====
-- `struct wlmio_node_info` of src/libwlmio/wlmio.h, and what `get_node_info_response_handler` of
-- src/libwlmio/wlmio.c reads of a `uavcan.node.GetInfo` reply.
pub mod Fields
pub mod Safety
pub mod RoundTrip
use Prim.Native.Nat.{bit_or}
use libwlmio.Prelude.{
  ℕ, ◌+◌, ◌-◌, ◌*◌, List, Option, some, ◌>>=◌, ltb, ◌==◌, if◌then◌else◌, ℤ, pos, neg_eproto, length,
}
use libwlmio.Wire.{Dsdl, copy_to, read_at, zeros}

-- struct wlmio_node_version
pub record Version : Type 0 where
  pub major : ℕ
  pub minor : ℕ

-- struct wlmio_node_info
pub record NodeInfo : Type 0 where
  pub protocol_version : Version
  pub hardware_version : Version
  pub software_version : Version
  pub software_vcs_revision_id : ℕ
  pub unique_id : List ℕ
  pub name : List ℕ
  pub software_image_crc : ℕ
  pub certificate_of_authenticity : List ℕ
  pub flags : ℕ

-- enum wlmio_node_info_flags
abbrev pub flag_crc : ℕ
flag_crc = 1

abbrev pub flag_certificate_of_authenticity : ℕ
flag_certificate_of_authenticity = 2

abbrev no_version : Version
no_version = record { major = 0; minor = 0 }

-- memset(node_info, 0, sizeof(struct wlmio_node_info))
abbrev pub zero_info : NodeInfo
zero_info = record {
  protocol_version = no_version;
  hardware_version = no_version;
  software_version = no_version;
  software_vcs_revision_id = 0;
  unique_id = zeros 16;
  name = zeros 51;
  software_image_crc = 0;
  certificate_of_authenticity = zeros 222;
  flags = 0;
}

-- The copies of `unique_id`, `name` and `certificate_of_authenticity`: at most `limit` bytes of
-- what the payload has at `offset`, to the front of the field.
pub copy_field : List ℕ → List ℕ → ℕ → ℕ → Option (List ℕ)
copy_field field payload offset limit =
    let bytes = length payload - offset in
    if ltb offset (length payload)
    then (read_at payload offset (if ltb limit bytes then limit else bytes) >>= copy_to field 0)
    else some field

read_certificate : Dsdl → List ℕ → ℕ → NodeInfo → Option (ℤ × NodeInfo)
unfolding copy_field
read_certificate d payload offset info =
    let coa_len = d.get_u8 payload (offset * 8) 8 in
    let flagged : NodeInfo = record info {
      flags = bit_or info.flags flag_certificate_of_authenticity;
    } in
    if ltb 222 coa_len
    then some (neg_eproto, info)
    else if coa_len == 0
    then some (pos 0, info)
    else (do
      coa ← copy_field info.certificate_of_authenticity payload (offset + 1) coa_len
      some (pos 0, record flagged { certificate_of_authenticity = coa }))

read_crc : Dsdl → List ℕ → ℕ → NodeInfo → Option (ℤ × NodeInfo)
unfolding read_certificate
read_crc d payload offset info =
    let crc_present = d.get_u8 payload (offset * 8) 8 in
    let with_crc : NodeInfo = record info {
      flags = bit_or info.flags flag_crc;
      software_image_crc = d.get_u64 payload ((offset + 1) * 8) 64;
    } in
    if ltb 1 crc_present
    then some (neg_eproto, info)
    else if crc_present == 0
    then read_certificate d payload (offset + 1) info
    else read_certificate d payload (offset + 1 + 8) with_crc

read_name : Dsdl → List ℕ → NodeInfo → Option (ℤ × NodeInfo)
unfolding read_crc copy_field
read_name d payload info =
    let name_len = d.get_u8 payload (30 * 8) 8 in
    if ltb 50 name_len then some (neg_eproto, info) else (do
      name ← copy_field info.name payload 31 name_len
      read_crc d payload (31 + name_len) (record info { name = name }))

-- The three versions and the revision.
read_fixed : Dsdl → List ℕ → NodeInfo
read_fixed d payload = record zero_info {
  protocol_version = record {
    major = d.get_u8 payload (0 * 8) 8;
    minor = d.get_u8 payload (1 * 8) 8;
  };
  hardware_version = record {
    major = d.get_u8 payload (2 * 8) 8;
    minor = d.get_u8 payload (3 * 8) 8;
  };
  software_version = record {
    major = d.get_u8 payload (4 * 8) 8;
    minor = d.get_u8 payload (5 * 8) 8;
  };
  software_vcs_revision_id = d.get_u64 payload (6 * 8) 64;
}

read_fields : Dsdl → List ℕ → Option (ℤ × NodeInfo)
unfolding read_fixed read_name copy_field
read_fields d payload = do
  let info = read_fixed d payload
  unique_id ← copy_field info.unique_id payload 14 16
  read_name d payload (record info { unique_id = unique_id })

-- The result for the caller, and what `*node_info` holds afterwards.
unfoldable pub read_node_info : Dsdl → List ℕ → Option (ℤ × NodeInfo)
unfolding read_fields
read_node_info d payload =
    if ltb 0 (length payload) then read_fields d payload else some (pos 0, zero_info)
