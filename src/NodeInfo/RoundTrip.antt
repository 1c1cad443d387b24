-- ===== src/NodeInfo/RoundTrip.antt =====
-- What `get_node_info_response_handler` reads against what a node announces of itself.
use libwlmio.Prelude.{
  ℕ, ◌+◌, ◌^◌, ◌≤◌, ◌<◌, ◌≡◌, refl, ◌∙◌, List, [], ◌∷◌, ◌++◌, Option, none, some, arith, ltb,
  ltb-false, pos, length, drop, suc_ne_zero, true, lt→ltb, ap, sym, drop_all, append-nil,
}
use libwlmio.Wire.{
  Dsdl, zeros, length-zeros, le_bytes, length-le_bytes, get_u8_at, get_u64_at, drop_advance,
}
use libwlmio.NodeInfo.{
  Version, NodeInfo, zero_info, flag_crc, flag_certificate_of_authenticity, read_certificate,
  read_crc, read_name, read_fixed, read_node_info, bit_or, copy_field,
}
use libwlmio.NodeInfo.Fields.{copy_field-filled, filled-append, filled}

-- A `uavcan.node.GetInfo` reply, by its fields.
pub record Announced : Type 0 where
  pub protocol : Version
  pub hardware : Version
  pub software : Version
  pub revision : ℕ
  pub unique_id : List ℕ
  pub name : List ℕ
  pub crc : Option ℕ
  pub certificate : List ℕ

abbrev IsVersion : Version → Type 0
IsVersion v = (v.major < 256) × (v.minor < 256)

abbrev IsCrc : Option ℕ → Type 0
IsCrc none = Unit
IsCrc (some c) = c < 2 ^ 64

pub record IsAnnounced (a : Announced) : Type 0 where
  pub protocol_fits : IsVersion a.protocol
  pub hardware_fits : IsVersion a.hardware
  pub software_fits : IsVersion a.software
  pub revision_fits : a.revision < 2 ^ 64
  pub unique_id_size : length a.unique_id ≡ 16
  pub name_fits : length a.name ≤ 50
  pub crc_fits : IsCrc a.crc
  pub certificate_fits : length a.certificate ≤ 222

-- The payload, with the padding that CAN FD frames may add.
abbrev certificate_part : List ℕ → List ℕ → List ℕ
certificate_part certificate pad = length certificate ∷ (certificate ++ pad)

abbrev crc_part : Option ℕ → List ℕ → List ℕ
crc_part none rest = 0 ∷ rest
crc_part (some c) rest = 1 ∷ (le_bytes 8 c ++ rest)

abbrev name_part : List ℕ → List ℕ → List ℕ
name_part name rest = length name ∷ (name ++ rest)

pub reply_format : Announced → List ℕ → List ℕ
reply_format a pad =
    a.protocol.major
    ∷ a.protocol.minor
    ∷ a.hardware.major
    ∷ a.hardware.minor
    ∷ a.software.major
    ∷ a.software.minor
    ∷ (le_bytes 8 a.revision
        ++ (a.unique_id ++ name_part a.name (crc_part a.crc (certificate_part a.certificate pad))))

-- The struct that stands for it.
abbrev with_certificate : NodeInfo → List ℕ → NodeInfo
with_certificate info [] = info
with_certificate info (c ∷ cs) = record info {
  flags = bit_or info.flags flag_certificate_of_authenticity;
  certificate_of_authenticity = (c ∷ cs) ++ drop (length (c ∷ cs)) (zeros 222);
}

abbrev with_crc : NodeInfo → Option ℕ → NodeInfo
with_crc info none = info
with_crc info (some c) = record info { flags = bit_or info.flags flag_crc; software_image_crc = c }

abbrev with_name : NodeInfo → List ℕ → NodeInfo
with_name info name = record info { name = name ++ drop (length name) (zeros 51) }

abbrev identified : Announced → NodeInfo
identified a = record zero_info {
  protocol_version = a.protocol;
  hardware_version = a.hardware;
  software_version = a.software;
  software_vcs_revision_id = a.revision;
  unique_id = a.unique_id;
}

pub info_of : Announced → NodeInfo
info_of a = with_certificate (with_crc (with_name (identified a) a.name) a.crc) a.certificate

module _ (d : Dsdl) (payload pad : List ℕ) where
  certificate_read :
      (offset : ℕ) (info : NodeInfo) (certificate : List ℕ)
      → drop offset payload ≡ certificate_part certificate pad
      → length certificate ≤ 222
      → info.certificate_of_authenticity ≡ zeros 222
      → read_certificate d payload offset info ≡ some (pos 0, with_certificate info certificate)
  unfolding read_certificate
  certificate_read offset info [] e h blank = rw (get_u8_at d payload offset 0 _ e (omega arith))
  certificate_read offset info (c ∷ cs) e h blank =
      let n : ℕ = length (c ∷ cs) in
      rw (
        get_u8_at d payload offset n _ e (omega arith),
        ltb-false 222 n h,
        suc_ne_zero (length cs),
        blank,
        copy_field-filled (zeros 222) payload (offset + 1) n (omega (arith, length-zeros 222)),
        filled-append (zeros 222) payload (c ∷ cs) pad (offset + 1)
            (drop_advance payload offset 1 (n ∷ []) _ e refl),
      )

  crc_read :
      (offset : ℕ) (info : NodeInfo) (crc : Option ℕ) (certificate : List ℕ)
      → drop offset payload ≡ crc_part crc (certificate_part certificate pad)
      → IsCrc crc
      → length certificate ≤ 222
      → info.certificate_of_authenticity ≡ zeros 222
      → read_crc d payload offset info
        ≡ some (pos 0, with_certificate (with_crc info crc) certificate)
  unfolding read_crc
  crc_read offset info none certificate e h k blank =
      rw (get_u8_at d payload offset 0 _ e (omega arith)) (
        certificate_read (offset + 1) info certificate
          (drop_advance payload offset 1 (0 ∷ []) _ e refl) k blank)
  crc_read offset info (some c) certificate e h k blank =
      let at_crc = drop_advance payload offset 1 (1 ∷ []) _ e refl in
      rw
        (
          get_u8_at d payload offset 1 _ e (omega arith),
          get_u64_at d payload (offset + 1) c _ at_crc h,
        )
        (certificate_read (offset + 1 + 8) _ certificate
          (drop_advance payload (offset + 1) 8 (le_bytes 8 c) _ at_crc (length-le_bytes 8 c)) k
          blank)

  name_read :
      (info : NodeInfo) (name : List ℕ) (crc : Option ℕ) (certificate : List ℕ)
      → drop 30 payload ≡ name_part name (crc_part crc (certificate_part certificate pad))
      → length name ≤ 50
      → IsCrc crc
      → length certificate ≤ 222
      → info.name ≡ zeros 51
      → info.certificate_of_authenticity ≡ zeros 222
      → read_name d payload info
        ≡ some (pos 0, with_certificate (with_crc (with_name info name) crc) certificate)
  unfolding read_name
  name_read info name crc certificate e h hc k blank_name blank =
      let at_name = drop_advance payload 30 1 (length name ∷ []) _ e refl in
      rw
        (
          get_u8_at d payload 30 (length name) _ e (omega arith),
          ltb-false 50 (length name) h,
          blank_name,
          copy_field-filled (zeros 51) payload 31 (length name) (omega (arith, length-zeros 51)),
          filled-append (zeros 51) payload name _ 31 at_name,
        )
        (crc_read (31 + length name) _ crc certificate
          (drop_advance payload 31 (length name) name _ at_name refl) hc k blank)

module _ (d : Dsdl) (a : Announced) (h : IsAnnounced a) (pad : List ℕ) where
  fixed_read : read_fixed d (reply_format a pad) ≡ record (identified a) { unique_id = zeros 16 }
  unfolding read_fixed reply_format
  fixed_read =
      let p = reply_format a pad in
      rw (
        get_u8_at d p 0 a.protocol.major _ refl h.protocol_fits.0,
        get_u8_at d p 1 a.protocol.minor _ refl h.protocol_fits.1,
        get_u8_at d p 2 a.hardware.major _ refl h.hardware_fits.0,
        get_u8_at d p 3 a.hardware.minor _ refl h.hardware_fits.1,
        get_u8_at d p 4 a.software.major _ refl h.software_fits.0,
        get_u8_at d p 5 a.software.minor _ refl h.software_fits.1,
        get_u64_at d p 6 a.revision _ refl h.revision_fits,
      )

  at_unique_id :
      drop 14 (reply_format a pad)
      ≡ a.unique_id ++ name_part a.name (crc_part a.crc (certificate_part a.certificate pad))
  unfolding reply_format
  at_unique_id =
      drop_advance (reply_format a pad) 6 8 (le_bytes 8 a.revision) _ refl
        (length-le_bytes 8 a.revision)

  unique_id_read : copy_field (zeros 16) (reply_format a pad) 14 16 ≡ some a.unique_id
  unique_id_read =
      copy_field-filled (zeros 16) (reply_format a pad) 14 16 (omega (arith, length-zeros 16))
      ∙ ap (λ n. some (filled (zeros 16) (reply_format a pad) 14 n)) (sym h.unique_id_size)
      ∙ ap some (filled-append (zeros 16) (reply_format a pad) a.unique_id _ 14 at_unique_id)
      ∙ ap (λ l. some (a.unique_id ++ l))
          (drop_all (length a.unique_id) (zeros 16)
            (omega (arith, length-zeros 16, h.unique_id_size)))
      ∙ ap some (append-nil a.unique_id)

  nonempty : ltb 0 (length (reply_format a pad)) ≡ true
  unfolding reply_format
  nonempty = lt→ltb 0 _ (omega arith)

  -- Of a well-formed reply, padded or not, the struct holds every field as announced: the versions,
  -- the revision and the identifier, the name and the certificate with zeros behind them, the
  -- checksum, and a flag for each of the two optional fields that is there. The result is 0.
  pub read_node_info-reply_format : read_node_info d (reply_format a pad) ≡ some (pos 0, info_of a)
  unfolding read_node_info info_of
  read_node_info-reply_format =
      rw (nonempty, unique_id_read)
        (ap
            (λ (i : NodeInfo).
              read_name d (reply_format a pad) (record i { unique_id = a.unique_id }))
            fixed_read
          ∙ name_read d (reply_format a pad) pad (identified a) a.name a.crc a.certificate
              (drop_advance (reply_format a pad) 14 16 a.unique_id _ at_unique_id h.unique_id_size)
              h.name_fits h.crc_fits h.certificate_fits refl refl)
