-- ===== src/NodeInfo/Safety.antt =====
-- The buffers of `get_node_info_response_handler`.
use libwlmio.Prelude.{
  ℕ, ◌+◌, ◌*◌, ◌≤◌, ◌≡◌, ◌⊎◌, refl, ◌∙◌, inl, inr, List, Option, none, some, arith, ltb, ◌==◌,
  Bool-cases, ℤ, pos, neg_eproto, length, get_elem?, take, drop, get_elem?-append_right,
  get_elem?-drop, ap,
}
use libwlmio.Wire.{Dsdl, zeros, length-zeros}
use libwlmio.NodeInfo.{NodeInfo, zero_info, read_certificate, read_crc, read_name, read_node_info}
use libwlmio.NodeInfo.Fields.{available, filled, length-available, copy_field-filled, length-filled}

-- The arrays have their sizes, and the name ends with a NUL.
pub record IsInfo (info : NodeInfo) : Type 0 where
  pub unique_id_size : length info.unique_id ≡ 16
  pub name_size : length info.name ≡ 51
  pub name_end : get_elem? info.name 50 ≡ some 0
  pub certificate_size : length info.certificate_of_authenticity ≡ 222

-- No fault, a result of 0 or -EPROTO, and such a struct.
abbrev pub Sound : Option (ℤ × NodeInfo) → Type 0
Sound none = ⊥
Sound (some (r, info)) = ((r ≡ pos 0) ⊎ (r ≡ neg_eproto)) × IsInfo info

blank_end : get_elem? (zeros 51) 50 ≡ some 0
unfolding zeros
blank_end = refl

module _ (d : Dsdl) (payload : List ℕ) where
  read_certificate-Sound :
      (offset : ℕ) (info : NodeInfo) → IsInfo info → Sound (read_certificate d payload offset info)
  unfolding read_certificate
  read_certificate-Sound offset info h =
      elim (Bool-cases (ltb 222 (d.get_u8 payload (offset * 8) 8))) [
        | inl long ↦ rw long (inr refl, h)
        | inr fits ↦ elim (Bool-cases (d.get_u8 payload (offset * 8) 8 == 0)) [
          | inl absent ↦ rw (fits, absent) (inl refl, h)
          | inr present ↦
              let room : d.get_u8 payload (offset * 8) 8 ≤ length info.certificate_of_authenticity =
                ground (arith, h.certificate_size) in
              rw
                (
                  fits,
                  present,
                  copy_field-filled info.certificate_of_authenticity payload (offset + 1) _ room,
                )
                (
                  inl refl,
                  record {
                    unique_id_size = h.unique_id_size;
                    name_size = h.name_size;
                    name_end = h.name_end;
                    certificate_size =
                        length-filled info.certificate_of_authenticity payload (offset + 1) _ room
                        ∙ h.certificate_size;
                  },
                )
        ]
      ]

  read_crc-Sound :
      (offset : ℕ) (info : NodeInfo) → IsInfo info → Sound (read_crc d payload offset info)
  unfolding read_crc
  read_crc-Sound offset info h = elim (Bool-cases (ltb 1 (d.get_u8 payload (offset * 8) 8))) [
    | inl bad ↦ rw bad (inr refl, h)
    | inr good ↦ elim (Bool-cases (d.get_u8 payload (offset * 8) 8 == 0)) [
      | inl absent ↦ rw (good, absent) (read_certificate-Sound (offset + 1) info h)
      | inr present ↦
          rw (good, present)
            (read_certificate-Sound (offset + 1 + 8) _ (record {
              unique_id_size = h.unique_id_size;
              name_size = h.name_size;
              name_end = h.name_end;
              certificate_size = h.certificate_size;
            }))
    ]
  ]

  -- A name of at most 50 bytes leaves the last byte of the array zero.
  filled_end : (n : ℕ) → n ≤ 50 → get_elem? (filled (zeros 51) payload 31 n) 50 ≡ some 0
  filled_end n h =
      let few : available payload 31 n ≤ 50 = omega arith in
      get_elem?-append_right (take (available payload 31 n) (drop 31 payload)) _ 50
        (omega (arith, length-available payload 31 n))
      ∙ get_elem?-drop (available payload 31 n) (zeros 51) _
      ∙ ap (get_elem? (zeros 51)) (omega (arith, length-available payload 31 n))
      ∙ blank_end

  read_name-Sound :
      (info : NodeInfo) → IsInfo info → info.name ≡ zeros 51 → Sound (read_name d payload info)
  unfolding read_name
  read_name-Sound info h blank = elim (Bool-cases (ltb 50 (d.get_u8 payload (30 * 8) 8))) [
    | inl long ↦ rw long (inr refl, h)
    | inr fits ↦
        let room : d.get_u8 payload (30 * 8) 8 ≤ length info.name = ground (arith, h.name_size) in
        rw (fits, copy_field-filled info.name payload 31 _ room)
          (read_crc-Sound (31 + d.get_u8 payload (30 * 8) 8) _ (record {
            unique_id_size = h.unique_id_size;
            name_size = length-filled info.name payload 31 _ room ∙ h.name_size;
            name_end = rw blank (filled_end _ (ground arith));
            certificate_size = h.certificate_size;
          }))
  ]

  zero_info-IsInfo : IsInfo zero_info
  unfolding zeros
  zero_info-IsInfo = record {
    unique_id_size = refl;
    name_size = refl;
    name_end = refl;
    certificate_size = refl;
  }

  -- Whatever the payload, no copy leaves the reply or the struct, the result is 0 or -EPROTO, and
  -- the name that the struct then holds is a terminated string.
  pub read_node_info-Sound : Sound (read_node_info d payload)
  unfolding read_node_info
  read_node_info-Sound = elim (Bool-cases (ltb 0 (length payload))) [
    | inl more ↦
        rw (more, copy_field-filled (zeros 16) payload 14 16 (omega (arith, length-zeros 16)))
          (read_name-Sound _
            (record {
              unique_id_size =
                  length-filled (zeros 16) payload 14 16 (omega (arith, length-zeros 16))
                  ∙ length-zeros 16;
              name_size = length-zeros 51;
              name_end = blank_end;
              certificate_size = length-zeros 222;
            })
            refl)
    | inr empty ↦ rw empty (inl refl, zero_info-IsInfo)
  ]
