-- ===== src/SwitchBytecode/Tests.antt =====
-- src/Examples/SwitchBytecode: the header of a DNP3 frame.
use mini_plex.Base.{ℕ, ◌≡◌, refl, not, ◌&&◌, List, [], ◌∷◌, length, ltb, get_or, some, has_value}
use mini_plex.ProtoConv.Dnp3.{crc_check, src_dst}
use mini_plex.SwitchBytecode.{
  crc_bit_loop, compute_crc, compute_crcs, is_header, get_addrs, get_flows,
}
use mini_plex.SwitchBytecode.Agrees.{get_flows-crc_check}

-- A reset of the link, from 2 to 1.
abbrev reset_link : List ℕ
reset_link = 0x05 ∷ 0x64 ∷ 0x05 ∷ 0xc0 ∷ 0x01 ∷ 0x00 ∷ 0x02 ∷ 0x00 ∷ 0x74 ∷ 0xe3 ∷ []

get_flows-crc_check_example :
    (has_value (get_addrs reset_link)
      ≡ ((crc_check reset_link 0 8 2).0 && not (ltb (length reset_link) (get_or reset_link 2 0))))
    × (has_value (get_flows reset_link)
        ≡ ((crc_check reset_link 0 8 2).0 && not (ltb (length reset_link) (get_or reset_link 2 0))))
    × ((src dst : ℕ) → get_flows reset_link ≡ some (src, dst) → dst ≡ src_dst reset_link)
get_flows-crc_check_example = get_flows-crc_check reset_link refl

reset_link-get_addrs : get_addrs reset_link ≡ some (2, 1)
unfolding get_addrs is_header compute_crcs compute_crc crc_bit_loop
reset_link-get_addrs = refl
