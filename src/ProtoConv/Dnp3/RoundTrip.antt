-- ===== src/ProtoConv/Dnp3/RoundTrip.antt =====
-- src/ProtoConv/DNP3FrameChecker.cpp: `CheckFrame` on the frames that a sender makes.
use mini_plex.Base.{
  ℕ, ◌+◌, ◌*◌, ◌/◌, ◌%◌, ◌≤◌, ◌<◌, ◌^◌, ◌≡◌, refl, sym, ◌∙◌, Bool, true, List, [], ◌∷◌, ◌++◌,
  length, drop, get_or, length-append, append_assoc, arith,
}
use mini_plex.ProtoConv.{frame}
use mini_plex.ProtoConv.Dnp3.{
  crc_check, full_length, crc_checked_length, blocks_frame, check_body, dnp3_check_frame,
  start_bytes_offset, scan_start, src_dst,
}
use mini_plex.ProtoConv.Dnp3.Encode.{
  with_crc, with_crcs, kept, crc_check-with_crc, transport_byte, link_frame, fragment,
}
use mini_plex.ProtoConv.Dnp3.Blocks.{length-with_crc, length-with_crcs, check_blocks-with_crcs}
use mini_plex.ProtoConv.Dnp3.Transport.{transport_byte-fields}

module _ (control dst src : ℕ) (user_data : List ℕ) where
  -- The header before its CRC.
  abbrev pub header : List ℕ
  header =
      0x05
      ∷ 0x64
      ∷ (5 + length user_data)
      ∷ control
      ∷ (dst % 256)
      ∷ (dst / 256)
      ∷ (src % 256)
      ∷ (src / 256)
      ∷ []

  abbrev pub blocks : List ℕ
  blocks = with_crcs (length user_data) user_data

  pub length-link_frame :
      length user_data ≤ 250
      → length (link_frame control dst src user_data) ≡ full_length (5 + length user_data)
  unfolding link_frame full_length
  length-link_frame h = ground (
    arith,
    length-append (with_crc header) blocks,
    length-with_crc header,
    length-with_crcs (length user_data) user_data,
  )

  pub crc_check-link_frame :
      (rest : List ℕ)
      → crc_check (link_frame control dst src user_data ++ rest) 0 8 2
        ≡ (true, 5 + length user_data)
  unfolding link_frame kept
  crc_check-link_frame rest =
      crc_check-with_crc 0x05 (drop 1 header) (blocks ++ rest)
        (link_frame control dst src user_data ++ rest) 0 2
        (append_assoc (with_crc header) blocks rest)

  start-link_frame :
      (rest : List ℕ) → start_bytes_offset (link_frame control dst src user_data ++ rest) ≡ 0
  unfolding link_frame with_crc start_bytes_offset scan_start
  start-link_frame rest = refl

  -- After the header: the frame is there whole.
  pub check-link_frame :
      (rest : List ℕ)
      → length user_data ≤ 250
      → let buf = link_frame control dst src user_data ++ rest in
        dnp3_check_frame buf ≡ check_body (length (link_frame control dst src user_data)) buf
  unfolding dnp3_check_frame crc_checked_length
  check-link_frame rest h =
      let buf = link_frame control dst src user_data ++ rest in
      let frame_len = length-link_frame h in
      let all = length-append (link_frame control dst src user_data) rest in
      let checked : crc_checked_length buf ≡ length (link_frame control dst src user_data) =
        rw (crc_check-link_frame rest) (sym frame_len) in
      ground (arith, start-link_frame rest, checked, all, frame_len)

address-bytes :
    (a b : ℕ)
    → a < 2 ^ 16
    → b < 2 ^ 16
    → b / 256 * 2 ^ 24 + b % 256 * 2 ^ 16 + a / 256 * 2 ^ 8 + a % 256 ≡ b * 2 ^ 16 + a
address-bytes a b h l = omega arith

-- Both addresses are the flow.
pub src_dst-link_frame :
    (control dst src : ℕ) (user_data rest : List ℕ)
    → dst < 2 ^ 16
    → src < 2 ^ 16
    → src_dst (link_frame control dst src user_data ++ rest) ≡ src * 2 ^ 16 + dst
unfolding link_frame with_crc
src_dst-link_frame control dst src user_data rest h l = address-bytes dst src h l

transport-fragment :
    (control dst src : ℕ) (fir fin : Bool) (seq : ℕ) (app rest : List ℕ)
    → get_or (fragment control dst src fir fin seq app ++ rest) 10 0 ≡ transport_byte fir fin seq
unfolding link_frame with_crc with_crcs
transport-fragment control dst src fir fin seq app rest = refl

drop-header :
    (control dst src : ℕ) (user_data rest : List ℕ)
    → drop 10 (link_frame control dst src user_data ++ rest)
      ≡ with_crcs (length user_data) user_data ++ rest
unfolding link_frame with_crc
drop-header control dst src user_data rest = refl

-- A fragment that a sender makes, of at most 249 bytes after the transport byte, is found by
-- `CheckFrame` whole, whatever comes after it: with its length, both its flags, its addresses as the
-- flow, and its sequence number.
pub dnp3_check_frame-fragment :
    (control dst src : ℕ) (fir fin : Bool) (seq : ℕ) (app rest : List ℕ)
    → dst < 2 ^ 16
    → src < 2 ^ 16
    → seq < 64
    → length app ≤ 249
    → dnp3_check_frame (fragment control dst src fir fin seq app ++ rest)
      ≡ frame (length (fragment control dst src fir fin seq app)) fir fin (src * 2 ^ 16 + dst) seq
unfolding check_body blocks_frame full_length
dnp3_check_frame-fragment control dst src fir fin seq app rest d s q l =
    let user_data = transport_byte fir fin seq ∷ app in
    let sent = link_frame control dst src user_data in
    let buf = sent ++ rest in
    let size = length-link_frame control dst src user_data (omega arith) in
    let good =
      check_blocks-with_crcs (length sent) (length user_data) 10 (length sent) user_data rest buf
        (omega arith) (omega arith) (drop-header control dst src user_data rest)
        (ground (arith, size)) (omega arith) in
    let fields = transport_byte-fields fir fin seq q in
    check-link_frame control dst src user_data rest (omega arith)
    ∙ ground (
      arith,
      size,
      good.1,
      fields,
      length-append sent rest,
      transport-fragment control dst src fir fin seq app rest,
      src_dst-link_frame control dst src user_data rest d s,
    )
