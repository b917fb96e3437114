-- ===== src/Rtcm/Messages/Descriptors/Receivers.antt =====
-- The message 1033 is written out as it was encoded.
use rtcmbridge.Base.{ℕ, ◌^◌, ◌<◌, ◌≡◌, refl, List, ◌++◌, some, Bytes, length}
use rtcmbridge.Rtcm.BitReader.{BitReader}
use rtcmbridge.Rtcm.BitReader.Bits.{to_bits}
use rtcmbridge.Rtcm.Output.{Stream}
use rtcmbridge.Rtcm.Reading.Decodes.{At}
use rtcmbridge.Rtcm.Messages.Descriptors.{
  Receiver, receiver_text, receiver_sn, receiver_fw, receiver_type, receiver_setup, decode_1033,
}
use rtcmbridge.Rtcm.Messages.Descriptors.RoundTrip.{
  text_bits, IsText, shown, two_fields, sized_text, read_setup-Decodes, read_descriptor-Decodes,
  read_ascii-text_bits,
}

-- The numbers and the texts fit their fields.
pub record InRange (r : Receiver) : Type 0 where
  pub stid : r.stid < 2 ^ 12
  pub ant_desc : IsText r.ant_desc
  pub setup : r.setup < 2 ^ 8
  pub ant_sn : IsText r.ant_sn
  pub rx_type : IsText r.rx_type
  pub rx_fw : IsText r.rx_fw
  pub rx_sn : IsText r.rx_sn

sized : Bytes → List ℕ → List ℕ
sized s rest = to_bits 8 (length s) ++ (text_bits s ++ rest)

-- The bits of the message behind its type, and then `rest`.
unfoldable pub receiver_bits : Receiver → List ℕ → List ℕ
unfolding sized two_fields
receiver_bits r rest =
    two_fields 12 r.stid 8 (length r.ant_desc)
    ++ (text_bits r.ant_desc
        ++ (two_fields 8 r.setup 8 (length r.ant_sn)
            ++ (text_bits r.ant_sn ++ sized r.rx_type (sized r.rx_fw (sized r.rx_sn rest)))))

-- The receiver as it is shown.
abbrev pub shown_receiver : Receiver → Receiver
shown_receiver r = record r {
  ant_desc = shown r.ant_desc;
  ant_sn = shown r.ant_sn;
  rx_type = shown r.rx_type;
  rx_fw = shown r.rx_fw;
  rx_sn = shown r.rx_sn;
}

pub decode_1033-receiver_bits :
    (r : Receiver) (br : BitReader) (rest : List ℕ) (oss : Stream)
    → InRange r
    → At br (receiver_bits r rest)
    → decode_1033 1033 br oss ≡ some (oss ++ receiver_text (shown_receiver r))
unfolding receiver_bits sized decode_1033 receiver_setup receiver_type receiver_fw receiver_sn
decode_1033-receiver_bits r br rest oss f at =
    let (br1, e1, at1) =
      (read_descriptor-Decodes r.stid (length r.ant_desc) f.stid f.ant_desc.short).run br _ at in
    let (br2, e2, at2) = read_ascii-text_bits r.ant_desc br1 _ f.ant_desc.bytes at1 in
    let (br3, e3, at3) =
      (read_setup-Decodes r.setup (length r.ant_sn) f.setup f.ant_sn.short).run br2 _ at2 in
    let (br4, e4, at4) = read_ascii-text_bits r.ant_sn br3 _ f.ant_sn.bytes at3 in
    let (br5, br6, e5, e6, at6) = sized_text r.rx_type br4 _ f.rx_type at4 in
    let (br7, br8, e7, e8, at8) = sized_text r.rx_fw br6 _ f.rx_fw at6 in
    let (br9, br10, e9, e10, _) = sized_text r.rx_sn br8 rest f.rx_sn at8 in
    rw (e1, decode_1033)
      (rw e2 (
        rw (e3, receiver_setup)
          (rw e4 (
            rw (e5, receiver_type)
              (rw e6 (rw (e7, receiver_fw) (rw e8 (rw (e9, receiver_sn) (rw e10 refl)))))))))
