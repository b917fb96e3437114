-- ===== src/Rtcm/Framer.antt =====
-- `RtcmStreamFramer` of src/rtcm_decoder_ntrip.cpp: frames out of a stream of bytes.
-- The loop of `push` walks an index `i` over `buf_`, which it does not change; the model walks the
-- rest of the buffer from `i`, and what it leaves is what `erase(begin, begin + i)` leaves.
pub mod Next
pub mod Split
pub mod Frame
pub mod Frames
use rtcmbridge.Base.{
  ℕ, zero, suc, ◌+◌, ◌-◌, ◌*◌, ◌%◌, ◌^◌, List, [], ◌∷◌, ◌++◌, ltb, ◌==◌, if◌then◌else◌, Bytes,
  length, get_or, take, drop,
}
use rtcmbridge.Rtcm.Crc.{crc24q}
use rtcmbridge.Rtcm.Decoder.{decode}
use rtcmbridge.Rtcm.Output.{Stream}

-- `lines` is what `print_line` has written, oldest first, less the time and the tag.
pub record Framer : Type 0 where
  pub buf : Bytes
  pub frames_ok : ℕ
  pub frames_bad_crc : ℕ
  pub lines : List Stream

abbrev pub new_framer : Framer
new_framer = record { buf = []; frames_ok = 0; frames_bad_crc = 0; lines = [] }

abbrev pub max_buffer : ℕ
max_buffer = 1024 * 1024

-- `while (i < buf_.size() && buf_[i] != 0xD3) ++i;`
unfoldable pub skip_to_preamble : Bytes → Bytes
skip_to_preamble [] = []
skip_to_preamble (b ∷ bs) = if b == 0xD3 then b ∷ bs else skip_to_preamble bs

-- The length field: ((p[1] & 0x03) << 8) | p[2].
unfoldable pub payload_len : Bytes → ℕ
payload_len p = get_or p 1 0 % 4 * 2 ^ 8 + get_or p 2 0

-- The three bytes behind the payload.
unfoldable pub got_crc : Bytes → ℕ
got_crc p =
    let at = 3 + payload_len p in
    get_or p at 0 * 2 ^ 16 + get_or p (at + 1) 0 * 2 ^ 8 + get_or p (at + 2) 0

-- One turn of the loop: it breaks, takes a frame, or gives a preamble up.
pub data Turn : Type 0 where
  break : Bytes → Turn
  accept : Bytes → Bytes → Turn
  reject : Bytes → Turn

unfoldable pub check_frame : Bytes → Turn
check_frame p =
    if ltb (length p) 3
    then break p
    else if ltb (length p) (3 + payload_len p + 3)
    then break p
    else if got_crc p == crc24q (take (3 + payload_len p) p)
    then accept (take (payload_len p) (drop 3 p)) (drop (3 + payload_len p + 3) p)
    else reject (drop 1 p)

unfoldable pub next : Bytes → Turn
next bytes = check_frame (skip_to_preamble bytes)

-- `++frames_ok_; print_line(tag, decoder.decode(p + 3, payload_len));`
abbrev pub accepted : Framer → Bytes → Framer
accepted s payload = record s {
  frames_ok = (s.frames_ok + 1) % 2 ^ 64;
  lines = s.lines ++ (decode payload ∷ []);
}

abbrev pub rejected : Framer → Framer
rejected s = record s { frames_bad_crc = (s.frames_bad_crc + 1) % 2 ^ 64 }

-- The loop, on fuel: every turn that does not break takes a byte at least.
unfoldable pub scan : ℕ → Framer → Bytes → Framer
scan zero s bytes = record s { buf = bytes }
scan (suc fuel) s bytes = elim (next bytes) [
  | break rest ↦ record s { buf = rest }
  | accept payload rest ↦ scan fuel (accepted s payload) rest
  | reject rest ↦ scan fuel (rejected s) rest
]

-- `buf_.erase(buf_.begin(), buf_.end() - max_buffer_)` when the buffer is too large.
unfoldable pub cap_buffer : Framer → Framer
cap_buffer s =
    if ltb max_buffer (length s.buf)
    then record s { buf = drop (length s.buf - max_buffer) s.buf }
    else s

unfoldable pub push : Framer → Bytes → Framer
push s bytes =
    if length bytes == 0
    then s
    else let all = s.buf ++ bytes in cap_buffer (scan (length all + 1) s all)
