-- ===== src/Tests/Framing.antt =====
-- `RtcmStreamFramer` of src/rtcm_decoder_ntrip.cpp on concrete streams.
use mathlib.Core.List.{flatten}
use rtcmbridge.Base.{◌≡◌, refl, List, [], ◌∷◌, ◌++◌, arith, Bytes, drop}
use rtcmbridge.Rtcm.Framer.{new_framer, push, next, reject}
use rtcmbridge.Rtcm.Framer.Split.{
  IsSettled, new_framer-IsSettled, push_all, push_all-flatten, push-IsSettled,
}
use rtcmbridge.Rtcm.Framer.Frame.{arrived, next-damaged}
use rtcmbridge.Rtcm.Framer.Frames.{stream_of, after_frames, push-stream_of}

push_all-flatten_example :
    push_all new_framer ((0xD3 ∷ 0 ∷ []) ∷ (1 ∷ 7 ∷ []) ∷ [])
    ≡ push new_framer (0xD3 ∷ 0 ∷ 1 ∷ 7 ∷ [])
unfolding flatten
push_all-flatten_example =
    push_all-flatten new_framer ((0xD3 ∷ 0 ∷ []) ∷ (1 ∷ 7 ∷ []) ∷ []) new_framer-IsSettled
      ((omega arith, (omega arith, tt)), ((omega arith, (omega arith, tt)), tt))

push-IsSettled_example : IsSettled (push new_framer (0xD3 ∷ 0 ∷ 1 ∷ []))
push-IsSettled_example =
    push-IsSettled new_framer (0xD3 ∷ 0 ∷ 1 ∷ []) new_framer-IsSettled
      (omega arith, (omega arith, (omega arith, tt)))

-- Two frames, one behind a byte of noise.
abbrev items : List (Bytes × Bytes)
items = (5 ∷ [], 0x3E ∷ 0xD0 ∷ []) ∷ ([], 7 ∷ []) ∷ []

push-stream_of_example : push new_framer (stream_of items) ≡ after_frames new_framer items
push-stream_of_example = push-stream_of new_framer items refl (omega arith) (
  ((omega arith, tt), (omega arith, tt), (omega arith, (omega arith, tt)), omega arith),
  ((tt, tt, (omega arith, tt), omega arith), tt),
)

next-damaged_example :
    next (arrived (0x3E ∷ 0xD0 ∷ []) (0x3E ∷ 0xD1 ∷ []) ++ (9 ∷ []))
    ≡ reject (drop 1 (arrived (0x3E ∷ 0xD0 ∷ []) (0x3E ∷ 0xD1 ∷ [])) ++ (9 ∷ []))
next-damaged_example =
    next-damaged [] (0x3E ∷ []) [] (9 ∷ []) 0xD0 0xD1 tt (omega arith, tt) tt (omega arith)
      (omega arith) (omega arith) (omega arith)
