-- ===== src/Timecode/Tests.antt =====
-- The decoder at concrete inputs.
use magic_lantern.Common.{ℕ, ◌≡◌, refl, false, List, [], ◌∷◌, arith, map, replicate}
use magic_lantern.Common.Int.{pos, negsuc}
use magic_lantern.Timecode.{Decoder, Time, decode}
use magic_lantern.Timecode.Bounds.{IsValid, samples, samples-IsValid}
use magic_lantern.Timecode.Bytes.{feed}
use magic_lantern.Timecode.Frame.{
  frame_bits, frame_returns, feed-frame_bits, stream, seen, seen-stream,
}
use magic_lantern.Timecode.Clock.{Symbol, long, short, periods, seen_periods, seen_periods-stream}
use magic_lantern.Timecode.Decode.{encode, decode-encode}

abbrev idle : Decoder
idle = record {
  last_transition = 0;
  bit = 0;
  last_bit = 0;
  word = 0;
  synced = false;
  byte_count = 0;
  frame = replicate 8 0;
}

-- 12:34:56, frame 7
abbrev noon : Time
noon = record { h = 12; m = 34; s = 56; f = 7 }

abbrev sent : List ℕ
sent = 7 ∷ 0 ∷ 6 ∷ 5 ∷ 4 ∷ 3 ∷ 2 ∷ 1 ∷ []

samples-IsValid_example : IsValid (samples ((pos 2000, 5) ∷ (negsuc 2000, 213) ∷ []) idle)
samples-IsValid_example =
    samples-IsValid ((pos 2000, 5) ∷ (negsuc 2000, 213) ∷ []) idle (ground arith)

feed-frame_bits_example :
    feed (frame_bits sent) idle
    ≡ (record idle { frame = sent; byte_count = 8; word = 1; synced = false }, frame_returns)
feed-frame_bits_example = feed-frame_bits sent idle (omega arith) refl refl refl

seen-stream_example : seen (stream (sent ∷ sent ∷ [])) idle ≡ sent ∷ sent ∷ []
seen-stream_example = seen-stream (sent ∷ sent ∷ []) idle (ground arith) refl refl

-- The symbol of a bit, with periods that are off by some ticks.
abbrev carry : ℕ → Symbol
carry b = elim b [ ℕ.zero ↦ long 400 | _ ↦ short 200 220 ]

decode-sent : decode sent ≡ noon
unfolding decode
decode-sent = refl

decode-encode_example : decode (encode noon (λ i. i) 1 1 0 2) ≡ noon
decode-encode_example =
    decode-encode noon (λ i. i) 1 1 2 (omega arith) (omega arith) (omega arith) (omega arith)

seen_periods-stream_example :
    seen_periods (periods (map carry (stream (sent ∷ [])))) idle ≡ sent ∷ []
seen_periods-stream_example =
    seen_periods-stream (map carry (stream (sent ∷ []))) (sent ∷ []) idle (ground arith) refl
      (ground arith) refl refl refl
