-- ===== src/Timecode/Bounds.antt =====
-- The decoder never writes outside `smpte_frame`.
use magic_lantern.Common.{
  ℕ, ◌+◌, ◌*◌, ◌%◌, ◌^◌, ◌≤◌, ◌<◌, ◌≡◌, true, List, [], ◌∷◌, arith, length, length-set, Bool-cases,
  inl, inr, ◌==◌,
}
use magic_lantern.Common.Int.{ℤ}
use magic_lantern.Timecode.{
  Decoder, reverse_bits, store_byte, push_bit, period, sample_bit, tc_sample,
}

-- Between two samples. While it is locked the decoder has less than eight bits behind a leading 1,
-- and the next byte has a place in the frame.
pub record IsValid (s : Decoder) : Type 0 where
  pub places : length s.frame ≡ 8
  pub leading_one : s.synced ≡ true → 1 ≤ s.word
  pub few_bits : s.synced ≡ true → s.word < 256
  pub in_frame : s.synced ≡ true → s.byte_count < 8
  pub counted : s.byte_count ≤ 8

store_byte-IsValid :
    (s : Decoder) → length s.frame ≡ 8 → s.byte_count < 8 → IsValid (store_byte s).0
unfolding store_byte
store_byte-IsValid s l h = ground (arith, length-set s.frame s.byte_count (reverse_bits s.word))

push_bit-IsValid : (b : ℕ) (s : Decoder) → b < 2 → IsValid s → IsValid (push_bit b s).0
unfolding push_bit
push_bit-IsValid b s h v = ground (
  arith,
  v.leading_one,
  v.few_bits,
  v.in_frame,
  store_byte-IsValid (record s { word = (s.word * 2 + b) % 2 ^ 32 }),
)

period-IsValid : (delta : ℕ) (s : Decoder) → IsValid s → IsValid (period delta s).0
unfolding period
period-IsValid delta s v =
    ground (arith, push_bit-IsValid 0 s, push_bit-IsValid 1 (record s { last_bit = 0 }))

-- Every sample, at every time, keeps the decoder valid.
pub tc_sample-IsValid :
    (sample : ℤ) (now : ℕ) (s : Decoder) → IsValid s → IsValid (tc_sample sample now s).0
unfolding tc_sample
tc_sample-IsValid sample now s v = elim (Bool-cases (sample_bit sample s.bit == s.bit)) [
  | inl e ↦ rw e v
  | inr e ↦ rw e (
      period-IsValid _ (record s { bit = sample_bit sample s.bit; last_transition = now })
        (record {
          places = v.places;
          leading_one = v.leading_one;
          few_bits = v.few_bits;
          in_frame = v.in_frame;
          counted = v.counted;
        }))
]

-- Samples with the clock values at which they are read.
unfoldable pub samples : List (ℤ × ℕ) → Decoder → Decoder
samples [] s = s
samples ((sample, now) ∷ rest) s = samples rest (tc_sample sample now s).0

-- Whatever the samples and the clock are, the frame keeps its eight places, and a decoder that is locked
-- has a place for the next byte, so no byte is written outside of the frame.
pub samples-IsValid : (l : List (ℤ × ℕ)) (s : Decoder) → IsValid s → IsValid (samples l s)
unfolding samples
samples-IsValid [] s v = v
samples-IsValid ((sample, now) ∷ rest) s v =
    samples-IsValid rest (tc_sample sample now s).0 (tc_sample-IsValid sample now s v)
