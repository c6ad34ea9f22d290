-- ===== src/Timecode.antt =====
-- timecode.c: the decoder of SMPTE linear timecode from an audio signal, as built for the camera.
-- A sample that crosses the threshold ends a clock period; periods make bits, bits make bytes after the
-- sync word, and eight bytes make a frame.
pub mod Bounds
pub mod Bytes
pub mod Frame
pub mod Clock
pub mod Decode
mod Tests
use magic_lantern.Common.{
  ℕ, zero, suc, ◌+◌, ◌-◌, ◌*◌, ◌/◌, ◌%◌, ◌^◌, Bool, true, false, ◌&&◌, Option, none, some, List, [],
  ◌∷◌, ltb, ◌==◌, if◌then◌else◌, bit_and, bit_or, set, get_or,
}
use magic_lantern.Common.Int.{ℤ, pos, negsuc, ltb_ℤ}
use magic_lantern.Common.Word.{u32}

-- The static variables of `tc_sample`, and `smpte_frame`.
pub record Decoder : Type 0 where
  pub last_transition : ℕ
  pub bit : ℕ
  pub last_bit : ℕ
  pub word : ℕ
  pub synced : Bool
  pub byte_count : ℕ
  pub frame : List ℕ

-- The bits of a byte in the other order.
unfoldable pub reverse_bits : ℕ → ℕ
reverse_bits w = bit_or (bit_and w 0x01 * 2 ^ 7) (
    bit_or (bit_and w 0x02 * 2 ^ 5) (
      bit_or (bit_and w 0x04 * 2 ^ 3) (
        bit_or (bit_and w 0x08 * 2 ^ 1) (
          bit_or (bit_and w 0x10 / 2 ^ 1) (
            bit_or (bit_and w 0x20 / 2 ^ 3)
              (bit_or (bit_and w 0x40 / 2 ^ 5) (bit_and w 0x80 / 2 ^ 7)))))))

-- Eight bits are there: the byte is stored. The result is 1 at the end of a frame.
unfoldable pub store_byte : Decoder → Decoder × Bool
store_byte s =
    let t = record s {
      frame = set s.frame s.byte_count (reverse_bits s.word);
      byte_count = s.byte_count + 1;
      word = 1;
    } in
    if ltb t.byte_count 8 then (t, false) else (record t { synced = false }, true)

-- `tc_sample` from `word = (word << 1) | new_bit` on.
unfoldable pub push_bit : ℕ → Decoder → Decoder × Bool
push_bit new_bit s =
    let t = record s { word = u32 (s.word * 2 + new_bit) } in
    if t.synced
    then if t.word / 256 % 2 == 0 then (t, false) else store_byte t
    else if t.word % 2 ^ 16 == 0x3FFD
    then (record t { synced = true; word = 1; byte_count = 0 }, false)
    else (t, false)

abbrev pub zero_len : ℕ
zero_len = 0x1A0

abbrev pub one_len : ℕ
one_len = 0xD0

abbrev pub eps : ℕ
eps = 0x30

-- The part of `tc_sample` that reads the clock period before a transition.
unfoldable pub period : ℕ → Decoder → Decoder × Bool
period delta s =
    if ltb (zero_len - eps) delta && ltb delta (zero_len + eps)
    then push_bit 0 s
    else if ltb (one_len - eps) delta && ltb delta (one_len + eps)
    then if u32 (s.last_bit + 1) % 2 == 1
      then (record s { last_bit = u32 (s.last_bit + 1) }, false)
      else push_bit 1 (record s { last_bit = 0 })
    else (record s { synced = false; word = 0 }, false)

-- The bit of a sample, with the hysteresis about 0.
unfoldable pub sample_bit : ℤ → ℕ → ℕ
sample_bit sample bit =
    if ltb_ℤ (pos 1000) sample then 0 else if ltb_ℤ sample (negsuc 999) then 1 else bit

-- `tc_sample` of a sample at clock value `now`. The timer has 24 bits.
unfoldable pub tc_sample : ℤ → ℕ → Decoder → Decoder × Bool
tc_sample sample now s =
    let bit = sample_bit sample s.bit in
    if bit == s.bit
    then (s, false)
    else period ((now + 2 ^ 32 - s.last_transition) % 2 ^ 24)
        (record s { bit = bit; last_transition = now })

pub record Time : Type 0 where
  pub h : ℕ
  pub m : ℕ
  pub s : ℕ
  pub f : ℕ

-- `BCD_BITS(x)` of the byte `x/8`
abbrev pub bcd_bits : List ℕ → ℕ → ℕ
bcd_bits frame i = get_or frame i 0 % 16

unfoldable pub decode : List ℕ → Time
decode frame = record {
  h = bcd_bits frame 6 + 10 * (bcd_bits frame 7 % 4);
  m = bcd_bits frame 4 + 10 * bcd_bits frame 5;
  s = bcd_bits frame 2 + 10 * (bcd_bits frame 3 % 8);
  f = bcd_bits frame 0 + 10 * (bcd_bits frame 1 % 4);
}

-- One round of `process_timecode`: the time to show, if a frame is complete.
unfoldable pub process_sample : ℤ → ℕ → Decoder → Decoder × Option Time
process_sample sample now s =
    let (t, complete) = tc_sample sample now s in
    (t, if complete then some (decode t.frame) else none)
