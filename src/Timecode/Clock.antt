-- ===== src/Timecode/Clock.antt =====
-- From transitions to bits: a 0 is one long clock period, a 1 two short ones.
use magic_lantern.Common.{
  ℕ, ◌+◌, ◌<◌, ◌≡◌, refl, sym, ◌∙◌, length, false, List, [], ◌∷◌, arith, if◌then◌else◌,
}
use magic_lantern.Common.Text.{All}
use magic_lantern.Timecode.{Decoder, push_bit, store_byte, period, zero_len, one_len, eps}
use magic_lantern.Timecode.Frame.{seen, stream, seen-stream}

-- A bit on the wire, with the clock periods that carry it.
pub data Symbol : Type 0 where
  long : ℕ → Symbol
  short : ℕ → ℕ → Symbol

abbrev pub InTime : ℕ → ℕ → Type 0
InTime len delta = (len < delta + eps) × (delta < len + eps)

abbrev pub IsClean : Symbol → Type 0
IsClean (long d) = InTime zero_len d
IsClean (short d e) = InTime one_len d × InTime one_len e

abbrev pub value : Symbol → ℕ
value (long d) = 0
value (short d e) = 1

abbrev pub values : List Symbol → List ℕ
values [] = []
values (x ∷ xs) = value x ∷ values xs

abbrev pub periods : List Symbol → List ℕ
periods [] = []
periods (long d ∷ xs) = d ∷ periods xs
periods (short d e ∷ xs) = d ∷ e ∷ periods xs

-- The frames that are complete along some clock periods.
unfoldable pub seen_periods : List ℕ → Decoder → List (List ℕ)
seen_periods [] s = []
seen_periods (d ∷ ds) s =
    let (t, complete) = period d s in
    let rest = seen_periods ds t in if complete then t.frame ∷ rest else rest

period_long : (d : ℕ) (s : Decoder) → InTime zero_len d → period d s ≡ push_bit 0 s
unfolding period
period_long d s h = ground (arith, h.0, h.1)

period_first :
    (d : ℕ) (s : Decoder)
    → InTime one_len d
    → s.last_bit ≡ 0
    → period d s ≡ (record s { last_bit = 1 }, false)
unfolding period
period_first d s h z = ground (arith, h.0, h.1, z)

period_second :
    (d : ℕ) (s : Decoder)
    → InTime one_len d
    → s.last_bit ≡ 1
    → period d s ≡ push_bit 1 (record s { last_bit = 0 })
unfolding period
period_second d s h z = ground (arith, h.0, h.1, z)

last_bit-push_bit : (b : ℕ) (s : Decoder) → (push_bit b s).0.last_bit ≡ s.last_bit
unfolding push_bit store_byte
last_bit-push_bit b s = ground arith

reset_idle : (s : Decoder) → s.last_bit ≡ 0 → record s { last_bit = 0 } ≡ s
reset_idle s z = λ i. record s { last_bit = sym z i }

-- With every period within the tolerance, the decoder sees the same frames as from the bits themselves.
seen_periods-eq-seen :
    (xs : List Symbol) (s : Decoder)
    → All IsClean xs
    → s.last_bit ≡ 0
    → seen_periods (periods xs) s ≡ seen (values xs) s
unfolding seen_periods seen
seen_periods-eq-seen [] s h z = refl
seen_periods-eq-seen (long d ∷ xs) s h z =
    rw (period_long d s h.0)
      (rw (seen_periods-eq-seen xs (push_bit 0 s).0 h.1 (last_bit-push_bit 0 s ∙ z)) refl)
seen_periods-eq-seen (short d e ∷ xs) s h z = rw (period_first d s h.0.0 z) (
    rw (period_second e (record s { last_bit = 1 }) h.0.1 refl, reset_idle s z)
      (rw (seen_periods-eq-seen xs (push_bit 1 s).0 h.1 (last_bit-push_bit 1 s ∙ z)) refl))

-- A signal whose clock periods are all within the tolerance and whose bits are a stream of frames is
-- decoded to exactly these frames, in order, by a decoder that hunts between two bits.
pub seen_periods-stream :
    (xs : List Symbol) (frames : List (List ℕ)) (s : Decoder)
    → All IsClean xs
    → values xs ≡ stream frames
    → All (λ vs. All (λ v. v < 256) vs × (length vs ≡ 8)) frames
    → length s.frame ≡ 8
    → s.synced ≡ false
    → s.last_bit ≡ 0
    → seen_periods (periods xs) s ≡ frames
seen_periods-stream xs frames s clean e h f y z =
    seen_periods-eq-seen xs s clean z ∙ rw e (seen-stream frames s h f y)
