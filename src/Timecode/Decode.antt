-- ===== src/Timecode/Decode.antt =====
-- The time of a frame.
use magic_lantern.Common.{ℕ, ◌+◌, ◌*◌, ◌/◌, ◌%◌, ◌<◌, ◌≡◌, List, [], ◌∷◌, arith}
use magic_lantern.Timecode.{Time, decode}

-- A time in binary coded decimal, with the other four bits of each byte, and the flag bits
-- beside the tens of the frames, the seconds, the minutes and the hours.
pub encode : Time → (user : ℕ → ℕ) → (df sf mf hf : ℕ) → List ℕ
encode t user df sf mf hf =
    (t.f % 10 + 16 * user 0)
    ∷ (t.f / 10 + 4 * df + 16 * user 1)
    ∷ (t.s % 10 + 16 * user 2)
    ∷ (t.s / 10 + 8 * sf + 16 * user 3)
    ∷ (t.m % 10 + 16 * user 4)
    ∷ (t.m / 10 + 8 * mf + 16 * user 5)
    ∷ (t.h % 10 + 16 * user 6)
    ∷ (t.h / 10 + 4 * hf + 16 * user 7)
    ∷ []

pub record IsTime (t : Time) : Type 0 where
  pub hours : t.h < 24
  pub minutes : t.m < 60
  pub seconds : t.s < 60
  pub frames : t.f < 30

-- A valid time, sent with any user bits and any flags but the one beside the minutes, is decoded to
-- that time.
pub decode-encode :
    (t : Time) (user : ℕ → ℕ) (df sf hf : ℕ)
    → IsTime t
    → df < 4
    → sf < 2
    → hf < 4
    → decode (encode t user df sf 0 hf) ≡ t
unfolding decode encode
decode-encode t user df sf hf v a b c = λ i. record { h = hh i; m = mm i; s = ss i; f = ff i }
  where
    hh : (t.h % 10 + 16 * user 6) % 16 + 10 * ((t.h / 10 + 4 * hf + 16 * user 7) % 16 % 4) ≡ t.h
    hh = omega arith

    mm : (t.m % 10 + 16 * user 4) % 16 + 10 * ((t.m / 10 + 8 * 0 + 16 * user 5) % 16) ≡ t.m
    mm = omega arith

    ss : (t.s % 10 + 16 * user 2) % 16 + 10 * ((t.s / 10 + 8 * sf + 16 * user 3) % 16 % 8) ≡ t.s
    ss = omega arith

    ff : (t.f % 10 + 16 * user 0) % 16 + 10 * ((t.f / 10 + 4 * df + 16 * user 1) % 16 % 4) ≡ t.f
    ff = omega arith

-- The flag beside the minutes is not masked: where it is set, 80 minutes are added.
decode-encode_flag :
    (t : Time) (user : ℕ → ℕ) (df sf hf : ℕ)
    → IsTime t
    → (decode (encode t user df sf 1 hf)).m ≡ t.m + 80
unfolding decode encode
decode-encode_flag t user df sf hf v = omega arith
