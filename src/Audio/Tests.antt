-- ===== src/Audio/Tests.antt =====
-- The audio part at concrete inputs.
use magic_lantern.Common.{ℕ, ◌+◌, ◌*◌, ◌/◌, ◌%◌, ◌<◌, ◌≡◌, [], ◌∷◌, arith, ◌==◌, if◌then◌else◌}
use magic_lantern.Common.Int.{ℤ, pos, negsuc}
use magic_lantern.Common.Memory.{update}
use magic_lantern.Audio.{AudioLevel, readings}
use magic_lantern.Audio.Levels.{IsValid, readings-IsValid}
use magic_lantern.Audio.Codec.{Codec, Gain, defaults}
use magic_lantern.Audio.Codec.Presses
use magic_lantern.Audio.Codec.Chosen.{selects, selects-Holds}
use magic_lantern.Audio.Codec.Settled.{Holds}

abbrev quiet : AudioLevel
quiet = record { last = 0; avg = 0; peak = 0 }

abbrev loud : AudioLevel
loud = record { last = 9; avg = 3; peak = 9 }

quiet-IsValid : IsValid quiet
quiet-IsValid = record { avg_max = omega arith; peak_max = omega arith; last_max = omega arith }

loud-IsValid : IsValid loud
loud-IsValid = record { avg_max = omega arith; peak_max = omega arith; last_max = omega arith }

readings-IsValid_example : IsValid (readings (negsuc 32767 ∷ pos 100 ∷ []) quiet)
readings-IsValid_example =
    readings-IsValid (negsuc 32767 ∷ pos 100 ∷ []) quiet (omega arith) quiet-IsValid

-- A table with one step for each decibel.
abbrev thresholds : ℕ → ℤ
thresholds db = pos (41 * 800 + 800 * db)

bank_read-write :
    (c : ℕ → ℕ) (cmd reg : ℕ)
    → update c (cmd / 256) (cmd % 256) (reg * 256 / 256) % 256
      ≡ (if cmd / 256 == reg then cmd % 256 else c (reg * 256 / 256) % 256)
bank_read-write c cmd reg = let back : reg * 256 / 256 ≡ reg = omega arith in rw back (ground arith)

bank_read-lt : (c : ℕ → ℕ) (reg : ℕ) → c (reg / 256) % 256 < 256
bank_read-lt c reg = omega arith

-- A codec that is a bank of registers.
abbrev bank : Codec
bank = record {
  State = ℕ → ℕ;
  audio_ic_read = λ c reg. c (reg / 256) % 256;
  audio_ic_write = λ c cmd. update c (cmd / 256) (cmd % 256);
  read-write = bank_read-write;
  read-lt = bank_read-lt;
}

abbrev forgotten : Gain
forgotten = record { alc1 = 0; sig1 = 0; sig2 = 0 }

defaults-IsValid : Presses.IsValid defaults
defaults-IsValid = record {
  mgain_max = omega arith;
  dgain_l_max = omega arith;
  dgain_r_max = omega arith;
  lovl_max = omega arith;
  loopback_max = omega arith;
}

selects-Holds_example :
    let (s, (g, t)) =
      selects bank
        (Presses.dgain_l ∷ Presses.enable_meters 1 ∷ Presses.mgain ∷ [])
        (defaults, (forgotten, λ r. 255)) in
    Presses.IsValid s × Holds bank s g t
selects-Holds_example =
    selects-Holds bank Presses.dgain_l (Presses.enable_meters 1 ∷ Presses.mgain ∷ []) defaults
      forgotten (λ r. 255) defaults-IsValid
