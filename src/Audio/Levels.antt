-- ===== src/Audio/Levels.antt =====
-- The range of the levels of audio.c.
use magic_lantern.Common.{ℕ, zero, suc, ◌-◌, ◌^◌, ◌≤◌, ◌≡◌, List, [], ◌∷◌, arith, replicate}
use magic_lantern.Common.Int.{ℤ, pos, magnitude}
use magic_lantern.Common.Text.{All}
use magic_lantern.Audio.{AudioLevel, compute_audio_levels, readings}

-- The average is not above the peak, and both are in the range of a sample of 16 bits.
pub record IsValid (level : AudioLevel) : Type 0 where
  pub avg_max : level.avg ≤ level.peak
  pub peak_max : level.peak ≤ 2 ^ 15
  pub last_max : level.last ≤ 2 ^ 15

compute_audio_levels-IsValid :
    (raw : ℤ) (level : AudioLevel)
    → magnitude raw ≤ 2 ^ 15
    → IsValid level
    → IsValid (compute_audio_levels raw level)
unfolding compute_audio_levels
compute_audio_levels-IsValid raw level h v = ground arith

-- Whatever samples of 16 bits are read, the average level is not above the peak, and both stay within 2 ^ 15, as the
-- last sample does.
pub readings-IsValid :
    (raws : List ℤ) (level : AudioLevel)
    → All (λ raw. magnitude raw ≤ 2 ^ 15) raws
    → IsValid level
    → IsValid (readings raws level)
unfolding readings
readings-IsValid [] level h v = v
readings-IsValid (raw ∷ raws) level h v =
    readings-IsValid raws (compute_audio_levels raw level) h.1
      (compute_audio_levels-IsValid raw level h.0 v)

-- A sample of 0 takes something off the average and off the peak, unless they are 0.
silence_one :
    (level : AudioLevel)
    → level.avg ≤ level.peak
    → let next = compute_audio_levels (pos 0) level in
      (next.avg ≤ level.avg - 1) × (next.peak ≤ level.peak - 1) × (next.avg ≤ next.peak)
unfolding compute_audio_levels
silence_one level v = ground arith

-- In silence the meters fall to 0, in as many samples as the peak is high.
readings-silence :
    (n : ℕ) (level : AudioLevel)
    → level.avg ≤ level.peak
    → level.peak ≤ n
    → ((readings (replicate n (pos 0)) level).avg ≡ 0)
      × ((readings (replicate n (pos 0)) level).peak ≡ 0)
unfolding readings
readings-silence zero level v h = (omega arith, omega arith)
readings-silence (suc n) level v h =
    let (less, lower, still) = silence_one level v in
    readings-silence n (compute_audio_levels (pos 0) level) still (omega arith)
