-- ===== src/Audio.antt =====
-- audio.c: the levels of the two channels and what the meters show of them. The codec and its settings are in
-- Audio/Codec.
pub mod Levels
pub mod Decibels
pub mod Meter
pub mod Codec
mod Tests
use magic_lantern.Common.{ℕ, zero, suc, ◌+◌, ◌*◌, ◌/◌, Bool, List, [], ◌∷◌, ltb, if◌then◌else◌}
use magic_lantern.Common.Int.{ℤ, pos, ltb_ℤ, neg_ℕ, magnitude}

-- `struct audio_level`. The levels start at 0, and an absolute value is added: none is negative.
pub record AudioLevel : Type 0 where
  pub last : ℕ
  pub avg : ℕ
  pub peak : ℕ

-- `compute_audio_levels` for one channel; `raw` is the sample of 16 bits that `audio_read_level` gives.
unfoldable pub compute_audio_levels : ℤ → AudioLevel → AudioLevel
compute_audio_levels raw level =
    let raw = magnitude raw in
    let avg = (level.avg * 15 + raw) / 16 in
    let peak = if ltb level.peak raw then raw else level.peak in
    record { last = raw; avg = avg; peak = (peak * 31 + avg) / 32 }

-- The rounds of `compute_audio_level_task`.
unfoldable pub readings : List ℤ → AudioLevel → AudioLevel
readings [] level = level
readings (raw ∷ rest) level = readings rest (compute_audio_levels raw level)

-- The loop of `audio_level_to_db`, from `db` down; `audio_thresholds` is a table of the firmware.
unfoldable pub find_db : (ℕ → ℤ) → ℕ → ℕ → ℕ
find_db audio_thresholds zero raw_level = 0
find_db audio_thresholds (suc db) raw_level =
    if ltb_ℤ (pos raw_level) (audio_thresholds (suc db))
    then suc db
    else find_db audio_thresholds db raw_level

unfoldable pub audio_level_to_db : (ℕ → ℤ) → ℕ → ℤ
audio_level_to_db audio_thresholds raw_level = neg_ℕ (find_db audio_thresholds 40 raw_level)
