-- ===== src/Audio/Decibels.antt =====
-- The decibels of a level.
use magic_lantern.Common.{ℕ, zero, suc, ◌≤◌, arith}
use magic_lantern.Common.Int.{ℤ, pos, neg_ℕ, ◌≤ℤ◌}
use magic_lantern.Audio.{find_db, audio_level_to_db}

pub find_db_max : (thresholds : ℕ → ℤ) (db raw : ℕ) → find_db thresholds db raw ≤ db
unfolding find_db
find_db_max thresholds zero raw = omega arith
find_db_max thresholds (suc db) raw =
    let rest = find_db_max thresholds db raw in ground (arith, rest)

-- A louder level has a smaller distance from 0 dB.
pub find_db_mono :
    (thresholds : ℕ → ℤ) (db a b : ℕ) → a ≤ b → find_db thresholds db b ≤ find_db thresholds db a
unfolding find_db
find_db_mono thresholds zero a b h = omega arith
find_db_mono thresholds (suc db) a b h =
    let rest = find_db_mono thresholds db a b h in
    let most = find_db_max thresholds db b in ground (arith, rest, most)

neg_ℕ_mono : (m n : ℕ) → m ≤ n → neg_ℕ n ≤ℤ neg_ℕ m
neg_ℕ_mono m n h = ground arith

-- Whatever the table of thresholds is, the result is from -40 to 0 and does not fall with the level.
pub audio_level_to_db_mono :
    (thresholds : ℕ → ℤ) (a b : ℕ)
    → a ≤ b
    → (neg_ℕ 40 ≤ℤ audio_level_to_db thresholds a)
      × (audio_level_to_db thresholds a ≤ℤ audio_level_to_db thresholds b)
      × (audio_level_to_db thresholds b ≤ℤ pos 0)
unfolding audio_level_to_db
audio_level_to_db_mono thresholds a b h = (
  neg_ℕ_mono (find_db thresholds 40 a) 40 (find_db_max thresholds 40 a),
  neg_ℕ_mono _ _ (find_db_mono thresholds 40 a b h),
  neg_ℕ_mono 0 (find_db thresholds 40 b) (omega arith),
)
