-- ===== src/Lens.antt =====
-- lens.c and lens.h: the lens data as the properties of the camera report them, and the commands to the lens.
pub mod Codes
pub mod Distance
pub mod Dof
pub mod Focus
pub mod Movie
pub mod Picture
pub mod Reports
mod Tests
use magic_lantern.Common.{
  ℕ, zero, suc, ◌+◌, ◌-◌, ◌*◌, ◌/◌, ◌%◌, ◌≤◌, ◌<◌, ◌≡◌, Bool, true, false, Option, none, some, List,
  [], ◌∷◌, ◌++◌, arith, ltb, ◌==◌, if◌then◌else◌, length, take, drop,
}
use magic_lantern.Common.Text.{Text, All}

-- `struct lens_info`, without the unused `token`; the name has 32 bytes.
pub record LensInfo : Type 0 where
  pub name : Text
  pub focal_len : ℕ
  pub focus_dist : ℕ
  pub aperture : ℕ
  pub shutter : ℕ
  pub iso : ℕ
  pub hyperfocal : ℕ
  pub dof_near : ℕ
  pub dof_far : ℕ
  pub job_state : ℕ
  pub raw_aperture : ℕ
  pub raw_shutter : ℕ
  pub raw_iso : ℕ

-- `aperture_values`, by the raw codes of lens.h: the first of a pair, halved, is the index.
abbrev pub aperture_values : List (ℕ × ℕ)
aperture_values =
    (13, 12)
    ∷ (16, 14)
    ∷ (19, 16)
    ∷ (21, 18)
    ∷ (24, 20)
    ∷ (27, 22)
    ∷ (29, 25)
    ∷ (32, 28)
    ∷ (35, 32)
    ∷ (37, 35)
    ∷ (40, 40)
    ∷ (43, 45)
    ∷ (45, 50)
    ∷ (48, 56)
    ∷ (51, 63)
    ∷ (53, 71)
    ∷ (56, 80)
    ∷ (59, 90)
    ∷ (61, 100)
    ∷ (64, 110)
    ∷ (67, 130)
    ∷ (69, 140)
    ∷ (72, 160)
    ∷ (75, 180)
    ∷ (77, 200)
    ∷ (80, 220)
    ∷ (83, 250)
    ∷ (85, 290)
    ∷ (88, 320)
    ∷ (91, 360)
    ∷ (93, 400)
    ∷ (96, 450)
    ∷ []

-- `shutter_values`, by the raw codes of lens.h: the first of a pair, halved, is the index.
abbrev pub shutter_values : List (ℕ × ℕ)
shutter_values =
    (96, 30)
    ∷ (99, 40)
    ∷ (101, 50)
    ∷ (104, 60)
    ∷ (107, 80)
    ∷ (109, 100)
    ∷ (112, 125)
    ∷ (115, 160)
    ∷ (117, 200)
    ∷ (120, 250)
    ∷ (123, 320)
    ∷ (125, 400)
    ∷ (128, 500)
    ∷ (131, 640)
    ∷ (133, 800)
    ∷ (136, 1000)
    ∷ (139, 1250)
    ∷ (141, 1600)
    ∷ (144, 2000)
    ∷ (147, 2500)
    ∷ (149, 3200)
    ∷ (152, 4000)
    ∷ []

-- `iso_values`, by the raw codes of lens.h: the first of a pair, halved, is the index.
abbrev pub iso_values : List (ℕ × ℕ)
iso_values =
    (72, 100)
    ∷ (75, 125)
    ∷ (77, 160)
    ∷ (80, 200)
    ∷ (83, 250)
    ∷ (85, 320)
    ∷ (88, 400)
    ∷ (91, 500)
    ∷ (93, 640)
    ∷ (96, 800)
    ∷ (99, 1000)
    ∷ (101, 1250)
    ∷ (104, 1600)
    ∷ (107, 2000)
    ∷ (109, 2500)
    ∷ (112, 3200)
    ∷ (115, 4000)
    ∷ (117, 5000)
    ∷ (120, 6400)
    ∷ (128, 12500)
    ∷ []

-- `COUNT( values )`: one more than the last index.
abbrev pub count : List (ℕ × ℕ) → ℕ
count [] = 0
count ((code, value) ∷ rows) =
    let rest = count rows in if ltb rest (code / 2 + 1) then code / 2 + 1 else rest

-- `values[ index ]`: a place with no initializer holds 0. No two rows have the same place.
abbrev pub value_at : List (ℕ × ℕ) → ℕ → ℕ
value_at [] index = 0
value_at ((code, value) ∷ rows) index = if code / 2 == index then value else value_at rows index

-- `raw/2 < COUNT(values) ? values[ raw / 2 ] : 0`
abbrev pub lookup_raw : List (ℕ × ℕ) → ℕ → ℕ
lookup_raw rows raw = if ltb (raw / 2) (count rows) then value_at rows (raw / 2) else 0

-- The property handlers. `raw` is a 32-bit word, of which the raw field keeps 8 bits.
unfoldable pub prop_aperture : ℕ → LensInfo → LensInfo
prop_aperture raw s = record s {
  raw_aperture = raw % 256;
  aperture = lookup_raw aperture_values raw;
}

unfoldable pub prop_shutter : ℕ → LensInfo → LensInfo
prop_shutter raw s = record s { raw_shutter = raw % 256; shutter = lookup_raw shutter_values raw }

unfoldable pub prop_iso : ℕ → LensInfo → LensInfo
prop_iso raw s = record s { raw_iso = raw % 256; iso = lookup_raw iso_values raw }

-- `memcpy` of at most 32 bytes over the name; the rest of the old name stays.
unfoldable pub prop_lens_name : Text → LensInfo → LensInfo
prop_lens_name buf s =
    let len = if ltb 32 (length buf) then 32 else length buf in
    record s { name = take len buf ++ drop len s.name }

-- `bswap16`; the operands of its `|` have no bit in common.
abbrev pub bswap16 : ℕ → ℕ
bswap16 val = val % 256 * 256 + val / 256 % 256

unfoldable pub prop_lv_lens : ℕ → ℕ → LensInfo → LensInfo
prop_lv_lens focal_len focus_dist s = record s {
  focal_len = bswap16 focal_len;
  focus_dist = bswap16 focus_dist;
}

-- `PROP_LAST_JOB_STATE`: the state, and whether `job_sem` is given.
unfoldable pub prop_last_job_state : ℕ → LensInfo → LensInfo × Bool
prop_last_job_state state s = (record s { job_state = state }, state == 0xA)
