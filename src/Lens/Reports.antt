-- ===== src/Lens/Reports.antt =====
-- What the property handlers of lens.c keep true of the lens data, and the lookup of the raw codes.
use magic_lantern.Common.{
  ℕ, zero, suc, ◌/◌, ◌≤◌, ◌<◌, ◌≡◌, refl, ◌∙◌, Bool, true, ◌&&◌, Bool-cases, inl, inr, List, [],
  ◌∷◌, ◌++◌, arith, ltb, leb, if◌then◌else◌, length, take, drop,
}
use magic_lantern.Common.Text.{Text}
use magic_lantern.Lens.{
  LensInfo, aperture_values, shutter_values, iso_values, value_at, lookup_raw, prop_aperture,
  prop_shutter, prop_iso, prop_lens_name, prop_lv_lens, prop_last_job_state,
}

-- A report of the camera, by the property.
pub data Report : Type 0 where
  aperture : ℕ → Report
  shutter : ℕ → Report
  iso : ℕ → Report
  lens_name : Text → Report
  lv_lens : ℕ → ℕ → Report
  last_job_state : ℕ → Report

abbrev pub reported : Report → LensInfo → LensInfo
reported (aperture raw) s = prop_aperture raw s
reported (shutter raw) s = prop_shutter raw s
reported (iso raw) s = prop_iso raw s
reported (lens_name buf) s = prop_lens_name buf s
reported (lv_lens focal_len focus_dist) s = prop_lv_lens focal_len focus_dist s
reported (last_job_state state) s = (prop_last_job_state state s).0

unfoldable pub reports : List Report → LensInfo → LensInfo
reports [] s = s
reports (r ∷ rs) s = reports rs (reported r s)

-- The name fills its 32 bytes, and the numbers are in the ranges of the tables and of 16 bits.
pub record IsValid (s : LensInfo) : Type 0 where
  pub name_length : length s.name ≡ 32
  pub aperture_max : s.aperture ≤ 450
  pub shutter_max : s.shutter ≤ 4000
  pub iso_max : s.iso ≤ 12500
  pub focal_len_max : s.focal_len < 65536
  pub focus_dist_max : s.focus_dist < 65536

abbrev all_leb : ℕ → List (ℕ × ℕ) → Bool
all_leb m [] = true
all_leb m ((code, value) ∷ rows) = leb value m && all_leb m rows

value_at_max :
    (m : ℕ) (rows : List (ℕ × ℕ)) (index : ℕ) → all_leb m rows ≡ true → value_at rows index ≤ m
value_at_max m [] index h = omega arith
value_at_max m ((code, value) ∷ rows) index h = elim (Bool-cases (leb value m)) [
  | inl e ↦ let rest = value_at_max m rows index (rw e at h) in ground (arith, e, rest)
  | inr e ↦ ground (arith, e, h)
]

lookup_raw_max :
    (m : ℕ) (rows : List (ℕ × ℕ)) (raw : ℕ) → all_leb m rows ≡ true → lookup_raw rows raw ≤ m
lookup_raw_max m rows raw h = let at = value_at_max m rows (raw / 2) h in ground (arith, at)

length-take-drop :
    (k : ℕ) (xs ys : Text)
    → k ≤ length xs
    → k ≤ length ys
    → length (take k xs ++ drop k ys) ≡ length ys
length-take-drop zero xs ys h l = refl
length-take-drop (suc k) [] ys h l = absurd (omega arith)
length-take-drop (suc k) (x ∷ xs) [] h l = absurd (omega arith)
length-take-drop (suc k) (x ∷ xs) (y ∷ ys) h l =
    omega (arith, length-take-drop k xs ys (omega arith) (omega arith))

copied :
    (buf name : Text)
    → length name ≡ 32
    → length (
        take (if ltb 32 (length buf) then 32 else length buf) buf
        ++ drop (if ltb 32 (length buf) then 32 else length buf) name)
      ≡ length name
copied buf name n =
    let len = if ltb 32 (length buf) then 32 else length buf in
    let short : len ≤ length buf = ground arith in
    let fits : len ≤ length name = ground (arith, n) in length-take-drop len buf name short fits

reported-IsValid : (r : Report) (s : LensInfo) → IsValid s → IsValid (reported r s)
unfolding prop_aperture prop_shutter prop_iso prop_lens_name prop_lv_lens prop_last_job_state
reported-IsValid (aperture raw) s v = record {
  name_length = v.name_length;
  aperture_max = lookup_raw_max 450 aperture_values raw refl;
  shutter_max = v.shutter_max;
  iso_max = v.iso_max;
  focal_len_max = v.focal_len_max;
  focus_dist_max = v.focus_dist_max;
}
reported-IsValid (shutter raw) s v = record {
  name_length = v.name_length;
  aperture_max = v.aperture_max;
  shutter_max = lookup_raw_max 4000 shutter_values raw refl;
  iso_max = v.iso_max;
  focal_len_max = v.focal_len_max;
  focus_dist_max = v.focus_dist_max;
}
reported-IsValid (iso raw) s v = record {
  name_length = v.name_length;
  aperture_max = v.aperture_max;
  shutter_max = v.shutter_max;
  iso_max = lookup_raw_max 12500 iso_values raw refl;
  focal_len_max = v.focal_len_max;
  focus_dist_max = v.focus_dist_max;
}
reported-IsValid (lens_name buf) s v = record {
  name_length = copied buf s.name v.name_length ∙ v.name_length;
  aperture_max = v.aperture_max;
  shutter_max = v.shutter_max;
  iso_max = v.iso_max;
  focal_len_max = v.focal_len_max;
  focus_dist_max = v.focus_dist_max;
}
reported-IsValid (lv_lens focal_len focus_dist) s v = record {
  name_length = v.name_length;
  aperture_max = v.aperture_max;
  shutter_max = v.shutter_max;
  iso_max = v.iso_max;
  focal_len_max = omega arith;
  focus_dist_max = omega arith;
}
reported-IsValid (last_job_state state) s v = record {
  name_length = v.name_length;
  aperture_max = v.aperture_max;
  shutter_max = v.shutter_max;
  iso_max = v.iso_max;
  focal_len_max = v.focal_len_max;
  focus_dist_max = v.focus_dist_max;
}

-- Whatever the camera reports, the lens data stay valid.
reports-IsValid : (rs : List Report) (s : LensInfo) → IsValid s → IsValid (reports rs s)
unfolding reports
reports-IsValid [] s v = v
reports-IsValid (r ∷ rs) s v = reports-IsValid rs (reported r s) (reported-IsValid r s v)
