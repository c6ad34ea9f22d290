-- ===== src/Lens/Codes.antt =====
-- The raw codes of lens.h against the tables of lens.c.
use magic_lantern.Common.{ℕ, ◌%◌, ◌≡◌, refl, Bool, true, ◌&&◌, List, [], ◌∷◌, arith, ltb, ◌==◌}
use magic_lantern.Common.Text.{All}
use magic_lantern.Lens.{
  LensInfo, aperture_values, shutter_values, iso_values, lookup_raw, prop_aperture, prop_shutter,
  prop_iso,
}

-- Each row of `rows` is looked up in `table`, and its code is a byte.
abbrev all_found : List (ℕ × ℕ) → List (ℕ × ℕ) → Bool
all_found table [] = true
all_found table ((code, value) ∷ rows) =
    (lookup_raw table code == value) && ltb code 256 && all_found table rows

-- A code and its value, as a handler leaves them.
module _ (table : List (ℕ × ℕ)) (P : ℕ → ℕ → Type 0) where
  rows_hold :
      (rows : List (ℕ × ℕ))
      → ((code value : ℕ) → lookup_raw table code ≡ value → code % 256 ≡ code → P code value)
      → all_found table rows ≡ true
      → All (λ r. P r.0 r.1) rows
  rows_hold [] h e = tt
  rows_hold ((code, value) ∷ rows) h e =
      let found : lookup_raw table code ≡ value = ground (arith, e) in
      let byte : code % 256 ≡ code = ground (arith, e) in
      let rest : all_found table rows ≡ true = ground (arith, e) in
      (h code value found byte, rows_hold rows h rest)

-- Each raw code that lens.h names is shown as the setting that it stands for, and kept as the raw code.
codes-shown :
    (info : LensInfo)
    → All
        (λ r.
          ((prop_aperture r.0 info).aperture ≡ r.1) × ((prop_aperture r.0 info).raw_aperture ≡ r.0))
        aperture_values
      × All
          (λ r.
            ((prop_shutter r.0 info).shutter ≡ r.1) × ((prop_shutter r.0 info).raw_shutter ≡ r.0))
          shutter_values
      × All (λ r. ((prop_iso r.0 info).iso ≡ r.1) × ((prop_iso r.0 info).raw_iso ≡ r.0)) iso_values
unfolding prop_aperture prop_shutter prop_iso
codes-shown info = (
  rows_hold aperture_values
      (λ code value. (lookup_raw aperture_values code ≡ value) × (code % 256 ≡ code))
      aperture_values (λ code value found byte. (found, byte)) refl,
  rows_hold shutter_values
      (λ code value. (lookup_raw shutter_values code ≡ value) × (code % 256 ≡ code)) shutter_values
      (λ code value found byte. (found, byte)) refl,
  rows_hold iso_values (λ code value. (lookup_raw iso_values code ≡ value) × (code % 256 ≡ code))
      iso_values (λ code value found byte. (found, byte)) refl,
)
