-- ===== src/Lens/Dof.antt =====
-- `calc_dof` of lens.c in 32-bit arithmetic, and what its numbers mean.
use native.Mathlib.Nat.{
  mul-le-mul, mul-le-mul_left, mul_comm, div-le_of_le-mul, le-div_iff_mul-le, div-mul-le_self,
}
use magic_lantern.Common.{
  ℕ, ◌+◌, ◌-◌, ◌*◌, ◌/◌, ◌^◌, ◌≤◌, ◌<◌, ◌≡◌, ◌≢◌, refl, subst, true, false, Bool-cases, ◌||◌,
  Option, none, some, arith, ltb, ◌==◌, if◌then◌else◌, inl, inr,
}
use magic_lantern.Common.Word.{u32}
use magic_lantern.Lens.{LensInfo}

-- H, before the focus distance is looked at. `aperture * coc` is in 32 bits and may be 0 there.
abbrev pub hyperfocal_of : LensInfo → ℕ
hyperfocal_of info =
    let fl2 = u32 (info.focal_len * info.focal_len) in
    u32 (u32 (1000 * fl2) / u32 (info.aperture * 29) * 10)

-- The limits for a focus distance that is known; `none`: a division by 0.
abbrev pub limits : LensInfo → ℕ → ℕ → Option LensInfo
limits info h fd =
    let product = u32 (h * (fd / 10)) in
    let near = u32 (product / u32 (h + fd) * 10) in
    if u32 (h + fd) == 0
    then none
    else if ltb h fd
    then some (record info { hyperfocal = h; dof_near = near; dof_far = 1000 * 1000 })
    else if h - fd == 0
    then none
    else some
        (record info { hyperfocal = h; dof_near = near; dof_far = u32 (product / (h - fd) * 10) })

-- `calc_dof`; `none`: a division by 0.
unfoldable pub calc_dof : LensInfo → Option LensInfo
calc_dof info =
    let fd = u32 (info.focus_dist * 10) in
    if info.focal_len == 0 || info.aperture == 0
    then some (record info { dof_near = 0; dof_far = 0; hyperfocal = 0 })
    else if u32 (info.aperture * 29) == 0
    then none
    else if fd == 0
    then some (record info { hyperfocal = hyperfocal_of info; dof_near = 0; dof_far = 0 })
    else limits info (hyperfocal_of info) fd

-- The hyperfocal distance in mm, in 10 mm steps, by the formula without overflow.
abbrev pub hyperfocal_mm : ℕ → ℕ → ℕ
hyperfocal_mm focal_len aperture = 1000 * (focal_len * focal_len) / (aperture * 29) * 10

hyperfocal_of_exact :
    (info : LensInfo)
    → info.focal_len ≤ 2072
    → 0 < info.aperture
    → info.aperture ≤ 450
    → (hyperfocal_of info ≡ hyperfocal_mm info.focal_len info.aperture)
      × (hyperfocal_mm info.focal_len info.aperture ≤ 1480408280)
hyperfocal_of_exact info f low high =
    let square = mul-le-mul f f in
    let fl2 : u32 (info.focal_len * info.focal_len) ≡ info.focal_len * info.focal_len =
      omega (arith, square) in
    let scaled : u32 (1000 * (info.focal_len * info.focal_len))
        ≡ 1000 * (info.focal_len * info.focal_len) =
      omega (arith, square) in
    let coc : u32 (info.aperture * 29) ≡ info.aperture * 29 = omega arith in
    let q = 1000 * (info.focal_len * info.focal_len) / (info.aperture * 29) in
    let bound : q ≤ 148040828 = div-le_of_le-mul (info.aperture * 29) (omega (arith, square)) in
    let last : u32 (q * 10) ≡ q * 10 = omega (arith, bound) in
    (rw (fl2, scaled, coc, last) refl, omega (arith, bound))

-- The numbers that `limits` computes with, where none of them exceeds 32 bits.
limits_near :
    (q d : ℕ)
    → 0 < d
    → d < 65536
    → q ≤ 148040828
    → q * 10 * d < 2 ^ 32
    → (d * 10 / 10 ≡ d)
      × (u32 (q * 10 * d) ≡ q * 10 * d)
      × (u32 (q * 10 + d * 10) ≡ q * 10 + d * 10)
      × ((q * 10 + d * 10 == 0) ≡ false)
      × (q * 10 * d / (q * 10 + d * 10) ≤ d)
      × (u32 (q * 10 * d / (q * 10 + d * 10) * 10) ≡ q * 10 * d / (q * 10 + d * 10) * 10)
limits_near q d p h b o =
    let near : q * 10 * d / (q * 10 + d * 10) ≤ d =
      div-le_of_le-mul (q * 10 + d * 10) (omega arith) in
    (omega arith, omega arith, omega arith, ground arith, near, omega (arith, near))

limits_far :
    (q d : ℕ)
    → d < q
    → q * 10 * d < 2 ^ 32
    → (d ≤ q * 10 * d / (q * 10 - d * 10))
      × (u32 (q * 10 * d / (q * 10 - d * 10) * 10) ≡ q * 10 * d / (q * 10 - d * 10) * 10)
limits_far q d h o =
    let apart : 10 ≤ q * 10 - d * 10 = omega arith in
    let split : d * (q * 10 - d * 10) ≤ q * 10 * d =
      subst (λ x. d * (q * 10 - d * 10) ≤ x) (mul_comm d (q * 10))
        (mul-le-mul_left d (omega arith)) in
    let far = q * 10 * d / (q * 10 - d * 10) in
    let whole : far * (q * 10 - d * 10) ≤ q * 10 * d =
      div-mul-le_self (q * 10 * d) (q * 10 - d * 10) in
    let tens : far * 10 ≤ far * (q * 10 - d * 10) = mul-le-mul_left far apart in
    ((le-div_iff_mul-le (omega (arith, apart))).1 split, omega (arith, whole, tens))

module _ (info : LensInfo) (fl : 0 < info.focal_len) (fl_max : info.focal_len ≤ 2072)
    (ap_min : 0 < info.aperture) (ap_max : info.aperture ≤ 450) (known : 0 < info.focus_dist)
    (u16 : info.focus_dist < 65536) where
  -- The guards of `calc_dof` are passed.
  calc_dof-limits :
      calc_dof info
      ≡ limits info (hyperfocal_mm info.focal_len info.aperture) (info.focus_dist * 10)
  unfolding calc_dof
  calc_dof-limits =
      let h = (hyperfocal_of_exact info fl_max ap_min ap_max).0 in
      let lens : (info.focal_len == 0 || info.aperture == 0) ≡ false = ground (arith, fl, ap_min) in
      let coc : (u32 (info.aperture * 29) == 0) ≡ false = ground (arith, ap_min, ap_max) in
      let fd : u32 (info.focus_dist * 10) ≡ info.focus_dist * 10 = omega (arith, u16) in
      let some_fd : (info.focus_dist * 10 == 0) ≡ false = ground (arith, known) in
      rw (lens, coc, fd, some_fd, h) refl

  -- Where no product exceeds 32 bits and the focus is not exactly at the hyperfocal distance, `calc_dof`
  -- gives the limits by the formulas, and the focus distance is between them.
  pub calc_dof-between :
      let h = hyperfocal_mm info.focal_len info.aperture in
      let d = info.focus_dist in
      h * d < 2 ^ 32
      → h ≢ d * 10
      → (t : LensInfo) × (calc_dof info ≡ some t)
        × (t.hyperfocal ≡ h)
        × (t.dof_near ≡ h * d / (h + d * 10) * 10)
        × (t.dof_near ≤ d * 10)
        × (h < d * 10 → t.dof_far ≡ 1000000)
        × (d * 10 < h → (t.dof_far ≡ h * d / (h - d * 10) * 10) × (d * 10 ≤ t.dof_far))
  calc_dof-between o ne =
      let q = 1000 * (info.focal_len * info.focal_len) / (info.aperture * 29) in
      let d = info.focus_dist in
      let bound : q ≤ 148040828 =
        omega (arith, (hyperfocal_of_exact info fl_max ap_min ap_max).1) in
      let (tenth, product, total, some_total, near, near_tens) =
        limits_near q d known u16 bound o in
      elim (Bool-cases (ltb (q * 10) (d * 10))) [
        | inl e ↦ (
          record info {
            hyperfocal = q * 10;
            dof_near = q * 10 * d / (q * 10 + d * 10) * 10;
            dof_far = 1000000;
          },
          rw (calc_dof-limits, tenth, product, total, some_total, e, near_tens) refl,
          refl,
          refl,
          omega (arith, near),
          λ less. refl,
          λ more. absurd (ground (arith, e, more)),
        )
        | inr e ↦
            let less : d < q = ground (arith, e, ne) in
            let (far, far_tens) = limits_far q d less o in
            let apart : (q * 10 - d * 10 == 0) ≡ false = ground (arith, less) in
            (
              record info {
                hyperfocal = q * 10;
                dof_near = q * 10 * d / (q * 10 + d * 10) * 10;
                dof_far = q * 10 * d / (q * 10 - d * 10) * 10;
              },
              rw (calc_dof-limits, tenth, product, total, some_total, e, near_tens, apart, far_tens)
                  refl,
              refl,
              refl,
              omega (arith, near),
              λ more. absurd (omega (arith, less, more)),
              λ more. (refl, omega (arith, far)),
            )
      ]

  -- Focused exactly at the hyperfocal distance, `calc_dof` divides by 0.
  calc_dof-divides_by_zero :
      hyperfocal_mm info.focal_len info.aperture ≡ info.focus_dist * 10 → calc_dof info ≡ none
  calc_dof-divides_by_zero e =
      let total : (u32 (info.focus_dist * 10 + info.focus_dist * 10) == 0) ≡ false =
        ground (arith, known, u16) in
      let same : ltb (info.focus_dist * 10) (info.focus_dist * 10) ≡ false = ground arith in
      let nothing : (info.focus_dist * 10 - info.focus_dist * 10 == 0) ≡ true = ground arith in
      rw (calc_dof-limits, e, total, same, nothing) refl
