-- ===== src/Lens/Tests.antt =====
-- The lens at concrete inputs: 50 mm and f/2.8.
use magic_lantern.Common.{ℕ, ◌≤◌, ◌<◌, ◌≡◌, refl, true, false, some, [], ◌∷◌, arith, replicate}
use magic_lantern.Common.Int.{pos, negsuc}
use magic_lantern.Lens.Picture.{lens_take_picture}
use magic_lantern.Lens.{LensInfo}
use magic_lantern.Lens.Dof.{calc_dof, calc_dof-between}
use magic_lantern.Lens.Movie.{
  Log, settings, values_of, mvr_create_logfile, updates, Changing, last_of, movie-follows,
}

abbrev focused_at : ℕ → LensInfo
focused_at d = record {
  name = replicate 32 0;
  focal_len = 50;
  focus_dist = d;
  aperture = 28;
  shutter = 50;
  iso = 100;
  hyperfocal = 0;
  dof_near = 0;
  dof_far = 0;
  job_state = 0;
  raw_aperture = 32;
  raw_shutter = 101;
  raw_iso = 72;
}

calc_dof-between_example :
    (t : LensInfo) × (calc_dof (focused_at 300) ≡ some t)
    × (t.hyperfocal ≡ 30780)
    × (t.dof_near ≡ 2730)
    × (t.dof_near ≤ 3000)
    × (30780 < 3000 → t.dof_far ≡ 1000000)
    × (3000 < 30780 → (t.dof_far ≡ 3320) × (3000 ≤ t.dof_far))
calc_dof-between_example =
    calc_dof-between (focused_at 300) (omega arith) (omega arith) (omega arith) (omega arith)
      (omega arith) (omega arith) (omega arith) (ground arith)

abbrev before : Log
before = record { opened = true; last = settings (focused_at 0) }

movie-follows_example :
    let (opened, ws) = mvr_create_logfile true 2 0 (focused_at 1) before in
    let vs = values_of (updates ((1, focused_at 1) ∷ (2, focused_at 9) ∷ []) opened).1 in
    (values_of ws ≡ settings (focused_at 1) ∷ [])
    × Changing (settings (focused_at 1)) vs
    × (last_of (settings (focused_at 1)) vs ≡ settings (focused_at 9))
movie-follows_example =
    movie-follows 0 (focused_at 1) ((1, focused_at 1) ∷ (2, focused_at 9) ∷ []) before

-- Two pictures: one that is waited for, and one for which the camera is not ready.
waited_for : (lens_take_picture true true 500 0 3).0 ≡ pos 3
unfolding lens_take_picture
waited_for = refl

not_ready : (lens_take_picture false true 500 0xB 3).0 ≡ negsuc 0
unfolding lens_take_picture
not_ready = refl
