-- ===== src/Lens/Movie.antt =====
-- The logfile of a movie, from `mvr_update_logfile` and `mvr_create_logfile` of lens.c.
use mathlib.Core.Bool.{true≢false}
use magic_lantern.Common.{
  ℕ, ◌≡◌, ◌≢◌, refl, sym, subst, ap, ◌∙◌, Bool, true, false, not, ◌&&◌, Bool-cases, ◌⊎◌, inl, inr,
  List, [], ◌∷◌, ◌++◌, arith, ◌==◌, if◌then◌else◌,
}
use magic_lantern.Common.Text.{Text}
use magic_lantern.Lens.{LensInfo}

-- What a line of the log holds of the lens data: the static variables `last_iso` and so on.
pub record Settings : Type 0 where
  pub iso : ℕ
  pub shutter : ℕ
  pub aperture : ℕ
  pub focal_len : ℕ
  pub focus_dist : ℕ

abbrev pub settings : LensInfo → Settings
settings info = record {
  iso = info.iso;
  shutter = info.shutter;
  aperture = info.aperture;
  focal_len = info.focal_len;
  focus_dist = info.focus_dist;
}

abbrev pub same : Settings → Settings → Bool
same a b =
    (a.iso == b.iso)
    && (a.shutter == b.shutter)
    && (a.aperture == b.aperture)
    && (a.focal_len == b.focal_len)
    && (a.focus_dist == b.focus_dist)

-- `opened`: whether `mvr_logfile` is a file.
pub record Log : Type 0 where
  pub opened : Bool
  pub last : Settings

-- The file operations; the time of day is the number that the clock shows.
pub data Write : Type 0 where
  close_file : Write
  create_file : Write
  start : ℕ → Write
  lens : Text → Write
  columns : Write
  values : ℕ → Settings → Write

unfoldable pub mvr_update_logfile : Bool → ℕ → LensInfo → Log → Log × List Write
mvr_update_logfile force now info log =
    if not log.opened
    then (log, [])
    else if not force && same log.last (settings info)
    then (log, [])
    else (record log { last = settings info }, values now (settings info) ∷ [])

-- `created` is whether `FIO_CreateFile` gives a file.
unfoldable pub mvr_create_logfile : Bool → ℕ → ℕ → LensInfo → Log → Log × List Write
unfolding mvr_update_logfile
mvr_create_logfile created event now info log =
    if event == 0
    then (record log { opened = false }, if log.opened then close_file ∷ [] else [])
    else if not (event == 2)
    then (log, [])
    else if not created
    then (record log { opened = false }, create_file ∷ [])
    else (let (t, ws) = mvr_update_logfile true now info (record log { opened = true }) in
        (t, (create_file ∷ start now ∷ lens info.name ∷ columns ∷ []) ++ ws))

-- The updates by `lens_task`, each with the time and the lens data.
unfoldable pub updates : List (ℕ × LensInfo) → Log → Log × List Write
updates [] log = (log, [])
updates ((now, info) ∷ rest) log =
    let (t, ws) = mvr_update_logfile false now info log in
    let (u, more) = updates rest t in (u, ws ++ more)

abbrev pub values_of : List Write → List Settings
values_of [] = []
values_of (values now s ∷ ws) = s ∷ values_of ws
values_of (_ ∷ ws) = values_of ws

-- No two neighbours are the same.
abbrev pub Changing : Settings → List Settings → Type 0
Changing a [] = Unit
Changing a (b ∷ bs) = (a ≢ b) × Changing b bs

abbrev pub last_of : Settings → List Settings → Settings
last_of a [] = a
last_of a (b ∷ bs) = last_of b bs

abbrev pub last_info : Settings → List (ℕ × LensInfo) → Settings
last_info a [] = a
last_info a ((now, info) ∷ rest) = last_info (settings info) rest

same_eq : (a b : Settings) → same a b ≡ true → a ≡ b
same_eq a b h = ground (arith, h)

same_refl : (a : Settings) → same a a ≡ true
same_refl a = ground arith

update_same :
    (now : ℕ) (info : LensInfo) (log : Log)
    → log.opened ≡ true
    → same log.last (settings info) ≡ true
    → mvr_update_logfile false now info log ≡ (log, [])
unfolding mvr_update_logfile
update_same now info log o e = rw (o, e) refl

update_changed :
    (now : ℕ) (info : LensInfo) (log : Log)
    → log.opened ≡ true
    → same log.last (settings info) ≡ false
    → mvr_update_logfile false now info log
      ≡ (record log { last = settings info }, values now (settings info) ∷ [])
unfolding mvr_update_logfile
update_changed now info log o e = rw (o, e) refl

updates-follow :
    (rest : List (ℕ × LensInfo)) (log : Log)
    → log.opened ≡ true
    → let ws = values_of (updates rest log).1 in
      Changing log.last ws × (last_of log.last ws ≡ last_info log.last rest)
unfolding updates
updates-follow [] log o = (tt, refl)
updates-follow ((now, info) ∷ rest) log o = elim (Bool-cases (same log.last (settings info))) [
  | inl e ↦
      let ih = updates-follow rest log o in
      rw (update_same now info log o e)
        (ih.0, ih.1 ∙ ap (λ a. last_info a rest) (same_eq log.last (settings info) e))
  | inr e ↦
      let ih = updates-follow rest (record log { last = settings info }) o in
      let other : log.last ≢ settings info =
        λ p. true≢false (sym (same_refl log.last) ∙ ap (same log.last) p ∙ e) in
      rw (update_changed now info log o e) ((other, ih.0), ih.1)
]

-- From the start of a movie with a log, the log holds the settings at the start, then each change and nothing
-- twice in a row, up to the settings that were seen last.
pub movie-follows :
    (now : ℕ) (info : LensInfo) (rest : List (ℕ × LensInfo)) (log : Log)
    → let (opened, ws) = mvr_create_logfile true 2 now info log in
      let vs = values_of (updates rest opened).1 in
      (values_of ws ≡ settings info ∷ [])
      × Changing (settings info) vs
      × (last_of (settings info) vs ≡ last_info (settings info) rest)
unfolding mvr_create_logfile mvr_update_logfile
movie-follows now info rest log =
    let follows = updates-follow rest (record { opened = true; last = settings info }) refl in
    (refl, follows.0, follows.1)

update_closed :
    (now : ℕ) (info : LensInfo) (log : Log)
    → log.opened ≡ false
    → mvr_update_logfile false now info log ≡ (log, [])
unfolding mvr_update_logfile
update_closed now info log o = rw o refl

no_updates :
    (rest : List (ℕ × LensInfo)) (log : Log) → log.opened ≡ false → (updates rest log).1 ≡ []
unfolding updates mvr_update_logfile
no_updates [] log o = refl
no_updates ((now, info) ∷ rest) log o =
    subst (λ r. (let (u, more) = updates rest r.0 in r.1 ++ more) ≡ [])
      (sym (update_closed now info log o)) (no_updates rest log o)

closes :
    (created : Bool) (event now : ℕ) (info : LensInfo) (log : Log)
    → (event ≡ 0) ⊎ ((event ≡ 2) × (created ≡ false))
    → (mvr_create_logfile created event now info log).0.opened ≡ false
unfolding mvr_create_logfile
closes created event now info log (inl z) = rw z refl
closes created event now info log (inr (two, none_made)) = rw (two, none_made) refl

-- When the movie stops, or where the file is not created, nothing is written any more.
movie-ends :
    (created : Bool) (event now : ℕ) (info : LensInfo) (rest : List (ℕ × LensInfo)) (log : Log)
    → (event ≡ 0) ⊎ ((event ≡ 2) × (created ≡ false))
    → let closed = (mvr_create_logfile created event now info log).0 in (updates rest closed).1 ≡ []
movie-ends created event now info rest log h =
    no_updates rest (mvr_create_logfile created event now info log).0
      (closes created event now info log h)
