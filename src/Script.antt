-- ===== src/Script.antt =====
-- The two entries of script.c in the menu, as the calls that they make. The files and the interpreter are the firmware's
-- and the library's, and what they return is an argument.
mod Tests
use magic_lantern.Common.{
  ℕ, zero, suc, ◌+◌, ◌-◌, ◌*◌, ◌^◌, ◌≡◌, ◌≢◌, refl, Bool, true, false, not, Bool-cases, inl, inr,
  Option, none, some, List, [], ◌∷◌, ◌++◌, arith, ◌==◌, if◌then◌else◌, Option-cases,
}
use magic_lantern.Bitmap.Load.{read_file}

pub data Call : Type 0 where
  gui_stop_menu : Call
  msleep : ℕ → Call
  debug_msg : Call
  malloc : ℕ → Call
  free : ℕ → Call
  fio_read : ℕ → ℕ → Call
  append_to_path : ℕ → Call
  bmp_printf : ℕ → ℕ → Call
  pm_run : Call
  find_first : Call
  find_next : Call

-- What the run meets: the size of the file, the buffer of `malloc` (0 is NULL), and how many bytes
-- are read (`none` if the file cannot be opened).
pub record Outcome : Type 0 where
  pub file_size : Option ℕ
  pub buf : ℕ
  pub read : Option ℕ

unfoldable pub run_script : Outcome → List Call
unfolding read_file
run_script o = (gui_stop_menu ∷ msleep 500 ∷ []) ++ (elim o.file_size [
  | none ↦ []
  | some size ↦
      (debug_msg ∷ malloc size ∷ [])
      ++ (if o.buf == 0
          then debug_msg ∷ []
          else fio_read o.buf size ∷ (elim (read_file o.read size) [
            | none ↦ free o.buf ∷ []
            | some rc ↦ append_to_path o.buf ∷ bmp_printf 0 300 ∷ pm_run ∷ []
          ]))
])

-- The loop of `list_files`, with `more` files still to come after the one at hand.
unfoldable pub list_entries : ℕ → ℕ → ℕ → List Call
list_entries zero height y = bmp_printf 0 (y + height) ∷ find_next ∷ []
list_entries (suc more) height y =
    bmp_printf 0 (y + height) ∷ find_next ∷ list_entries more height (y + height)

-- `none` is an error; otherwise the number of the files after the first one. `height` is that of the font.
unfoldable pub list_files : Option ℕ → ℕ → List Call
unfolding list_entries
list_files dirent height = find_first ∷ (elim dirent [
  | none ↦ bmp_printf 40 40 ∷ []
  | some more ↦ bmp_printf 0 40 ∷ list_entries more height 40
])

unfoldable pub freed : List Call → List ℕ
freed [] = []
freed (free p ∷ l) = p ∷ freed l
freed (_ ∷ l) = freed l

unfoldable pub used : List Call → List ℕ
used [] = []
used (append_to_path p ∷ l) = p ∷ used l
used (_ ∷ l) = used l

-- The whole file was read.
abbrev pub is_whole : Option ℕ → ℕ → Bool
is_whole read size = elim read [ none ↦ false | some n ↦ n == size ]

-- A buffer that was allocated is freed once, or handed to the interpreter once, and never both; it is handed over exactly
-- where the whole file was read.
pub run_script-used :
    (o : Outcome) (size : ℕ)
    → o.file_size ≡ some size
    → o.buf ≢ 0
    → (freed (run_script o) ++ used (run_script o) ≡ o.buf ∷ [])
      × (used (run_script o) ≡ (if is_whole o.read size then o.buf ∷ [] else []))
unfolding run_script freed used read_file
run_script-used o size found live =
    let there : (o.buf == 0) ≡ false = ground (arith, live) in
    elim (Option-cases o.read) [
      | inl e ↦ rw (found, there, e) (refl, refl)
      | inr (n, e) ↦ elim (Bool-cases (n == size)) [
        | inl k ↦ rw (found, there, e, k) (refl, refl)
        | inr k ↦ rw (found, there, e, k) (refl, refl)
      ]
    ]
