-- ===== src/Script/Tests.antt =====
-- A script that is read whole, and a directory of two files.
use magic_lantern.Common.{◌≡◌, refl, some, [], ◌∷◌}
use magic_lantern.Bitmap.Load.{read_file}
use magic_lantern.Script.{
  gui_stop_menu, msleep, debug_msg, malloc, fio_read, append_to_path, bmp_printf, pm_run,
  find_first, find_next, run_script, list_entries, list_files,
}

script_runs :
    run_script (record { file_size = some 100; buf = 5000; read = some 100 })
    ≡ gui_stop_menu
      ∷ msleep 500
      ∷ debug_msg
      ∷ malloc 100
      ∷ fio_read 5000 100
      ∷ append_to_path 5000
      ∷ bmp_printf 0 300
      ∷ pm_run
      ∷ []
unfolding run_script read_file
script_runs = refl

two_files :
    list_files (some 1) 12
    ≡ find_first ∷ bmp_printf 0 40 ∷ bmp_printf 0 52 ∷ find_next ∷ bmp_printf 0 64 ∷ find_next ∷ []
unfolding list_files list_entries
two_files = refl
