-- ===== src/Init/Tests.antt =====
-- The start-up on small inputs.
use magic_lantern.Common.{
  ℕ, ◌+◌, ◌/◌, ◌≤◌, ◌<◌, ◌≡◌, ◌≢◌, refl, ◌⊎◌, inr, true, false, some, [], ◌∷◌, arith,
}
use magic_lantern.Init.Restart.{Symbols, reloc_size, rom_base_addr, copy_and_restart}
use magic_lantern.Init.Restart.Image.{is_patched, copy_and_restart-image}
use magic_lantern.Init.Hook.{
  Task, TaskMapping, my_task_dispatch_hook, my_task_dispatch_hook-overrides,
}
use magic_lantern.Init.Startup.{
  TaskCreate, System, debug_msg, bmp_printf, turn_on_display, menu_init, debug_init,
  config_parse_file, enter, task_create, prop_cleanup, copy_token_handler, prop_register_slave,
  call_init_funcs, create_tasks, prop_startup_handler, prop_handler_init, prop_init, write_version,
  my_init_task, startup_reports,
}
use magic_lantern.Init.Started.{
  entered, created, for_each_start, is_shutdown_among, startup_reports-for_each_start,
}
use magic_lantern.Reloc.{branch_dest}

abbrev symbols : Symbols
symbols = record {
  bss_start = 0x60000;
  bss_end = 0x80000;
  reloc_addr = 0x62000;
  bzero32 = 0xFF812514;
  create_init_task = 0xFF811000;
  init_task_addr = 0x50400;
}

copy_and_restart-image_example :
    let after = copy_and_restart symbols (λ a. a) in
    ((k : ℕ)
      → k < reloc_size / 4
      → is_patched k ≡ false
      → after (0x62000 / 4 + k) ≡ rom_base_addr / 4 + k)
    × (branch_dest (0x8A4 + 0x62000) (after (0x62000 / 4 + 0x8A4 / 4)) ≡ 0xFF812514)
    × (branch_dest (0x92C + 0x62000) (after (0x62000 / 4 + 0x92C / 4)) ≡ 0xFF811000)
    × ((a : ℕ)
        → (a < 0x62000 / 4) ⊎ (0x62000 / 4 + reloc_size / 4 ≤ a)
        → (a < 0x60000 / 4) ⊎ (0x80000 / 4 ≤ a)
        → after a ≡ a)
copy_and_restart-image_example =
    copy_and_restart-image symbols (λ a. a)
      (refl, refl, refl, omega arith, omega arith, omega arith) (omega arith) refl (omega arith)
      refl (inr (omega arith)) (inr (omega arith))

abbrev other_task : TaskMapping
other_task = record { orig = 0x100; replacement = 0x5100 }

abbrev gui_task : TaskMapping
gui_task = record { orig = 0x200; replacement = 0x5200 }

abbrev starting : Task
starting = record { pc = 7; task_entry = 0x200 }

hook_on_two :
    let hooked = my_task_dispatch_hook 7 (other_task ∷ gui_task ∷ []) (some starting) in
    (◌≡◌ {A = ℕ} 7 7
      → ◌≡◌ {A = ℕ} 0x200 0x200
      → hooked ≡ some (record { pc = 7; task_entry = 0x5200 }))
    × (◌≢◌ {A = ℕ} 0x200 0x200 → Unit {0} → hooked ≡ some starting)
    × (◌≢◌ {A = ℕ} 7 7 → hooked ≡ some starting)
hook_on_two =
    my_task_dispatch_hook-overrides 7 (other_task ∷ []) [] gui_task starting
      ((λ e. absurd (omega (arith, e))), tt)

abbrev init_func : TaskCreate
init_func = record { name = 1; task_entry = 10; priority = 0; flags = 0; arg = 0 }

abbrev task : TaskCreate
task = record { name = 2; task_entry = 20; priority = 0x1f; flags = 0x1000; arg = 0 }

abbrev off : System
off = record { shutdown_requested = false; init_funcs_done = false; global_config = 0 }

on_and_off :
    let (last, calls) = startup_reports (init_func ∷ []) (task ∷ []) 5 (0xFF ∷ 0 ∷ []) off in
    (entered calls ≡ 10 ∷ []) × (created calls ≡ 20 ∷ []) × (last.shutdown_requested ≡ true)
unfolding for_each_start is_shutdown_among
on_and_off = startup_reports-for_each_start (init_func ∷ []) (task ∷ []) 5 (0xFF ∷ 0 ∷ []) off

start_calls :
    (prop_startup_handler (init_func ∷ []) (task ∷ []) 5 0xFF off).1
    ≡ turn_on_display
      ∷ menu_init
      ∷ debug_init
      ∷ config_parse_file
      ∷ bmp_printf 0 40
      ∷ bmp_printf 0 64
      ∷ debug_msg 1
      ∷ enter 10
      ∷ debug_msg 2
      ∷ bmp_printf 0 76
      ∷ task_create 2 0x1f 0x1000 20 0
      ∷ debug_msg 0
      ∷ prop_cleanup 0x80010001
      ∷ []
unfolding prop_startup_handler call_init_funcs create_tasks
start_calls = refl

version_ends : (my_init_task 100 (λ i. b'2') (λ a. 7)).1 109 ≡ 0
unfolding my_init_task write_version
version_ends = refl

handlers : prop_init (1 ∷ []) ≡ copy_token_handler 1 ∷ prop_register_slave 1 1 ∷ []
unfolding prop_init prop_handler_init
handlers = refl
