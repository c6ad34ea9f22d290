-- ===== src/Init/Startup.antt =====
-- The start-up of init.c, as the calls that it makes, and the registration of the property handlers (property.c).
use magic_lantern.Common.{ℕ, ◌+◌, Bool, true, not, List, [], ◌∷◌, ◌++◌, ◌==◌, if◌then◌else◌}
use magic_lantern.Common.Memory.{update}

-- `struct task_create`; the functions are numbers.
pub record TaskCreate : Type 0 where
  pub name : ℕ
  pub task_entry : ℕ
  pub priority : ℕ
  pub flags : ℕ
  pub arg : ℕ

-- The calls; the text of the messages is left out.
pub data Call : Type 0 where
  init_task : Call
  dmstart : Call
  debug_msg : ℕ → Call
  bmp_printf : ℕ → ℕ → Call
  turn_on_display : Call
  menu_init : Call
  debug_init : Call
  config_parse_file : Call
  -- An initialisation function is entered.
  enter : ℕ → Call
  task_create : ℕ → ℕ → ℕ → ℕ → ℕ → Call
  prop_cleanup : ℕ → Call
  msleep : ℕ → Call
  -- The token handler is copied, and the handler registered for its property.
  copy_token_handler : ℕ → Call
  prop_register_slave : ℕ → ℕ → Call

pub record System : Type 0 where
  pub shutdown_requested : Bool
  pub init_funcs_done : Bool
  pub global_config : ℕ

abbrev pub prop_terminate_shut_req : ℕ
prop_terminate_shut_req = 0x80010001

-- The number of a debug message is that of what it names, or 0.
unfoldable pub call_init_funcs : List TaskCreate → List Call
call_init_funcs [] = []
call_init_funcs (init_func ∷ init_funcs) =
    debug_msg init_func.name ∷ enter init_func.task_entry ∷ call_init_funcs init_funcs

-- The loop over `_tasks`; `y` is that of the line before.
unfoldable pub create_tasks : ℕ → List TaskCreate → List Call
create_tasks y [] = []
create_tasks y (task ∷ tasks) =
    debug_msg task.name
    ∷ bmp_printf 0 (y + 12)
    ∷ task_create task.name task.priority task.flags task.task_entry task.arg
    ∷ create_tasks (y + 12) tasks

-- `config` is what `config_parse_file` returns, and `report` the first word of the property.
unfoldable pub prop_startup_handler :
    List TaskCreate → List TaskCreate → ℕ → ℕ → System → System × List Call
unfolding call_init_funcs create_tasks
prop_startup_handler init_funcs tasks config report system =
    if not (report == 0xFF)
    then (
      record system { shutdown_requested = true },
      bmp_printf 0 40 ∷ prop_cleanup prop_terminate_shut_req ∷ [],
    )
    else (
      record system { init_funcs_done = true; global_config = config },
      (turn_on_display
            ∷ menu_init
            ∷ debug_init
            ∷ config_parse_file
            ∷ bmp_printf 0 40
            ∷ bmp_printf 0 64
            ∷ [])
          ++ call_init_funcs init_funcs
          ++ create_tasks 64 tasks
          ++ (debug_msg 0 ∷ prop_cleanup prop_terminate_shut_req ∷ []),
    )

-- The handlers of property.c. The generic token handler is code that is copied into each of them.
unfoldable pub prop_handler_init : ℕ → List Call
prop_handler_init property = copy_token_handler property ∷ prop_register_slave property 1 ∷ []

unfoldable pub prop_init : List ℕ → List Call
unfolding prop_handler_init
prop_init [] = []
prop_init (handler ∷ handlers) = prop_handler_init handler ++ prop_init handlers

-- The version string, at `additional_version`, byte by byte.
unfoldable pub write_version : ℕ → (ℕ → ℕ) → (ℕ → ℕ) → ℕ → ℕ
write_version at build_version memory =
    let m =
      update (update (update (update memory at b'-') (at + 1) b'm') (at + 2) b'l') (at + 3) b'-' in
    let m =
      update (update (update m (at + 4) (build_version 0)) (at + 5) (build_version 1)) (at + 6)
        (build_version 2) in
    update (update (update m (at + 7) (build_version 3)) (at + 8) (build_version 4)) (at + 9) 0

-- The messages before the version is written, and the wait before the handler is registered. The name of the log's
-- class is not modelled.
unfoldable pub my_init_task : ℕ → (ℕ → ℕ) → (ℕ → ℕ) → List Call × (ℕ → ℕ)
unfolding write_version prop_handler_init
my_init_task additional_version build_version memory = (
  (init_task ∷ dmstart ∷ debug_msg 0 ∷ debug_msg 0 ∷ msleep 1000 ∷ [])
      ++ prop_handler_init prop_terminate_shut_req,
  write_version additional_version build_version memory,
)

-- All the reports that come, in turn.
unfoldable pub startup_reports :
    List TaskCreate → List TaskCreate → ℕ → List ℕ → System → System × List Call
unfolding prop_startup_handler
startup_reports init_funcs tasks config [] system = (system, [])
startup_reports init_funcs tasks config (report ∷ reports) system =
    let (next, calls) = prop_startup_handler init_funcs tasks config report system in
    let (last, later) = startup_reports init_funcs tasks config reports next in
    (last, calls ++ later)
