-- ===== src/Init/Started.antt =====
-- What the reports of the start-up property bring about.
use magic_lantern.Common.{
  ℕ, ◌+◌, ◌≡◌, refl, ap, ◌∙◌, Bool, true, false, not, ◌||◌, Bool-cases, inl, inr, List, [], ◌∷◌,
  ◌++◌, map, append-nil, ◌==◌, if◌then◌else◌,
}
use magic_lantern.Init.Startup.{
  TaskCreate, Call, enter, task_create, System, call_init_funcs, create_tasks, prop_startup_handler,
  startup_reports, debug_msg, prop_cleanup, prop_terminate_shut_req,
}

-- The functions that are entered, and the tasks that are created.
unfoldable pub entered : List Call → List ℕ
entered [] = []
entered (enter f ∷ l) = f ∷ entered l
entered (_ ∷ l) = entered l

unfoldable pub created : List Call → List ℕ
created [] = []
created (task_create name priority flags entry arg ∷ l) = entry ∷ created l
created (_ ∷ l) = created l

-- The entries of a list, once for each report of a start.
unfoldable pub for_each_start : List ℕ → List ℕ → List ℕ
for_each_start entries [] = []
for_each_start entries (report ∷ reports) =
    let later = for_each_start entries reports in if report == 0xFF then entries ++ later else later

-- Some report is not that of a start.
unfoldable pub is_shutdown_among : List ℕ → Bool
is_shutdown_among [] = false
is_shutdown_among (report ∷ reports) = not (report == 0xFF) || is_shutdown_among reports

entered-append : (a b : List Call) → entered (a ++ b) ≡ entered a ++ entered b
unfolding entered
entered-append [] b = refl
entered-append (enter f ∷ a) b = ap (λ l. f ∷ l) (entered-append a b)
entered-append (_ ∷ a) b = entered-append a b

created-append : (a b : List Call) → created (a ++ b) ≡ created a ++ created b
unfolding created
created-append [] b = refl
created-append (task_create name priority flags entry arg ∷ a) b =
    ap (λ l. entry ∷ l) (created-append a b)
created-append (_ ∷ a) b = created-append a b

entered-call_init_funcs :
    (fs : List TaskCreate) → entered (call_init_funcs fs) ≡ map (λ f. f.task_entry) fs
unfolding entered call_init_funcs
entered-call_init_funcs [] = refl
entered-call_init_funcs (f ∷ fs) = ap (λ l. f.task_entry ∷ l) (entered-call_init_funcs fs)

created-call_init_funcs : (fs : List TaskCreate) → created (call_init_funcs fs) ≡ []
unfolding created call_init_funcs
created-call_init_funcs [] = refl
created-call_init_funcs (f ∷ fs) = created-call_init_funcs fs

entered-create_tasks : (y : ℕ) (ts : List TaskCreate) → entered (create_tasks y ts) ≡ []
unfolding entered create_tasks
entered-create_tasks y [] = refl
entered-create_tasks y (t ∷ ts) = entered-create_tasks (y + 12) ts

created-create_tasks :
    (y : ℕ) (ts : List TaskCreate) → created (create_tasks y ts) ≡ map (λ t. t.task_entry) ts
unfolding created create_tasks
created-create_tasks y [] = refl
created-create_tasks y (t ∷ ts) = ap (λ l. t.task_entry ∷ l) (created-create_tasks (y + 12) ts)

-- What a start calls after its first messages.
abbrev started : List TaskCreate → List TaskCreate → List Call
started init_funcs tasks =
    call_init_funcs init_funcs
    ++ create_tasks 64 tasks
    ++ (debug_msg 0 ∷ prop_cleanup prop_terminate_shut_req ∷ [])

entered_lem : (fs ts : List TaskCreate) → entered (started fs ts) ≡ map (λ f. f.task_entry) fs
unfolding entered
entered_lem fs ts =
    entered-append (call_init_funcs fs ++ create_tasks 64 ts)
      (debug_msg 0 ∷ prop_cleanup prop_terminate_shut_req ∷ [])
    ∙ append-nil _
    ∙ entered-append (call_init_funcs fs) (create_tasks 64 ts)
    ∙ rw (entered-create_tasks 64 ts, entered-call_init_funcs fs) (append-nil _)

created_lem : (fs ts : List TaskCreate) → created (started fs ts) ≡ map (λ t. t.task_entry) ts
unfolding created
created_lem fs ts =
    created-append (call_init_funcs fs ++ create_tasks 64 ts)
      (debug_msg 0 ∷ prop_cleanup prop_terminate_shut_req ∷ [])
    ∙ append-nil _
    ∙ created-append (call_init_funcs fs) (create_tasks 64 ts)
    ∙ rw (created-call_init_funcs fs, created-create_tasks 64 ts) refl

-- One report: what is entered and created, and the flag.
one_report :
    (init_funcs tasks : List TaskCreate) (config report : ℕ) (system : System)
    → let (next, calls) = prop_startup_handler init_funcs tasks config report system in
      (entered calls ≡ (if report == 0xFF then map (λ f. f.task_entry) init_funcs else []))
      × (created calls ≡ (if report == 0xFF then map (λ t. t.task_entry) tasks else []))
      × (next.shutdown_requested ≡ (not (report == 0xFF) || system.shutdown_requested))
unfolding prop_startup_handler entered created
one_report init_funcs tasks config report system = elim (Bool-cases (report == 0xFF)) [
  | inl e ↦ rw e (entered_lem init_funcs tasks, created_lem init_funcs tasks, refl)
  | inr e ↦ rw e (refl, refl, refl)
]

-- In any sequence of reports the initialisation functions are entered once, in their order, for each report of a start,
-- and the tasks are created once for each; the flag of the shutdown is set by the first report of another kind, and no
-- later one resets it.
pub startup_reports-for_each_start :
    (init_funcs tasks : List TaskCreate) (config : ℕ) (reports : List ℕ) (system : System)
    → let (last, calls) = startup_reports init_funcs tasks config reports system in
      (entered calls ≡ for_each_start (map (λ f. f.task_entry) init_funcs) reports)
      × (created calls ≡ for_each_start (map (λ t. t.task_entry) tasks) reports)
      × (last.shutdown_requested ≡ (is_shutdown_among reports || system.shutdown_requested))
unfolding startup_reports for_each_start is_shutdown_among entered created
startup_reports-for_each_start init_funcs tasks config [] system = (refl, refl, refl)
startup_reports-for_each_start init_funcs tasks config (report ∷ reports) system =
    let (next, calls) = prop_startup_handler init_funcs tasks config report system in
    let (e, c, f) = one_report init_funcs tasks config report system in
    let (es, cs, fs) = startup_reports-for_each_start init_funcs tasks config reports next in
    (
      entered-append calls _ ∙ joined (map (λ f. f.task_entry) init_funcs) (report == 0xFF) e es,
      created-append calls _ ∙ joined (map (λ t. t.task_entry) tasks) (report == 0xFF) c cs,
      fs ∙ flags system.shutdown_requested (not (report == 0xFF)) (is_shutdown_among reports) f,
    )
  where
    joined :
        {now later rest : List ℕ} (xs : List ℕ) (b : Bool)
        → now ≡ (if b then xs else [])
        → later ≡ rest
        → now ++ later ≡ (if b then xs ++ rest else rest)
    joined xs true e f = rw (e, f) refl
    joined xs false e f = rw (e, f) refl

    flags :
        {after : Bool} (before now later : Bool)
        → after ≡ (now || before)
        → (later || after) ≡ ((now || later) || before)
    flags before true true e = refl
    flags before true false e = e
    flags before false true e = refl
    flags before false false e = e
