-- ===== src/Init/Hook.antt =====
-- The hook of init.c that is called when a task is dispatched, and replaces the tasks that Magic Lantern overrides.
use magic_lantern.Common.{
  ℕ, ◌≡◌, ◌≢◌, refl, true, false, not, Bool-cases, inl, inr, Option, none, some, List, [], ◌∷◌,
  ◌++◌, arith, ◌==◌, if◌then◌else◌,
}
use magic_lantern.Common.Text.{All}

-- The fields of a task that the hook reads or writes: `context->pc`, and `entry` (here `task_entry`).
pub record Task : Type 0 where
  pub pc : ℕ
  pub task_entry : ℕ

pub record TaskMapping : Type 0 where
  pub orig : ℕ
  pub replacement : ℕ

-- The loop over `_task_overrides`.
unfoldable pub override_entry : List TaskMapping → ℕ → ℕ
override_entry [] entry = entry
override_entry (mapping ∷ mappings) entry =
    let later = override_entry mappings entry in
    if mapping.orig == entry then mapping.replacement else later

-- `none` is a NULL context.
unfoldable pub my_task_dispatch_hook : ℕ → List TaskMapping → Option Task → Option Task
unfolding override_entry
my_task_dispatch_hook task_trampoline overrides none = none
my_task_dispatch_hook task_trampoline overrides (some task) =
    if not (task.pc == task_trampoline)
    then some task
    else some (record task { task_entry = override_entry overrides task.task_entry })

override_entry-append :
    (before after : List TaskMapping) (m : TaskMapping) (entry : ℕ)
    → All (λ n. n.orig ≢ entry) before
    → m.orig ≡ entry
    → override_entry (before ++ (m ∷ after)) entry ≡ m.replacement
unfolding override_entry
override_entry-append [] after m entry others same = ground (arith, same)
override_entry-append (n ∷ before) after m entry (other, others) same =
    let ih = override_entry-append before after m entry others same in ground (arith, other, ih)

override_entry_none :
    (overrides : List TaskMapping) (entry : ℕ)
    → All (λ n. n.orig ≢ entry) overrides
    → override_entry overrides entry ≡ entry
unfolding override_entry
override_entry_none [] entry others = refl
override_entry_none (n ∷ overrides) entry (other, others) =
    let ih = override_entry_none overrides entry others in ground (arith, other, ih)

-- A task that starts on the trampoline gets the entry of the first override of its own entry, and keeps its entry where
-- no override has it; a task that is elsewhere is left as it is.
pub my_task_dispatch_hook-overrides :
    (task_trampoline : ℕ) (before after : List TaskMapping) (m : TaskMapping) (t : Task)
    → All (λ n. n.orig ≢ t.task_entry) before
    → let overrides = before ++ (m ∷ after) in
      let hooked = my_task_dispatch_hook task_trampoline overrides (some t) in
      (t.pc ≡ task_trampoline
        → m.orig ≡ t.task_entry
        → hooked ≡ some (record t { task_entry = m.replacement }))
      × (m.orig ≢ t.task_entry → All (λ n. n.orig ≢ t.task_entry) after → hooked ≡ some t)
      × (t.pc ≢ task_trampoline → hooked ≡ some t)
unfolding my_task_dispatch_hook
my_task_dispatch_hook-overrides task_trampoline before after m t others = (
  (λ on same.
      let first = override_entry-append before after m t.task_entry others same in
      let here : (t.pc == task_trampoline) ≡ true = ground (arith, on) in rw (here, first) refl),
  (λ other later.
      let kept =
        override_entry_none (before ++ (m ∷ after)) t.task_entry (both before others other later) in
      elim (Bool-cases (t.pc == task_trampoline)) [
        | inl e ↦ rw (e, kept) refl
        | inr e ↦ rw e refl
      ]),
  (λ off. let away : (t.pc == task_trampoline) ≡ false = ground (arith, off) in rw away refl),
)
  where
    both :
        (before : List TaskMapping)
        → All (λ n. n.orig ≢ t.task_entry) before
        → m.orig ≢ t.task_entry
        → All (λ n. n.orig ≢ t.task_entry) after
        → All (λ n. n.orig ≢ t.task_entry) (before ++ (m ∷ after))
    both [] others other later = (other, later)
    both (n ∷ before) (first, others) other later = (first, both before others other later)
