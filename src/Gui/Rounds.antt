-- ===== src/Gui/Rounds.antt =====
-- What a run of the event loop does.
use magic_lantern.Common.{
  ℕ, suc, ◌+◌, ◌-◌, ◌^◌, ◌<◌, ◌≡◌, refl, subst, Bool, true, false, ◌&&◌, Bool-cases, none, some,
  inl, inr, List, [], ◌∷◌, ◌++◌, arith, ◌==◌, if◌then◌else◌,
}
use magic_lantern.Common.Word.{u32}
use magic_lantern.Gui.{
  Event, Call, debug_msg, give_semaphore, gui_massive_event_loop, event_message, Round, Gui,
  is_cleared, is_among, is_logged, on_control, on_mode, on_local, on_other, on_event, next_obj,
  gui_round, gui_rounds, my_gui_main_task, control_params,
}

-- How many of the calls pass a test.
unfoldable pub count : (Call → Bool) → List Call → ℕ
count test [] = 0
count test (c ∷ l) = let n = count test l in if test c then suc n else n

count-append :
    (test : Call → Bool) (a b : List Call) → count test (a ++ b) ≡ count test a + count test b
unfolding count
count-append test [] b = ground arith
count-append test (c ∷ a) b = let ih = count-append test a b in ground (arith, ih)

unfoldable pub is_give : Call → Bool
is_give give_semaphore = true
is_give _ = false

-- The picture style button, handed to the firmware.
unfoldable pub is_handed_on : Call → Bool
is_handed_on (gui_massive_event_loop p o a) = p == 0x13
is_handed_on _ = false

-- Whether a round has the picture style button.
abbrev pub is_press : Event → Bool
is_press e = (e.kind == 0) && (e.param == 0x13)

abbrev Answer : ℕ → List Call → Type 0
Answer n calls = (count is_give calls ≡ n) × (count is_handed_on calls ≡ 0)

not_exempt : (p : ℕ) → p ≡ 0x13 → is_among p control_params ≡ false
unfolding is_among
not_exempt p e = rw e refl

on_control_lem :
    (main_obj obj : ℕ) (e : Event)
    → Answer (if (main_obj == obj) && (e.param == 0x13) then 1 else 0) (on_control main_obj obj e)
unfolding on_control count is_give is_handed_on is_cleared
on_control_lem main_obj obj e = elim (Bool-cases (e.param == 0x13)) [
  | inl p ↦ let out = not_exempt e.param (ground (arith, p)) in ground (arith, p, out)
  | inr p ↦ ground (arith, p)
]

on_mode_lem : (main_obj timer_obj obj : ℕ) (e : Event) → Answer 0 (on_mode main_obj timer_obj obj e)
unfolding on_mode count is_give is_handed_on
on_mode_lem main_obj timer_obj obj e = ground arith

on_local_lem : (main_obj obj : ℕ) (e : Event) → Answer 0 (on_local main_obj obj e)
unfolding on_local count is_give is_handed_on
on_local_lem main_obj obj e = ground arith

on_other_lem : (main_obj obj : ℕ) (e : Event) → Answer 0 (on_other main_obj obj e)
unfolding on_other count is_give is_handed_on
on_other_lem main_obj obj e = ground arith

on_event_lem :
    (r : Round) (obj : ℕ) (e : Event)
    → Answer (if (r.main_obj == obj) && is_press e then 1 else 0) (on_event r obj e)
unfolding on_event count is_give is_handed_on
on_event_lem r obj e =
    let control = on_control_lem r.main_obj obj e in
    let mode = on_mode_lem r.main_obj r.timer_obj obj e in
    let here = on_local_lem r.main_obj obj e in
    let other = on_other_lem r.main_obj obj e in ground (arith, control, mode, here, other)

-- Whether a round has the picture style button, with nothing cancelled: the object of the last cancellation is the one
-- that the firmware has.
unfoldable pub is_ours : ℕ → Round → Bool
is_ours obj r = elim r.event [ none ↦ false | some e ↦ (r.main_obj == obj) && is_press e ]

-- The object of the last cancellation.
unfoldable pub cancelled : ℕ → Round → ℕ
unfolding next_obj
cancelled obj r = elim r.event [ none ↦ obj | some e ↦ next_obj obj e ]

-- The rounds before the shutdown, and those of them that are ours.
unfoldable pub seen : List Round → ℕ
seen [] = 0
seen (r ∷ rounds) = let n = seen rounds in if r.shutdown_requested then 0 else suc n

unfoldable pub presses : ℕ → List Round → ℕ
unfolding cancelled
presses obj [] = 0
presses obj (r ∷ rounds) =
    let n = presses (cancelled obj r) rounds in
    if r.shutdown_requested then 0 else (if is_ours obj r then suc n else n)

logged_lem :
    (n : ℕ) (b : Bool) (e : Event) (calls : List Call)
    → Answer n calls
    → Answer n ((if b then debug_msg (event_message e) ∷ [] else []) ++ calls)
unfolding count is_give is_handed_on
logged_lem n true e calls h = h
logged_lem n false e calls h = h

Answer-append : (n m : ℕ) (a b : List Call) → Answer n a → Answer m b → Answer (n + m) (a ++ b)
Answer-append n m a b (give_a, hand_a) (give_b, hand_b) =
    let give = count-append is_give a b in
    let hand = count-append is_handed_on a b in
    (omega (arith, give, give_a, give_b), omega (arith, hand, hand_a, hand_b))

-- What a round does, in the form in which the rounds are put together.
abbrev IsAnswered : Round → Gui → Type 0
IsAnswered r g =
    Answer (if is_ours g.obj r then 1 else 0) (gui_round r g).1
    × ((gui_round r g).0.obj ≡ cancelled g.obj r)
    × ((gui_round r g).0.counter ≡ u32 (g.counter + 2 ^ 32 - 1))

gui_round-IsAnswered : (r : Round) (g : Gui) → IsAnswered r g
unfolding gui_round is_ours cancelled count is_give is_handed_on
gui_round-IsAnswered r g = elim r.event as (λ event. IsAnswered (record r { event = event }) g) [
  | none ↦ ((refl, refl), refl, refl)
  | some e ↦ (
    logged_lem (if (r.main_obj == g.obj) && is_press e then 1 else 0) (is_logged e) e
        (on_event (record r { event = some e }) g.obj e)
        (on_event_lem (record r { event = some e }) g.obj e),
    refl,
    refl,
  )
]

gui_rounds_lem :
    (rounds : List Round) (g : Gui)
    → g.counter < 2 ^ 32
    → let (after, calls) = gui_rounds rounds g in
      Answer (presses g.obj rounds) calls × (u32 (after.counter + seen rounds) ≡ g.counter)
unfolding gui_rounds presses seen count
gui_rounds_lem [] g h = ((refl, refl), omega (arith, h))
gui_rounds_lem (r ∷ rounds) g h =
    let (answer, obj, counter) = gui_round-IsAnswered r g in
    let small : (gui_round r g).0.counter < 2 ^ 32 = omega (arith, counter) in
    let (later, count_later) = gui_rounds_lem rounds (gui_round r g).0 small in
    let later_here =
      subst (λ o. Answer (presses o rounds) (gui_rounds rounds (gui_round r g).0).1) obj later in
    let whole =
      Answer-append (if is_ours g.obj r then 1 else 0) (presses (cancelled g.obj r) rounds)
        (gui_round r g).1 (gui_rounds rounds (gui_round r g).0).1 answer later_here in
    elim (Bool-cases r.shutdown_requested) [
      | inl e ↦ rw e ((refl, refl), omega (arith, h))
      | inr e ↦ rw e (
        ground (arith, whole),
        back_lem g.counter (gui_round r g).0.counter (gui_rounds rounds (gui_round r g).0).0.counter
            (seen rounds) h counter count_later,
      )
    ]
  where
    back_lem :
        (before next after n : ℕ)
        → before < 2 ^ 32
        → next ≡ u32 (before + 2 ^ 32 - 1)
        → u32 (after + n) ≡ next
        → u32 (after + suc n) ≡ before
    back_lem before next after n h e f = omega (arith, h, e, f)

-- In any run the semaphore is given once for each press of the picture style button while nothing is cancelled, the
-- firmware is never handed that button, and the counter goes down by one for each round, whatever its event is.
pub my_gui_main_task-presses :
    (rounds : List Round) (counter : ℕ)
    → counter < 2 ^ 32
    → let (after, calls) = my_gui_main_task counter rounds in
      (count is_give calls ≡ presses 0 rounds)
      × (count is_handed_on calls ≡ 0)
      × (u32 (after.counter + seen rounds) ≡ counter)
unfolding my_gui_main_task count is_give is_handed_on
my_gui_main_task-presses rounds counter h =
    let ((give, hand), down) = gui_rounds_lem rounds record { obj = 0; counter = counter } h in
    (give, hand, down)
