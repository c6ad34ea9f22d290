-- ===== src/Lens/Picture.antt =====
-- `lens_take_picture` of lens.c, and the report of the camera that ends the job of a picture.
use magic_lantern.Common.{
  ℕ, suc, ◌+◌, ◌≡◌, Bool, true, false, not, ◌&&◌, List, [], ◌∷◌, ◌++◌, arith, ltb, ◌==◌,
  if◌then◌else◌,
}
use magic_lantern.Common.Int.{ℤ, pos, negsuc}

-- What the code does: `take` with its outcome, where true is in time.
pub data Call : Type 0 where
  take : Bool → Call
  give : Call
  debug_msg : ℕ → Call
  release : Call

-- `in_time` and `done_in_time` are whether the two takings of the semaphore are in time, `job_state` is the state at the
-- first test, and `end_state` the one at the end.
unfoldable pub lens_take_picture : Bool → Bool → ℕ → ℕ → ℕ → ℤ × List Call
lens_take_picture in_time done_in_time wait job_state end_state =
    let late = if in_time then [] else debug_msg job_state ∷ [] in
    if not in_time && ltb 0xA job_state
    then (negsuc 0, take in_time ∷ late)
    else if wait == 0
    then (pos 0, (take in_time ∷ late) ++ (release ∷ []))
    else if not done_in_time
    then (negsuc 0, (take in_time ∷ late) ++ (release ∷ take false ∷ []))
    else (pos end_state, (take in_time ∷ late) ++ (release ∷ take true ∷ give ∷ []))

-- How often the semaphore was got, and how often it was given.
unfoldable pub taken : List Call → ℕ
taken [] = 0
taken (take true ∷ l) = suc (taken l)
taken (_ ∷ l) = taken l

unfoldable pub given : List Call → ℕ
given [] = 0
given (give ∷ l) = suc (given l)
given (_ ∷ l) = given l

unfoldable pub released : List Call → ℕ
released [] = 0
released (release ∷ l) = suc (released l)
released (_ ∷ l) = released l

-- The shutter is released at most once, and exactly then not when the semaphore is late and the camera still at work.
-- Each picture takes the semaphore once more than it gives it back, if it got it in time, and not more often if it did
-- not; what the camera reports at the end of the job gives it back.
pub lens_take_picture-taken :
    (in_time done_in_time : Bool) (wait job_state end_state : ℕ)
    → let calls = (lens_take_picture in_time done_in_time wait job_state end_state).1 in
      (released calls ≡ (if not in_time && ltb 0xA job_state then 0 else 1))
      × (taken calls ≡ given calls + (if in_time then 1 else 0))
unfolding lens_take_picture taken given released
lens_take_picture-taken true done_in_time wait job_state end_state = ground arith
lens_take_picture-taken false done_in_time wait job_state end_state = ground arith
