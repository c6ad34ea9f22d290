-- ===== src/Ptp.antt =====
-- The handlers of ptp.c for the requests of a host on the USB wire. The memory of the camera is a function from the
-- addresses of words.
mod Tests
use magic_lantern.Common.{
  ℕ, zero, suc, ◌+◌, ◌≡◌, ◌≢◌, refl, sym, ap, ◌∙◌, ◌++◌, Bool, true, false, Bool-cases, inl, inr,
  List, [], ◌∷◌, arith, ◌==◌, if◌then◌else◌,
}
use magic_lantern.Common.Memory.{update}

-- A request: the session, the transaction and the parameters.
pub record Request : Type 0 where
  pub session : ℕ
  pub transaction : ℕ
  pub param1 : ℕ
  pub param2 : ℕ

pub record PtpMsg : Type 0 where
  pub id : ℕ
  pub session : ℕ
  pub transaction : ℕ
  pub param_count : ℕ
  pub param : List ℕ

pub data Call : Type 0 where
  bmp_printf : ℕ → ℕ → Call
  gui_unlock : Call
  movie_start : Call
  send : PtpMsg → Call
  prop_deliver : Call
  ptp_register_handler : ℕ → Call
  menu_add : Call

abbrev pub ptp_rc_ok : ℕ
ptp_rc_ok = 0x2001

abbrev pub answer : Request → ℕ → List ℕ → Call
answer r count params = send (record {
  id = ptp_rc_ok;
  session = r.session;
  transaction = r.transaction;
  param_count = count;
  param = params;
})

-- Operation 0x9999: two lines are printed, and the lock of the USB is released.
unfoldable pub unlock_handler : Request → List Call
unlock_handler r =
    bmp_printf 0 30 ∷ bmp_printf 0 50 ∷ answer r 4 (1 ∷ 2 ∷ 0xdeadbeef ∷ 3 ∷ []) ∷ gui_unlock ∷ []

-- Operation 0x9997: the recording is started or stopped.
unfoldable pub movie_handler : Request → List Call
movie_handler r = movie_start ∷ answer r 1 (r.param1 ∷ []) ∷ []

-- Operation 0x9996: five words of the memory.
unfoldable pub dump_handler : Request → (ℕ → ℕ) → List Call
dump_handler r memory =
    let buf = r.param1 in
    answer r 5 (
      memory buf ∷ memory (buf + 4) ∷ memory (buf + 8) ∷ memory (buf + 12) ∷ memory (buf + 16) ∷ [])
    ∷ []

-- Operation 0x9995: a word is written, and the old one sent back.
unfoldable pub write_handler : Request → (ℕ → ℕ) → (ℕ → ℕ) × List Call
write_handler r memory =
    let old = memory r.param1 in
    (update memory r.param1 r.param2, answer r 2 (r.param1 ∷ old ∷ []) ∷ [])

-- The menu: `hotplug_struct.usb_state` is negated, and delivered.
unfoldable pub ptp_state_toggle : ℕ → ℕ × List Call
ptp_state_toggle usb_state = (if usb_state == 0 then 1 else 0, prop_deliver ∷ [])

-- `ptp_init`, for the ids of the handlers.
unfoldable pub ptp_init : List ℕ → List Call
ptp_init [] = menu_add ∷ []
ptp_init (handler ∷ handlers) = ptp_register_handler handler ∷ ptp_init handlers

-- What the host reads in the answers.
unfoldable pub sent : List Call → List ℕ
sent [] = []
sent (send m ∷ l) = m.param ++ sent l
sent (_ ∷ l) = sent l

-- The word that an answer to a write brings back.
unfoldable pub old_word : List ℕ → ℕ
old_word (place ∷ old ∷ []) = old
old_word _ = 0

-- After a write, a dump of the same place shows the new word and the four words behind it as they were; and a second
-- write, with the word that came back from the first, makes the memory what it was, everywhere.
pub write_handler-old_word :
    (r : Request) (memory : ℕ → ℕ)
    → let (after, reply) = write_handler r memory in
      let p = r.param1 in
      (sent (dump_handler r after)
        ≡ r.param2 ∷ memory (p + 4) ∷ memory (p + 8) ∷ memory (p + 12) ∷ memory (p + 16) ∷ [])
      × ((a : ℕ)
          → (write_handler (record r { param2 = old_word (sent reply) }) after).0 a ≡ memory a)
unfolding write_handler old_word dump_handler sent
write_handler-old_word r memory =
    let p = r.param1 in
    let here : (p == p) ≡ true = ground arith in
    let w1 : (p + 4 == p) ≡ false = ground arith in
    let w2 : (p + 8 == p) ≡ false = ground arith in
    let w3 : (p + 12 == p) ≡ false = ground arith in
    let w4 : (p + 16 == p) ≡ false = ground arith in
    (
      rw (here, w1, w2, w3, w4) refl,
      (λ a. elim (Bool-cases (a == p)) [
        | inl e ↦ let same : a ≡ p = ground (arith, e) in rw e (ap memory (sym same))
        | inr e ↦ rw e refl
      ]),
    )
