-- ===== src/Ptp/Tests.antt =====
-- Requests of a host.
use magic_lantern.Common.{ℕ, ◌*◌, ◌≡◌, refl, [], ◌∷◌}
use magic_lantern.Ptp.{
  Request, prop_deliver, ptp_register_handler, menu_add, write_handler, dump_handler, movie_handler,
  unlock_handler, ptp_state_toggle, ptp_init, old_word, sent, write_handler-old_word,
}

-- A request to write 7 at the address 100.
abbrev request : Request
request = record { session = 1; transaction = 2; param1 = 100; param2 = 7 }

write_and_restore :
    let (after, reply) = write_handler request (λ a. a * 3) in
    (sent (dump_handler request after) ≡ 7 ∷ 312 ∷ 324 ∷ 336 ∷ 348 ∷ [])
    × ((a : ℕ)
        → (write_handler (record request { param2 = old_word (sent reply) }) after).0 a ≡ a * 3)
write_and_restore = write_handler-old_word request (λ a. a * 3)

state_toggled : ptp_state_toggle 5 ≡ (0, prop_deliver ∷ [])
unfolding ptp_state_toggle
state_toggled = refl

registered :
    ptp_init (0x9995 ∷ 0x9996 ∷ [])
    ≡ ptp_register_handler 0x9995 ∷ ptp_register_handler 0x9996 ∷ menu_add ∷ []
unfolding ptp_init
registered = refl

unlocked : sent (unlock_handler request) ≡ 1 ∷ 2 ∷ 0xdeadbeef ∷ 3 ∷ []
unfolding unlock_handler sent
unlocked = refl

movie_sent : sent (movie_handler request) ≡ 100 ∷ []
unfolding movie_handler sent
movie_sent = refl
