-- ===== src/Focus/Position.antt =====
-- The focus position that the PTP operation 0x9998 keeps.
use magic_lantern.Common.{ℕ, ◌≡◌, List, [], ◌∷◌, arith, if◌then◌else◌}
use magic_lantern.Common.Int.{ℤ, pos, ◌+ℤ◌, ◌≤ℤ◌, ltb_ℤ}
use magic_lantern.Common.Word.{to_int}
use magic_lantern.Focus.{Focus, Call, lens_focus, ptp_focus, focus_max}

abbrev pub InRange : ℤ → Type 0
InRange p = (pos 0 ≤ℤ p) × (p ≤ℤ pos focus_max)

-- A host's operations in order, and the steps that the lens is sent.
unfoldable pub ptp_run : Focus → List ℕ → Focus × List Call
ptp_run s [] = (s, [])
ptp_run s (p ∷ ps) = let (s', c, _, _) = ptp_focus p s in let (t, cs) = ptp_run s' ps in (t, c ∷ cs)

ptp_focus-InRange : (p : ℕ) (s : Focus) → InRange (ptp_focus p s).0.focus_position
unfolding ptp_focus
ptp_focus-InRange p s = clamp_range (s.focus_position +ℤ to_int p)
  where
    clamp_range :
        (q : ℤ)
        → InRange (
            if ltb_ℤ q (pos 0) then pos 0 else if ltb_ℤ (pos focus_max) q then pos focus_max else q)
    clamp_range q = ground arith

-- Whatever the host sends, the position that is kept, and reported, lies between 0 and FOCUS_MAX.
ptp_run-InRange :
    (s : Focus) (ps : List ℕ) → InRange s.focus_position → InRange (ptp_run s ps).0.focus_position
unfolding ptp_run
ptp_run-InRange s [] h = h
ptp_run-InRange s (p ∷ ps) h = ptp_run-InRange (ptp_focus p s).0 ps (ptp_focus-InRange p s)

-- Where the asked step stays in range, the position follows the lens: the step that is sent, the change
-- of the position and the reported position agree.
pub ptp_focus-follows :
    (p : ℕ) (s : Focus)
    → InRange (s.focus_position +ℤ to_int p)
    → ptp_focus p s ≡ (
      record s { focus_position = s.focus_position +ℤ to_int p },
      lens_focus 0x7 (to_int p),
      p,
      s.focus_position +ℤ to_int p,
    )
unfolding ptp_focus
ptp_focus-follows p s h = ground (arith, h.0, h.1)
