-- ===== src/Bracket/Tests.antt =====
-- The bracket at its default settings.
use magic_lantern.Common.{◌/◌, ◌≡◌, refl, some, List, [], ◌∷◌, arith}
use magic_lantern.Common.Int.{pos, negsuc, neg_ℕ, ◌+ℤ◌, ◌*ℤ◌}
use magic_lantern.Bracket.{
  Command, set_ae, take_picture, defaults, exposures, bracket, bracket_pass,
}
use magic_lantern.Bracket.Exposures.{IsLadder, bracket-IsLadder}

bracket-IsLadder_example :
    (cs : List Command) × (bracket defaults (pos 10) ≡ some cs)
    × IsLadder cs 5 (pos 10) (pos 3) (neg_ℕ (5 / 2))
bracket-IsLadder_example = bracket-IsLadder defaults (pos 10) (omega arith)

bracket_runs :
    bracket_pass (record defaults { ae_count = 3 })
    ≡ some (
        set_ae (negsuc 2)
        ∷ take_picture 1000
        ∷ set_ae (pos 0)
        ∷ take_picture 1000
        ∷ set_ae (pos 3)
        ∷ take_picture 1000
        ∷ set_ae (pos 0)
        ∷ [])
unfolding bracket_pass bracket exposures ◌+ℤ◌ ◌*ℤ◌
bracket_runs = refl
