-- ===== src/Audio/Codec/Chosen.antt =====
-- The entries of the audio menu with what they do to the codec, over the life of the program.
use magic_lantern.Common.{true, List, [], ◌∷◌}
use magic_lantern.Audio.Codec.{Codec, Settings, Gain, audio_configure}
use magic_lantern.Audio.Codec.Presses.{Press, press, IsValid, press-IsValid}
use magic_lantern.Audio.Codec.Settled.{Holds, configured-Holds}

module _ (ic : Codec) where
  open ic use {State}

  -- A `select` function of the menu, or `enable_meters`: the setting, and the `audio_configure( 1 )` that it ends with.
  unfoldable pub select : Press → Settings × (Gain × State) → Settings × (Gain × State)
  select p (s, (gain, c)) = let s' = press p s in (s', audio_configure ic true s' gain c)

  unfoldable pub selects : List Press → Settings × (Gain × State) → Settings × (Gain × State)
  selects [] r = r
  selects (p ∷ ps) r = selects ps (select p r)

  abbrev Settled : Settings × (Gain × State) → Type 0
  Settled r = IsValid r.0 × Holds ic r.0 r.1.0 r.1.1

  select-Settled : (p : Press) (r : Settings × (Gain × State)) → IsValid r.0 → Settled (select p r)
  unfolding select
  select-Settled p (s, (gain, c)) v =
      let v' = press-IsValid p s v in (v', configured-Holds ic (press p s) gain c v')

  kept_Settled :
      (ps : List Press) (r : Settings × (Gain × State)) → Settled r → Settled (selects ps r)
  unfolding selects
  kept_Settled [] r h = h
  kept_Settled (p ∷ ps) r h = kept_Settled ps (select p r) (select-Settled p r h.0)

  -- From valid settings, after any choices in the menu, one at least, the settings are valid and the codec holds them all:
  -- the gain, power and input of the microphone, the volumes, the automatic level control, the line output, the monitor
  -- loop and the lower two bits of the output gain, whatever the registers and what was remembered of them held before.
  pub selects-Holds :
      (p : Press) (ps : List Press) (s : Settings) (gain : Gain) (c : State)
      → IsValid s
      → let (s', (g, t)) = selects (p ∷ ps) (s, (gain, c)) in IsValid s' × Holds ic s' g t
  unfolding selects
  selects-Holds p ps s gain c v =
      kept_Settled ps (select p (s, (gain, c))) (select-Settled p (s, (gain, c)) v)
