-- ===== src/Audio/Codec/Presses.antt =====
-- The entries of the audio menu, and the settings they leave.
use magic_lantern.Common.{ℕ, ◌+◌, ◌%◌, ◌≤◌, ◌<◌, arith, ltb, ◌==◌, if◌then◌else◌}
use magic_lantern.Audio.Codec.{Settings}

-- What the `select` functions of `audio_menus` do to their setting.
abbrev pub audio_binary_toggle : ℕ → ℕ
audio_binary_toggle value = if value == 0 then 1 else 0

abbrev pub audio_3bit_toggle : ℕ → ℕ
audio_3bit_toggle value = (value + 1) % 4

abbrev pub audio_mgain_toggle : ℕ → ℕ
audio_mgain_toggle value = (value + 1) % 8

abbrev pub audio_dgain_toggle : ℕ → ℕ
audio_dgain_toggle dgain = if ltb 40 (dgain + 6) then 0 else dgain + 6

-- The entries that are chosen, and `enable_meters` by the property of the live view.
pub data Press : Type 0 where
  lovl : Press
  mgain : Press
  dgain_l : Press
  dgain_r : Press
  alc_enable : Press
  mic_in : Press
  loopback : Press
  enable_meters : ℕ → Press

unfoldable pub press : Press → Settings → Settings
press lovl s = record s { lovl = audio_3bit_toggle s.lovl }
press mgain s = record s { mgain = audio_mgain_toggle s.mgain }
press dgain_l s = record s { dgain_l = audio_dgain_toggle s.dgain_l }
press dgain_r s = record s { dgain_r = audio_dgain_toggle s.dgain_r }
press alc_enable s = record s { alc_enable = audio_binary_toggle s.alc_enable }
press mic_in s = record s { mic_in = audio_binary_toggle s.mic_in }
press loopback s = record s { loopback = audio_binary_toggle s.loopback }
press (enable_meters mode) s = record s { loopback = if mode == 0 then 1 else 0 }

-- What fits the registers: the volume commands do not exceed a byte.
pub record IsValid (s : Settings) : Type 0 where
  pub mgain_max : s.mgain < 8
  pub dgain_l_max : s.dgain_l ≤ 41
  pub dgain_r_max : s.dgain_r ≤ 41
  pub lovl_max : s.lovl < 4
  pub loopback_max : s.loopback ≤ 1

pub press-IsValid : (p : Press) (s : Settings) → IsValid s → IsValid (press p s)
unfolding press
press-IsValid p s v = ground arith
