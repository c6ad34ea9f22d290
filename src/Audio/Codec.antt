-- ===== src/Audio/Codec.antt =====
-- audio.c: the settings of the audio menu, and how they are written to the registers of the AK4646 codec.
pub mod Registers
pub mod Settled
pub mod Presses
pub mod Chosen
use magic_lantern.Common.{
  ℕ, zero, suc, ◌+◌, ◌-◌, ◌*◌, ◌/◌, ◌%◌, ◌^◌, ◌≤◌, ◌<◌, ◌≡◌, Bool, true, false, not, ◌&&◌, List, [],
  ◌∷◌, ltb, ◌==◌, if◌then◌else◌,
}

-- The codec, behind `audio_ic_read` and `audio_ic_write` of audio.h. A command has the register in its upper bits
-- and the value in its lower byte: what was written to a register is read from it, the other registers stay.
-- The value read is a byte.
pub record Codec : Type 1 where
  pub State : Type 0
  pub audio_ic_read : State → ℕ → ℕ
  pub audio_ic_write : State → ℕ → State
  pub read-write :
      (c : State) (cmd reg : ℕ)
      → audio_ic_read (audio_ic_write c cmd) (reg * 256)
        ≡ (if cmd / 256 == reg then cmd % 256 else audio_ic_read c (reg * 256))
  pub read-lt : (c : State) (reg : ℕ) → audio_ic_read c reg < 256

-- The configuration variables.
pub record Settings : Type 0 where
  pub mgain : ℕ
  pub dgain_l : ℕ
  pub dgain_r : ℕ
  pub mic_power : ℕ
  pub lovl : ℕ
  pub o2gain : ℕ
  pub alc_enable : ℕ
  pub mic_in : ℕ
  pub loopback : ℕ

abbrev pub defaults : Settings
defaults = record {
  mgain = 4;
  dgain_l = 18;
  dgain_r = 18;
  mic_power = 1;
  lovl = 3;
  o2gain = 0;
  alc_enable = 0;
  mic_in = 0;
  loopback = 1;
}

-- The registers of `struct gain_struct`, as they were written last.
pub record Gain : Type 0 where
  pub alc1 : ℕ
  pub sig1 : ℕ
  pub sig2 : ℕ

-- `audio_gain_to_cmd`, for a gain that is not negative and does not exceed 2 ^ 31 in the product.
abbrev pub audio_gain_to_cmd : ℕ → ℕ
audio_gain_to_cmd gain = (gain * 1000 / 375 + 145) % 256

-- The two halves of the microphone gain: `sig1 & ~3 | bits & 1 | (bits & 4) >> 1` and
-- `sig2 & ~(1<<5) | (bits & 2) << 4`. In each the operands have no bit in common.
abbrev pub mgain_sig1 : ℕ → ℕ → ℕ
mgain_sig1 bits sig1 = sig1 / 4 * 4 + bits % 2 + bits / 4 % 2 * 2

abbrev pub mgain_sig2 : ℕ → ℕ → ℕ
mgain_sig2 bits sig2 = sig2 / 64 * 64 + sig2 % 32 + bits / 2 % 2 * 32

-- `1 << 5` set in the value of FIL1, and the new value of MODE3: bits 2, 3, 4 and 6 of the old one are cleared.
-- The operands have no bit in common for a `loopback` of 0 or 1.
abbrev pub fil1_value : ℕ → ℕ
fil1_value fil1 = fil1 / 64 * 64 + fil1 % 32 + 32

abbrev pub mode3_value : ℕ → ℕ → ℕ → ℕ
mode3_value mode3 loopback o2gain =
    mode3 / 128 * 128 + mode3 / 32 % 2 * 32 + mode3 % 4 + loopback * 64 + o2gain % 4 * 4

module _ (ic : Codec) where
  open ic use {State, audio_ic_read, audio_ic_write}

  abbrev pub writes : State → List ℕ → State
  writes c [] = c
  writes c (cmd ∷ cmds) = writes (audio_ic_write c cmd) cmds

  -- `audio_ic_set_mgain`; `sig1` and `sig2` go to `gain`.
  unfoldable pub audio_ic_set_mgain : ℕ → State → (ℕ × ℕ) × State
  audio_ic_set_mgain bits c =
      let sig1 = mgain_sig1 (bits % 8) (audio_ic_read c 0x2200) in
      let c = audio_ic_write c (0x2200 + sig1) in
      let sig2 = mgain_sig2 (bits % 8) (audio_ic_read c 0x2300) in
      ((sig1, sig2), audio_ic_write c (0x2300 + sig2))

  abbrev pub is_in_sync : Gain → State → Bool
  is_in_sync gain c =
      (audio_ic_read c 0x2700 == gain.alc1)
      && (audio_ic_read c 0x2200 == gain.sig1)
      && (audio_ic_read c 0x2300 == gain.sig2)

  -- The commands of `audio_configure` before the microphone gain.
  abbrev pub reset_cmds : Settings → List ℕ
  reset_cmds s =
      (0x2000 + 0x6D)
      ∷ (0x2200 + (0x10 + (if s.mic_power == 0 then 0 else 4)))
      ∷ (0x2300 + (0x04 + s.lovl % 4))
      ∷ (0x3000 + (if s.mic_in == 0 then 7 else 0))
      ∷ (0x2700 + (if s.alc_enable == 0 then 0 else 32))
      ∷ 0x2F00
      ∷ (0x2C00 + audio_gain_to_cmd s.dgain_r)
      ∷ (0x2900 + audio_gain_to_cmd s.dgain_l)
      ∷ []

  -- What it does after the microphone gain: the filter and the monitor.
  abbrev pub filter_and_loop : Settings → State → State
  filter_and_loop s c =
      let c3 =
        writes c ((0x6C00 + 0xD4) ∷ (0x6D00 + 0x0E) ∷ (0x6E00 + 0xA9) ∷ (0x6F00 + 0x3D) ∷ []) in
      let c4 = audio_ic_write c3 (0x3100 + fil1_value (audio_ic_read c3 0x3100)) in
      audio_ic_write c4 (0x2E00 + mode3_value (audio_ic_read c4 0x2E00) s.loopback s.o2gain)

  -- `audio_configure`
  unfoldable pub audio_configure : Bool → Settings → Gain → State → Gain × State
  audio_configure force s gain c =
      let (sigs, c2) = audio_ic_set_mgain s.mgain (writes c (reset_cmds s)) in
      if not force && is_in_sync gain c then (gain, c) else (
        record { alc1 = if s.alc_enable == 0 then 0 else 32; sig1 = sigs.0; sig2 = sigs.1 },
        filter_and_loop s c2,
      )

  -- One round of `my_sounddev_task`: forced if the semaphore was taken in time.
  unfoldable pub sounddev_round : Bool → Settings → Gain × State → Gain × State
  unfolding audio_configure
  sounddev_round taken s (gain, c) = audio_configure taken s gain c
