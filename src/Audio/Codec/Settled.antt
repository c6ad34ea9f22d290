-- ===== src/Audio/Codec/Settled.antt =====
-- The registers after `audio_configure`.
use magic_lantern.Common.{
  ℕ, ◌+◌, ◌*◌, ◌/◌, ◌%◌, ◌≤◌, ◌<◌, ◌≡◌, ◌≢◌, refl, sym, subst, ap, ◌∙◌, Bool, true, false,
  Bool-cases, inl, inr, arith, ◌==◌, if◌then◌else◌,
}
use magic_lantern.Audio.Codec.{
  Codec, Settings, Gain, mgain_sig1, mgain_sig2, writes, audio_ic_set_mgain, is_in_sync,
  audio_configure, reset_cmds,
}
use magic_lantern.Audio.Codec.Presses.{IsValid}
use magic_lantern.Audio.Codec.Registers.{
  filter_and_loop_lem, filter_and_loop_mode3, set_mgain_lem, set_mgain_keeps, reset_lem,
}

-- The bits of the gain and of the power can be read back from the two registers.
mgain_back :
    (mgain mic_power lovl : ℕ)
    → mgain < 8
    → mgain_sig1 (mgain % 8) (0x10 + (if mic_power == 0 then 0 else 4)) % 2
        + mgain_sig2 (mgain % 8) (0x04 + lovl % 4) / 32 % 2 * 2
        + mgain_sig1 (mgain % 8) (0x10 + (if mic_power == 0 then 0 else 4)) / 2 % 2 * 4
      ≡ mgain
mgain_back mgain mic_power lovl h = ground (arith, h)

mic_power_back :
    (mgain mic_power : ℕ)
    → mgain_sig1 (mgain % 8) (0x10 + (if mic_power == 0 then 0 else 4)) / 4
      ≡ 4 + (if mic_power == 0 then 0 else 1)
mic_power_back mgain mic_power = ground arith

module _ (ic : Codec) where
  open ic use {State, audio_ic_read}

  -- What a forced configuration leaves in the codec: the three registers that it remembers, the gain of the
  -- microphone over two of them, its power and its input, the automatic level control, the line output, the volumes, the
  -- monitor loop and the output gain, of which the register has two bits.
  pub record Holds (s : Settings) (g : Gain) (t : State) : Type 0 where
    pub alc1 : audio_ic_read t 0x2700 ≡ g.alc1
    pub sig1 : audio_ic_read t 0x2200 ≡ g.sig1
    pub sig2 : audio_ic_read t 0x2300 ≡ g.sig2
    pub mgain : g.sig1 % 2 + g.sig2 / 32 % 2 * 2 + g.sig1 / 2 % 2 * 4 ≡ s.mgain
    pub mic_power : g.sig1 / 4 ≡ 4 + (if s.mic_power == 0 then 0 else 1)
    pub alc_enable : g.alc1 ≡ (if s.alc_enable == 0 then 0 else 32)
    pub lovl : g.sig2 % 32 ≡ 4 + s.lovl
    pub dgain_l : audio_ic_read t 0x2900 ≡ 145 + s.dgain_l * 8 / 3
    pub dgain_r : audio_ic_read t 0x2C00 ≡ 145 + s.dgain_r * 8 / 3
    pub mic_in : audio_ic_read t 0x3000 ≡ (if s.mic_in == 0 then 7 else 0)
    pub loopback : audio_ic_read t 0x2E00 / 64 % 2 ≡ s.loopback
    pub o2gain : audio_ic_read t 0x2E00 / 4 % 4 ≡ s.o2gain % 4

  -- A forced configuration with valid settings leaves in the codec what `Holds` lists.
  pub configured-Holds :
      (s : Settings) (gain : Gain) (c : State)
      → IsValid s
      → let (g, t) = audio_configure ic true s gain c in Holds s g t
  unfolding audio_configure
  configured-Holds s gain c v =
      let c1 = writes ic c (reset_cmds ic s) in
      let c2 = (audio_ic_set_mgain ic s.mgain c1).1 in
      let (from_sig1, from_sig2, sig1_lem, sig2_lem) = set_mgain_lem ic s.mgain c1 in
      let (sig1_reset, sig2_reset, alc1_reset, ivr_reset, ivl_reset, pm3_reset) =
        reset_lem ic s c in
      let ends = λ (reg : ℕ) (h : reg ≤ 0x30) (k : reg ≢ 0x2E).
        filter_and_loop_lem ic s c2 reg v.loopback_max h k in
      let (loop, gain2) = filter_and_loop_mode3 ic s c2 v.loopback_max in
      let keeps = set_mgain_keeps ic s.mgain c1 in
      let sig1 = sig1_lem ∙ ap (mgain_sig1 (s.mgain % 8)) sig1_reset in
      let sig2 = sig2_lem ∙ ap (mgain_sig2 (s.mgain % 8)) sig2_reset in
      record {
        alc1 =
            ends 0x27 (omega arith) (ground arith)
            ∙ keeps 0x27 (ground arith) (ground arith)
            ∙ alc1_reset;
        sig1 = ends 0x22 (omega arith) (ground arith) ∙ from_sig1;
        sig2 = ends 0x23 (omega arith) (ground arith) ∙ from_sig2;
        mgain = rw (sig1, sig2) (mgain_back s.mgain s.mic_power s.lovl v.mgain_max);
        mic_power = rw sig1 (mic_power_back s.mgain s.mic_power);
        alc_enable = refl;
        lovl = rw sig2 (omega (arith, v.lovl_max));
        dgain_l =
            ends 0x29 (omega arith) (ground arith)
            ∙ keeps 0x29 (ground arith) (ground arith)
            ∙ ivl_reset
            ∙ omega (arith, v.dgain_l_max);
        dgain_r =
            ends 0x2C (omega arith) (ground arith)
            ∙ keeps 0x2C (ground arith) (ground arith)
            ∙ ivr_reset
            ∙ omega (arith, v.dgain_r_max);
        mic_in =
            ends 0x30 (omega arith) (ground arith)
            ∙ keeps 0x30 (ground arith) (ground arith)
            ∙ pm3_reset;
        loopback = loop;
        o2gain = gain2;
      }

  is_in_sync_lem :
      (g : Gain) (t : State)
      → audio_ic_read t 0x2700 ≡ g.alc1
      → audio_ic_read t 0x2200 ≡ g.sig1
      → audio_ic_read t 0x2300 ≡ g.sig2
      → is_in_sync ic g t ≡ true
  is_in_sync_lem g t a b c = ground (arith, a, b, c)

  nothing_to_do :
      (s : Settings) (g : Gain) (t : State)
      → is_in_sync ic g t ≡ true
      → audio_configure ic false s g t ≡ (g, t)
  unfolding audio_configure
  nothing_to_do s g t h = rw h refl

  same_as_forced :
      (s : Settings) (g : Gain) (t : State)
      → is_in_sync ic g t ≡ false
      → audio_configure ic false s g t ≡ audio_configure ic true s g t
  unfolding audio_configure
  same_as_forced s g t h = rw h refl

  abbrev InSync : Gain × State → Type 0
  InSync r = is_in_sync ic r.0 r.1 ≡ true

  forced-InSync :
      (s : Settings) (gain : Gain) (c : State)
      → IsValid s
      → InSync (audio_configure ic true s gain c)
  forced-InSync s gain c v =
      let holds = configured-Holds s gain c v in is_in_sync_lem _ _ holds.alc1 holds.sig1 holds.sig2

  configured-InSync :
      (force : Bool) (s : Settings) (gain : Gain) (c : State)
      → IsValid s
      → InSync (audio_configure ic force s gain c)
  configured-InSync true s gain c v = forced-InSync s gain c v
  configured-InSync false s gain c v = elim (Bool-cases (is_in_sync ic gain c)) [
    | inl e ↦ subst InSync (sym (nothing_to_do s gain c e)) e
    | inr e ↦ subst InSync (sym (same_as_forced s gain c e)) (forced-InSync s gain c v)
  ]

  -- However it is called, with valid settings, the configuration leaves the three registers that it remembers in
  -- the codec, and then a call that is not forced does nothing, whatever the settings are by then.
  configured-stays :
      (force : Bool) (s s' : Settings) (gain : Gain) (c : State)
      → IsValid s
      → let (g, t) = audio_configure ic force s gain c in
        (audio_ic_read t 0x2700 ≡ g.alc1)
        × (audio_ic_read t 0x2200 ≡ g.sig1)
        × (audio_ic_read t 0x2300 ≡ g.sig2)
        × (audio_configure ic false s' g t ≡ (g, t))
  configured-stays force s s' gain c v =
      let (g, t) = audio_configure ic force s gain c in
      let sync = configured-InSync force s gain c v in
      let (a, b, d) = in_sync_parts g t sync in (a, b, d, nothing_to_do s' g t sync)
    where
      in_sync_parts :
          (g : Gain) (t : State)
          → is_in_sync ic g t ≡ true
          → (audio_ic_read t 0x2700 ≡ g.alc1)
            × (audio_ic_read t 0x2200 ≡ g.sig1)
            × (audio_ic_read t 0x2300 ≡ g.sig2)
      in_sync_parts g t h = ground (arith, h)
