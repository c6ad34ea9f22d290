-- ===== src/Audio/Codec/Registers.antt =====
-- What the parts of `audio_configure` leave in the registers.
use magic_lantern.Common.{
  ℕ, ◌+◌, ◌*◌, ◌/◌, ◌%◌, ◌≤◌, ◌<◌, ◌≡◌, ◌≢◌, refl, sym, ap, ◌∙◌, true, false, List, [], ◌∷◌, ◌++◌,
  arith, ◌==◌, if◌then◌else◌,
}
use magic_lantern.Common.Text.{All}
use magic_lantern.Audio.Codec.{
  Codec, Settings, audio_gain_to_cmd, mgain_sig1, mgain_sig2, fil1_value, mode3_value, writes,
  audio_ic_set_mgain, reset_cmds, filter_and_loop,
}

mode3_bits :
    (old loopback o2gain : ℕ)
    → loopback ≤ 1
    → (mode3_value old loopback o2gain / 64 % 2 ≡ loopback)
      × (mode3_value old loopback o2gain / 4 % 4 ≡ o2gain % 4)
mode3_bits old loopback o2gain h = (omega (arith, h), omega (arith, h))

module _ (ic : Codec) where
  open ic use {State, audio_ic_read, audio_ic_write, read-write, read-lt}

  written :
      (c : State) (cmd reg : ℕ)
      → cmd / 256 ≡ reg
      → audio_ic_read (audio_ic_write c cmd) (reg * 256) ≡ cmd % 256
  written c cmd reg h =
      let same : (cmd / 256 == reg) ≡ true = ground (arith, h) in
      read-write c cmd reg ∙ rw same refl

  kept :
      (c : State) (cmd reg : ℕ)
      → cmd / 256 ≢ reg
      → audio_ic_read (audio_ic_write c cmd) (reg * 256) ≡ audio_ic_read c (reg * 256)
  kept c cmd reg h =
      let other : (cmd / 256 == reg) ≡ false = ground (arith, h) in
      read-write c cmd reg ∙ rw other refl

  writes_elsewhere :
      (cmds : List ℕ) (c : State) (reg : ℕ)
      → All (λ cmd. cmd / 256 ≢ reg) cmds
      → audio_ic_read (writes ic c cmds) (reg * 256) ≡ audio_ic_read c (reg * 256)
  writes_elsewhere [] c reg h = refl
  writes_elsewhere (cmd ∷ cmds) c reg h =
      writes_elsewhere cmds (audio_ic_write c cmd) reg h.1 ∙ kept c cmd reg h.0

  last_write :
      (before : List ℕ) (cmd : ℕ) (later : List ℕ) (c : State) (reg : ℕ)
      → cmd / 256 ≡ reg
      → All (λ other. other / 256 ≢ reg) later
      → audio_ic_read (writes ic c (before ++ (cmd ∷ later))) (reg * 256) ≡ cmd % 256
  last_write [] cmd later c reg h o =
      writes_elsewhere later (audio_ic_write c cmd) reg o ∙ written c cmd reg h
  last_write (b ∷ before) cmd later c reg h o =
      last_write before cmd later (audio_ic_write c b) reg h o

  -- The end of `audio_configure` leaves the lower registers alone, but for MODE3.
  pub filter_and_loop_lem :
      (s : Settings) (c : State) (reg : ℕ)
      → s.loopback ≤ 1
      → reg ≤ 0x30
      → reg ≢ 0x2E
      → audio_ic_read (filter_and_loop ic s c) (reg * 256) ≡ audio_ic_read c (reg * 256)
  filter_and_loop_lem s c reg v h other =
      let cmds = (0x6C00 + 0xD4) ∷ (0x6D00 + 0x0E) ∷ (0x6E00 + 0xA9) ∷ (0x6F00 + 0x3D) ∷ [] in
      let c3 = writes ic c cmds in
      let c4 = audio_ic_write c3 (0x3100 + fil1_value (audio_ic_read c3 0x3100)) in
      kept c4 _ reg (λ e. other (sym e ∙ omega (arith, v, read-lt c4 0x2E00)))
      ∙ kept c3 _ reg (λ e. absurd (omega (arith, e, h, read-lt c3 0x3100)))
      ∙ writes_elsewhere cmds c reg (
        (λ e. absurd (omega (arith, e, h))),
        (
          (λ e. absurd (omega (arith, e, h))),
          ((λ e. absurd (omega (arith, e, h))), ((λ e. absurd (omega (arith, e, h))), tt)),
        ),
      )

  -- In MODE3 it leaves the monitor loop and the output gain.
  pub filter_and_loop_mode3 :
      (s : Settings) (c : State)
      → s.loopback ≤ 1
      → let mode3 = audio_ic_read (filter_and_loop ic s c) 0x2E00 in
        (mode3 / 64 % 2 ≡ s.loopback) × (mode3 / 4 % 4 ≡ s.o2gain % 4)
  filter_and_loop_mode3 s c v =
      let c3 =
        writes ic c ((0x6C00 + 0xD4) ∷ (0x6D00 + 0x0E) ∷ (0x6E00 + 0xA9) ∷ (0x6F00 + 0x3D) ∷ []) in
      let c4 = audio_ic_write c3 (0x3100 + fil1_value (audio_ic_read c3 0x3100)) in
      let old = audio_ic_read c4 0x2E00 in
      let new = mode3_value old s.loopback s.o2gain in
      let small : new < 256 = omega (arith, v, read-lt c4 0x2E00) in
      let is : audio_ic_read (filter_and_loop ic s c) 0x2E00 ≡ new =
        written c4 (0x2E00 + new) 0x2E (omega (arith, small)) ∙ omega (arith, small) in
      let (loop, gain) = mode3_bits old s.loopback s.o2gain v in (rw is loop, rw is gain)

  pub set_mgain_lem :
      (bits : ℕ) (c : State)
      → let (sigs, t) = audio_ic_set_mgain ic bits c in
        (audio_ic_read t 0x2200 ≡ sigs.0)
        × (audio_ic_read t 0x2300 ≡ sigs.1)
        × (sigs.0 ≡ mgain_sig1 (bits % 8) (audio_ic_read c 0x2200))
        × (sigs.1 ≡ mgain_sig2 (bits % 8) (audio_ic_read c 0x2300))
  unfolding audio_ic_set_mgain
  set_mgain_lem bits c =
      let sig1 = mgain_sig1 (bits % 8) (audio_ic_read c 0x2200) in
      let c' = audio_ic_write c (0x2200 + sig1) in
      let same : audio_ic_read c' 0x2300 ≡ audio_ic_read c 0x2300 =
        kept c (0x2200 + sig1) 0x23 (λ e. absurd (omega (arith, e, read-lt c 0x2200))) in
      let sig2 = mgain_sig2 (bits % 8) (audio_ic_read c' 0x2300) in
      (
        kept c' (0x2300 + sig2) 0x22 (λ e. absurd (omega (arith, e, read-lt c' 0x2300)))
            ∙ written c (0x2200 + sig1) 0x22 (omega (arith, read-lt c 0x2200))
            ∙ omega (arith, read-lt c 0x2200),
        written c' (0x2300 + sig2) 0x23 (omega (arith, read-lt c' 0x2300))
            ∙ omega (arith, read-lt c' 0x2300),
        refl,
        ap (mgain_sig2 (bits % 8)) same,
      )

  pub set_mgain_keeps :
      (bits : ℕ) (c : State) (reg : ℕ)
      → reg ≢ 0x22
      → reg ≢ 0x23
      → audio_ic_read (audio_ic_set_mgain ic bits c).1 (reg * 256) ≡ audio_ic_read c (reg * 256)
  unfolding audio_ic_set_mgain
  set_mgain_keeps bits c reg h k =
      let sig1 = mgain_sig1 (bits % 8) (audio_ic_read c 0x2200) in
      let c' = audio_ic_write c (0x2200 + sig1) in
      kept c' _ reg (λ e. k (sym e ∙ omega (arith, read-lt c' 0x2300)))
      ∙ kept c _ reg (λ e. h (sym e ∙ omega (arith, read-lt c 0x2200)))

  -- What the first commands leave in the six registers.
  pub reset_lem :
      (s : Settings) (c : State)
      → let t = writes ic c (reset_cmds ic s) in
        (audio_ic_read t 0x2200 ≡ 0x10 + (if s.mic_power == 0 then 0 else 4))
        × (audio_ic_read t 0x2300 ≡ 0x04 + s.lovl % 4)
        × (audio_ic_read t 0x2700 ≡ (if s.alc_enable == 0 then 0 else 32))
        × (audio_ic_read t 0x2C00 ≡ audio_gain_to_cmd s.dgain_r)
        × (audio_ic_read t 0x2900 ≡ audio_gain_to_cmd s.dgain_l)
        × (audio_ic_read t 0x3000 ≡ (if s.mic_in == 0 then 7 else 0))
  reset_lem s c = (
    last_write ((0x2000 + 0x6D) ∷ []) _
          ((0x2300 + (0x04 + s.lovl % 4))
            ∷ (0x3000 + (if s.mic_in == 0 then 7 else 0))
            ∷ (0x2700 + (if s.alc_enable == 0 then 0 else 32))
            ∷ 0x2F00
            ∷ (0x2C00 + audio_gain_to_cmd s.dgain_r)
            ∷ (0x2900 + audio_gain_to_cmd s.dgain_l)
            ∷ [])
          c 0x22 (ground arith)
          ((
            (λ e. absurd (ground (arith, e))),
            (
              (λ e. absurd (ground (arith, e))),
              (
                (λ e. absurd (ground (arith, e))),
                (
                  (λ e. absurd (ground (arith, e))),
                  ((λ e. absurd (ground (arith, e))), ((λ e. absurd (ground (arith, e))), tt)),
                ),
              ),
            ),
          ))
        ∙ ground arith,
    last_write ((0x2000 + 0x6D) ∷ (0x2200 + (0x10 + (if s.mic_power == 0 then 0 else 4))) ∷ []) _
          ((0x3000 + (if s.mic_in == 0 then 7 else 0))
            ∷ (0x2700 + (if s.alc_enable == 0 then 0 else 32))
            ∷ 0x2F00
            ∷ (0x2C00 + audio_gain_to_cmd s.dgain_r)
            ∷ (0x2900 + audio_gain_to_cmd s.dgain_l)
            ∷ [])
          c 0x23 (ground arith)
          ((
            (λ e. absurd (ground (arith, e))),
            (
              (λ e. absurd (ground (arith, e))),
              (
                (λ e. absurd (ground (arith, e))),
                ((λ e. absurd (ground (arith, e))), ((λ e. absurd (ground (arith, e))), tt)),
              ),
            ),
          ))
        ∙ ground arith,
    last_write
          ((0x2000 + 0x6D)
            ∷ (0x2200 + (0x10 + (if s.mic_power == 0 then 0 else 4)))
            ∷ (0x2300 + (0x04 + s.lovl % 4))
            ∷ (0x3000 + (if s.mic_in == 0 then 7 else 0))
            ∷ [])
          _
          (0x2F00
            ∷ (0x2C00 + audio_gain_to_cmd s.dgain_r)
            ∷ (0x2900 + audio_gain_to_cmd s.dgain_l)
            ∷ [])
          c 0x27 (ground arith)
          ((
            (λ e. absurd (ground (arith, e))),
            ((λ e. absurd (ground (arith, e))), ((λ e. absurd (ground (arith, e))), tt)),
          ))
        ∙ ground arith,
    last_write
          ((0x2000 + 0x6D)
            ∷ (0x2200 + (0x10 + (if s.mic_power == 0 then 0 else 4)))
            ∷ (0x2300 + (0x04 + s.lovl % 4))
            ∷ (0x3000 + (if s.mic_in == 0 then 7 else 0))
            ∷ (0x2700 + (if s.alc_enable == 0 then 0 else 32))
            ∷ 0x2F00
            ∷ [])
          _ ((0x2900 + audio_gain_to_cmd s.dgain_l) ∷ []) c 0x2C (ground arith)
          (((λ e. absurd (ground (arith, e))), tt))
        ∙ ground arith,
    last_write
          ((0x2000 + 0x6D)
            ∷ (0x2200 + (0x10 + (if s.mic_power == 0 then 0 else 4)))
            ∷ (0x2300 + (0x04 + s.lovl % 4))
            ∷ (0x3000 + (if s.mic_in == 0 then 7 else 0))
            ∷ (0x2700 + (if s.alc_enable == 0 then 0 else 32))
            ∷ 0x2F00
            ∷ (0x2C00 + audio_gain_to_cmd s.dgain_r)
            ∷ [])
          _ ([]) c 0x29 (ground arith) (tt)
        ∙ ground arith,
    last_write
          ((0x2000 + 0x6D)
            ∷ (0x2200 + (0x10 + (if s.mic_power == 0 then 0 else 4)))
            ∷ (0x2300 + (0x04 + s.lovl % 4))
            ∷ [])
          _
          ((0x2700 + (if s.alc_enable == 0 then 0 else 32))
            ∷ 0x2F00
            ∷ (0x2C00 + audio_gain_to_cmd s.dgain_r)
            ∷ (0x2900 + audio_gain_to_cmd s.dgain_l)
            ∷ [])
          c 0x30 (ground arith)
          ((
            (λ e. absurd (ground (arith, e))),
            (
              (λ e. absurd (ground (arith, e))),
              ((λ e. absurd (ground (arith, e))), ((λ e. absurd (ground (arith, e))), tt)),
            ),
          ))
        ∙ ground arith,
  )
