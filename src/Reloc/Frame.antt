-- ===== src/Reloc/Frame.antt =====
-- Where the copy of a function writes.
use magic_lantern.Common.{
  ℕ, zero, suc, ◌+◌, ◌-◌, ◌*◌, ◌/◌, ◌%◌, ◌^◌, ◌≤◌, ◌<◌, ◌≡◌, ◌≢◌, refl, ap, ◌∙◌, true, false, ltb,
  Bool-cases, inl, inr, Option, none, some, arith, ◌==◌, ◌⊎◌,
}
use mathlib.Core.Option
use magic_lantern.Common.Word.{u32}
use magic_lantern.Reloc.{
  Function, Copy, store, is_branch, is_add, is_load, is_inside, load_dest, fix_load, fix_branch,
  reloc_one, reloc_loop, reloc,
}

-- A round writes at `new_pc` and at `fixups` only, and takes one word of the fixups at most.
record Round (s t : Copy) (new_pc : ℕ) : Type 0 where
  kept : (a : ℕ) → a ≢ new_pc → a ≢ s.fixups → t.memory a ≡ s.memory a
  more : s.fixups + 4 < 2 ^ 32 → s.fixups ≤ t.fixups
  fewer : t.fixups ≤ s.fixups + 4

copying : (new_pc v : ℕ) (s : Copy) → Round s (record s { memory = store s.memory new_pc v }) new_pc
copying new_pc v s = record {
  kept = λ a apart other. ground (arith, apart);
  more = λ small. omega (arith, small);
  fewer = omega arith;
}

branching :
    (new_pc v w : ℕ) (s : Copy)
    → Round s (record s { memory = store (store s.memory new_pc v) new_pc w }) new_pc
branching new_pc v w s = record {
  kept = λ a apart other. ground (arith, apart);
  more = λ small. omega (arith, small);
  fewer = omega arith;
}

loading :
    (new_pc v w datum : ℕ) (s : Copy)
    → Round s
        (record {
          memory = store (store (store s.memory new_pc v) s.fixups datum) new_pc w;
          fixups = u32 (s.fixups + 4);
        })
        new_pc
loading new_pc v w datum s = record {
  kept = λ a apart other. ground (arith, apart, other);
  more = λ small. omega (arith, small);
  fewer = omega arith;
}

reloc_one-Round :
    (f : Function) (pc new_pc : ℕ) (s : Copy) → Round s (reloc_one f pc new_pc s) new_pc
unfolding reloc_one
reloc_one-Round f pc new_pc s =
    let instr = s.memory (u32 (f.mem + pc)) in
    let copied = copying new_pc instr s in
    elim (Bool-cases (is_branch instr)) [
      | inl b ↦ rw b (branch (fix_branch f pc new_pc instr) instr)
      | inr b ↦ elim (Bool-cases (is_add instr)) [
        | inl c ↦ rw (b, c) copied
        | inr c ↦ elim (Bool-cases (is_load instr)) [
          | inr d ↦ rw (b, c, d) copied
          | inl d ↦ elim (Bool-cases (instr / 2 ^ 16 % 16 == 15)) [
            | inr e ↦ rw (b, c, d, e) copied
            | inl e ↦ elim (Bool-cases (is_inside f (load_dest pc instr))) [
              | inl i ↦ rw (b, c, d, e, i) copied
              | inr i ↦
                  rw (b, c, d, e, i) (loading new_pc instr (fix_load s.fixups new_pc instr) _ s)
            ]
          ]
        ]
      ]
    ]
  where
    branch :
        (o : Option ℕ) (v : ℕ)
        → Round s
            (elim o [
              | none ↦ record s { memory = store s.memory new_pc v }
              | some w ↦ record s { memory = store (store s.memory new_pc v) new_pc w }
            ])
            new_pc
    branch none v = copying new_pc v s
    branch (some w) v = branching new_pc v w s

reloc_loop_round :
    (n : ℕ) (f : Function) (pc new_pc : ℕ) (s : Copy)
    → ltb f.func_end pc ≡ false
    → u32 (pc + 4) ≡ pc + 4
    → u32 (new_pc + 4) ≡ new_pc + 4
    → reloc_loop (suc n) f pc new_pc s
      ≡ reloc_loop n f (pc + 4) (new_pc + 4) (reloc_one f pc new_pc s)
unfolding reloc_loop
reloc_loop_round n f pc new_pc s test next new_next =
    rw test (ap_2 (λ x y. reloc_loop n f x y (reloc_one f pc new_pc s)) next new_next)
  where
    ap_2 : {A : Type 0} (g : ℕ → ℕ → A) {a b c d : ℕ} → a ≡ b → c ≡ d → g a c ≡ g b d
    ap_2 g {b = b} {c = c} p q = ap (λ z. g z c) p ∙ ap (g b) q

-- The copy begins 16 bytes after `new_pc`.
reloc_entry :
    (f : Function) (new_pc : ℕ) (memory : ℕ → ℕ)
    → new_pc + 16 < 2 ^ 32
    → reloc f new_pc memory
      ≡ Option.map
          (λ t. (t.memory, new_pc + 16))
          (reloc_loop
            (suc ((f.func_end + 4 - f.func_offset) / 4))
            f
            f.func_offset
            (new_pc + 16)
            (record { memory = memory; fixups = new_pc }))
unfolding reloc
reloc_entry f new_pc memory low =
    let entry : u32 (new_pc + 16) ≡ new_pc + 16 = omega (arith, low) in
    ap
      (λ e.
        Option.map (λ t. (t.memory, e))
          (reloc_loop (rounds + 1) f f.func_offset e (record { memory = memory; fixups = new_pc })))
      entry
    ∙ ap
        (λ n.
          Option.map (λ t. (t.memory, new_pc + 16))
            (reloc_loop n f f.func_offset (new_pc + 16)
              (record { memory = memory; fixups = new_pc })))
        (omega arith)
  where
    rounds : ℕ
    rounds = (f.func_end + 4 - f.func_offset) / 4

-- Rounds that start with the fixups at least 16 bytes below `new_pc`, all below 2^32: with fuel for them the loop ends, and
-- they write nothing below the fixups, and nothing from the end of the copy on.
reloc_loop-keeps :
    (n : ℕ) (f : Function) (pc new_pc : ℕ) (s : Copy)
    → f.func_end + 4 < pc + 4 * suc n
    → f.func_end + 4 < 2 ^ 32
    → s.fixups + 16 ≤ new_pc
    → new_pc + (f.func_end + 4 - pc) < 2 ^ 32
    → new_pc < 2 ^ 32
    → (t : Copy) × (reloc_loop (suc n) f pc new_pc s ≡ some t)
      × ((a : ℕ) → (a < s.fixups) ⊎ (new_pc + (f.func_end + 4 - pc) ≤ a) → t.memory a ≡ s.memory a)
unfolding reloc_loop
reloc_loop-keeps zero f pc new_pc s fuel end h room low =
    let done : ltb f.func_end pc ≡ true = ground (arith, fuel) in (s, rw done refl, λ a o. refl)
reloc_loop-keeps (suc n) f pc new_pc s fuel end h room low = elim (Bool-cases (ltb f.func_end pc)) [
  | inl e ↦ (s, rw e refl, λ a o. refl)
  | inr e ↦
      let inside : pc ≤ f.func_end = ground (arith, e) in
      let r = reloc_one-Round f pc new_pc s in
      let next : u32 (pc + 4) ≡ pc + 4 = omega (arith, inside, end) in
      let new_next : u32 (new_pc + 4) ≡ new_pc + 4 = omega (arith, inside, room) in
      let more = r.more (omega (arith, h, low)) in
      let (t, eq, kept) =
        reloc_loop-keeps n f (pc + 4) (new_pc + 4) (reloc_one f pc new_pc s) (omega (arith, fuel))
          end (omega (arith, h, r.fewer)) (omega (arith, inside, room))
          (omega (arith, inside, room)) in
      (
        t,
        reloc_loop_round (suc n) f pc new_pc s e next new_next ∙ eq,
        λ a o.
            let (pc_apart, fix_apart) = apart a inside o in
            kept a (outside a more inside o) ∙ r.kept a pc_apart fix_apart,
      )
]
  where
    outside :
        (a : ℕ) {y : ℕ}
        → s.fixups ≤ y
        → pc ≤ f.func_end
        → (a < s.fixups) ⊎ (new_pc + (f.func_end + 4 - pc) ≤ a)
        → (a < y) ⊎ (new_pc + 4 + (f.func_end + 4 - (pc + 4)) ≤ a)
    outside a m i (inl l) = inl (omega (arith, m, l))
    outside a m i (inr l) = inr (omega (arith, i, l))

    apart :
        (a : ℕ)
        → pc ≤ f.func_end
        → (a < s.fixups) ⊎ (new_pc + (f.func_end + 4 - pc) ≤ a)
        → (a ≢ new_pc) × (a ≢ s.fixups)
    apart a i (inl l) = (ground (arith, h, l), ground (arith, l))
    apart a i (inr l) = (ground (arith, i, l), ground (arith, i, h, l))

-- For a function whose end is not before its start, and addresses that stay below 2^32, the loop ends, and the copy writes
-- nothing outside of the words from `new_pc` on: 16 bytes, and one word for each instruction from the first to the one
-- at `func_end`.
pub reloc-keeps :
    (f : Function) (new_pc : ℕ) (memory : ℕ → ℕ)
    → f.func_offset ≤ f.func_end
    → f.func_end + 4 < 2 ^ 32
    → new_pc + 16 + (f.func_end + 4 - f.func_offset) < 2 ^ 32
    → (copied : ℕ → ℕ) × (reloc f new_pc memory ≡ some (copied, new_pc + 16))
      × ((a : ℕ)
          → (a < new_pc) ⊎ (new_pc + 16 + (f.func_end + 4 - f.func_offset) ≤ a)
          → copied a ≡ memory a)
reloc-keeps f new_pc memory h end room =
    let rounds = (f.func_end + 4 - f.func_offset) / 4 in
    let (t, eq, kept) =
      reloc_loop-keeps rounds f f.func_offset (new_pc + 16)
        (record { memory = memory; fixups = new_pc }) (omega (arith, h)) end (omega arith) room
        (omega (arith, room)) in
    (
      t.memory,
      reloc_entry f new_pc memory (omega (arith, room))
          ∙ ap (Option.map (λ t. (t.memory, new_pc + 16))) eq,
      kept,
    )
