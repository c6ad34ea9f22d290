-- ===== src/Reloc/Branch.antt =====
-- A branch reaches the same place from its new place.
use mathlib.Core.Bool.{true≢false}
use mathlib.Core.Option.{none-ne-some, some_inj}
use magic_lantern.Common.{
  ℕ, ◌+◌, ◌*◌, ◌/◌, ◌%◌, ◌^◌, ◌<◌, ◌≡◌, refl, sym, ap, ◌∙◌, ◌||◌, Bool, true, false, Bool-cases,
  inl, inr, some, arith,
}
use magic_lantern.Common.Int.{pos, negsuc, leb_ℤ}
use magic_lantern.Common.Word.{of_int}
use magic_lantern.Reloc.{Function, is_inside, branch_dest, new_jump, fix_branch}

-- The 24 bits of a jump that is not too far give its destination back.
branch_dest-jump :
    (dest new_pc high : ℕ)
    → dest < 2 ^ 32
    → new_pc < 2 ^ 32
    → dest % 4 ≡ 0
    → new_pc % 4 ≡ 0
    → leb_ℤ (pos 0x00800000) (new_jump dest new_pc) ≡ false
    → leb_ℤ (new_jump dest new_pc) (negsuc 0x007FFFFF) ≡ false
    → branch_dest new_pc (high * 2 ^ 24 + of_int (new_jump dest new_pc) % 2 ^ 24) ≡ dest
branch_dest-jump dest new_pc high d n da na far back = ground (arith, far, back)

-- A branch out of the function that is fixed reaches from its new place what it reached from the old one, and
-- keeps its upper 8 bits. It is fixed if the way is shorter than 2 ^ 23 words.
pub fix_branch-branch_dest :
    (f : Function) (pc new_pc instr new_instr : ℕ)
    → pc % 4 ≡ 0
    → new_pc % 4 ≡ 0
    → new_pc < 2 ^ 32
    → fix_branch f pc new_pc instr ≡ some new_instr
    → (branch_dest new_pc new_instr ≡ branch_dest pc instr) × (new_instr / 2 ^ 24 ≡ instr / 2 ^ 24)
unfolding fix_branch
fix_branch-branch_dest f pc new_pc instr new_instr a na n h =
    let dest = branch_dest pc instr in
    let jump = new_jump dest new_pc in
    elim (Bool-cases (is_inside f dest)) [
      | inl e ↦ absurd (none-ne-some new_instr (rw e at h))
      | inr e ↦ elim (Bool-cases (leb_ℤ (pos 0x00800000) jump || leb_ℤ jump (negsuc 0x007FFFFF))) [
        | inl k ↦ absurd (none-ne-some new_instr (rw (e, k) at h))
        | inr k ↦
            let made : instr / 2 ^ 24 * 2 ^ 24 + of_int jump % 2 ^ 24 ≡ new_instr =
              some_inj.0 (rw (e, k) at h) in
            let (far, back) = or_false _ _ k in
            let aligned : dest % 4 ≡ 0 = omega (arith, a) in
            let same =
              branch_dest-jump dest new_pc (instr / 2 ^ 24) (omega arith) n aligned na far back in
            (
              ap (branch_dest new_pc) (sym made) ∙ same,
              ap (λ w. w / 2 ^ 24) (sym made) ∙ upper (instr / 2 ^ 24) (of_int jump),
            )
      ]
    ]
  where
    or_false : (x y : Bool) → (x || y) ≡ false → (x ≡ false) × (y ≡ false)
    or_false true y h = absurd (true≢false h)
    or_false false y h = (refl, h)

    upper : (k w : ℕ) → (k * 2 ^ 24 + w % 2 ^ 24) / 2 ^ 24 ≡ k
    upper k w = omega arith
