-- ===== src/Mir/ConstFold/Overflow.antt =====
-- crates/rlyeh-mir/src/passes/const_fold.rs folds integers at 128 bits; the instructions that
-- `binary_instr` of crates/rlyeh-codegen/src/llvm_util.rs picks for the same operators work at 64.
use rlyeh_language.Common.{ℕ, ◌+◌, ◌%◌, ◌^◌, ◌≤◌, ◌<◌, ◌≡◌, ◌∙◌, Bool, true, false, ltb, arith}
use rlyeh_language.Mir.{HirBinaryOp, MirValue}
use rlyeh_language.Mir.Int128.{wrapping_add, less}
use rlyeh_language.Mir.ConstFold.{fold_value, fold_binary, fold_int}

-- LLVM's `add i64`, on patterns below 2 ^ 64.
abbrev pub AddWraps : (ℕ → ℕ → ℕ) → Type 0
AddWraps add = (a b : ℕ) → add a b ≡ (a + b) % 2 ^ 64

-- LLVM's `icmp slt i64`: patterns from 2 ^ 63 on are negative.
abbrev pub SltIsSigned : (ℕ → ℕ → Bool) → Type 0
SltIsSigned slt = (a b : ℕ) → slt a b ≡ ltb ((a + 2 ^ 63) % 2 ^ 64) ((b + 2 ^ 63) % 2 ^ 64)

-- For literals `a`, `b` and `c` below 2 ^ 63 with a sum `a + b` that is not, the pass folds
-- `c < a + b` to true, while LLVM's signed 64-bit instructions, if they are as documented, give
-- false: folding changes the program.
pub fold_value-overflow :
    (add : ℕ → ℕ → ℕ) (slt : ℕ → ℕ → Bool) (a b c : ℕ)
    → AddWraps add
    → SltIsSigned slt
    → a < 2 ^ 63
    → b < 2 ^ 63
    → c < 2 ^ 63
    → 2 ^ 63 ≤ a + b
    → (fold_value (
          MirValue.binary HirBinaryOp.lt
            (MirValue.int c)
            (MirValue.binary HirBinaryOp.add (MirValue.int a) (MirValue.int b)))
        ≡ MirValue.bool true)
      × (slt c (add a b) ≡ false)
unfolding fold_value fold_binary fold_int wrapping_add less
fold_value-overflow add slt a b c wraps signed ha hb hc over =
    let sum : (a + b) % 2 ^ 128 ≡ a + b = omega arith in
    let folded : ltb ((c + 2 ^ 127) % 2 ^ 128) (((a + b) % 2 ^ 128 + 2 ^ 127) % 2 ^ 128) ≡ true =
      ground arith in
    (ground (arith, folded), signed c (add a b) ∙ ground (arith, wraps a b))
