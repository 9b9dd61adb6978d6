-- ===== src/Mir/Int128.antt =====
-- The `i128` operations that crates/rlyeh-mir/src/passes/const_fold.rs calls, on two's complement
-- patterns below 2 ^ 128.
use rlyeh_language.Common.{ℕ, ◌+◌, ◌-◌, ◌*◌, ◌/◌, ◌%◌, ◌^◌, Bool, ltb, leb, if◌then◌else◌}

abbrev pub modulus : ℕ
modulus = 2 ^ 128

abbrev pub half : ℕ
half = 2 ^ 127

unfoldable pub is_negative : ℕ → Bool
is_negative a = leb half a

unfoldable pub wrapping_neg : ℕ → ℕ
wrapping_neg a = (modulus - a) % modulus

-- The absolute value, which for the least number is 2 ^ 127.
unfoldable pub unsigned_abs : ℕ → ℕ
unfolding is_negative
unsigned_abs a = if is_negative a then modulus - a else a

unfoldable pub wrapping_add : ℕ → ℕ → ℕ
wrapping_add a b = (a + b) % modulus

unfoldable pub wrapping_sub : ℕ → ℕ → ℕ
wrapping_sub a b = (a + modulus - b) % modulus

unfoldable pub wrapping_mul : ℕ → ℕ → ℕ
wrapping_mul a b = (a * b) % modulus

-- Division towards zero.
unfoldable pub wrapping_div : ℕ → ℕ → ℕ
unfolding is_negative unsigned_abs wrapping_neg
wrapping_div a b =
    let q = unsigned_abs a / unsigned_abs b in
    if is_negative a
    then (if is_negative b then q else wrapping_neg q)
    else (if is_negative b then wrapping_neg q else q)

-- The remainder has the sign of the dividend.
unfoldable pub wrapping_rem : ℕ → ℕ → ℕ
unfolding is_negative unsigned_abs wrapping_neg
wrapping_rem a b =
    let r = unsigned_abs a % unsigned_abs b in if is_negative a then wrapping_neg r else r

-- The order of the numbers that the patterns stand for.
unfoldable pub less : ℕ → ℕ → Bool
less a b = ltb ((a + half) % modulus) ((b + half) % modulus)

-- `b as u32`, and the mask by the width that wrapping_shl and wrapping_shr apply.
unfoldable pub shift_amount : ℕ → ℕ
shift_amount b = b % 2 ^ 32 % 128

unfoldable pub wrapping_shl : ℕ → ℕ → ℕ
unfolding shift_amount
wrapping_shl a b = (a * 2 ^ shift_amount b) % modulus

-- The arithmetic shift rounds down.
unfoldable pub wrapping_shr : ℕ → ℕ → ℕ
unfolding is_negative shift_amount
wrapping_shr a b =
    let p = 2 ^ shift_amount b in
    if is_negative a then modulus - (modulus - a + p - 1) / p else a / p
