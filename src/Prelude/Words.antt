-- ===== src/Prelude/Words.antt =====
-- Machine integers. A word of w bits is a number below 2 ^ w; a signed one is its bit pattern, so
-- that the casts between i64 and u64, and between i32 and u32, change nothing.
use hostinger.Prelude.{
  ℕ, suc, zero, ◌≡◌, ◌<◌, arith, true, ◌==◌, ◌+◌, ◌-◌, ◌/◌, ◌%◌, ◌^◌, String, Bool, false, Option,
  none, some, ltb, leb, str_append, to_string, if◌then◌else◌,
}

abbrev pub i64_negative : ℕ → Bool
i64_negative a = leb (2 ^ 63) a

-- a + b on BIGINT; `none` is the overflow that the database refuses.
abbrev pub i64_add : ℕ → ℕ → Option ℕ
i64_add a b =
    if i64_negative a
    then if i64_negative b
      then if leb (2 ^ 64 + 2 ^ 63) (a + b) then some ((a + b) % 2 ^ 64) else none
      else some ((a + b) % 2 ^ 64)
    else if i64_negative b
    then some ((a + b) % 2 ^ 64)
    else if ltb (a + b) (2 ^ 63)
    then some (a + b)
    else none

-- GREATEST(0, a - b) on BIGINT
abbrev pub i64_greatest_sub : ℕ → ℕ → Option ℕ
i64_greatest_sub a b =
    if i64_negative a
    then if i64_negative b then some (a - b) else if leb (2 ^ 63) (a - b) then some 0 else none
    else if i64_negative b
    then if ltb (a + (2 ^ 64 - b)) (2 ^ 63) then some (a + (2 ^ 64 - b)) else none
    else some (a - b)

-- a + 1 on BIGINT and on INTEGER
abbrev pub i64_succ : ℕ → Option ℕ
i64_succ a = i64_add a 1

abbrev pub i32_succ : ℕ → Option ℕ
i32_succ a = if a == 2 ^ 31 - 1 then none else some ((a + 1) % 2 ^ 32)

-- GREATEST(0, a - 1) on INTEGER
abbrev pub i32_greatest_pred : ℕ → Option ℕ
i32_greatest_pred a = if a == 2 ^ 31 then none else if leb (2 ^ 31) a then some 0 else some (a - 1)

-- The order of BIGINT, as an order of keys.
abbrev pub i64_key : ℕ → ℕ
i64_key a = (a + 2 ^ 63) % 2 ^ 64

-- a + b on u64, as a release build computes it
abbrev pub u64_add : ℕ → ℕ → ℕ
u64_add a b = (a + b) % 2 ^ 64

-- A signed number; `negsuc n` is -(n + 1).
pub data ℤ : Type 0 where
  pos : ℕ → ℤ
  negsuc : ℕ → ℤ

-- `(now - at).whole_seconds()`, rounded towards zero, for clocks in nanoseconds
unfoldable pub whole_seconds : ℕ → ℕ → ℤ
whole_seconds now at =
    if leb at now
    then pos ((now - at) / 1_000_000_000)
    else elim ((at - now) / 1_000_000_000) [ zero ↦ pos 0 | suc n ↦ negsuc n ]

abbrev pub at_least : ℤ → ℕ → Bool
at_least (pos n) m = leb m n
at_least (negsuc n) m = false

-- `n.abs()`
abbrev pub abs : ℤ → ℕ
abs (pos n) = n
abs (negsuc n) = suc n

abbrev pub show_ℤ : ℤ → String
show_ℤ (pos n) = to_string n
show_ℤ (negsuc n) = str_append "-" (to_string (suc n))

-- n < z
abbrev pub below : ℕ → ℤ → Bool
below n (pos m) = ltb n m
below n (negsuc m) = false

-- What a count may reach under a limit: a negative limit allows none.
abbrev pub ceiling : ℤ → ℕ
ceiling (pos m) = m
ceiling (negsuc m) = 0

pub below-ceiling : (n : ℕ) (z : ℤ) → below n z ≡ true → n < ceiling z
below-ceiling n (pos m) h = ground arith
below-ceiling n (negsuc m) h = cc
