-- ===== src/Prelude/Words.antt =====
-- The 32-bit words of the ESP32: `size_t`, `unsigned long`, `uint32_t`, all of one width.
use Prim.Native.Nat.{ℕ, ◌+◌, ◌-◌, ◌*◌, ◌%◌}
use mathlib.Core.Bool.{Bool}
use esp_reverse_tunneling_li.Prelude.Tests.{leb}

-- 2 ^ 32
abbrev pub word : ℕ
word = 4294967296

-- 2 ^ 31
abbrev pub half_word : ℕ
half_word = 2147483648

abbrev pub add32 : ℕ → ℕ → ℕ
add32 a b = (a + b) % word

abbrev pub sub32 : ℕ → ℕ → ℕ
sub32 a b = (a + word - b) % word

abbrev pub mul32 : ℕ → ℕ → ℕ
mul32 a b = (a * b) % word

-- `(long)x < 0` for a word `x`
abbrev pub is_negative : ℕ → Bool
is_negative x = leb half_word x
