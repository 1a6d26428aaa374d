-- ===== src/Mux/Word.antt =====
-- The fixed-width arithmetic of mux.c. Subtraction wraps, so the modulus is added first.
use csup.Prelude.{ℕ, ◌+◌, ◌-◌, ◌%◌, ◌^◌}

-- size_t
abbrev pub add_size : ℕ → ℕ → ℕ
add_size a b = (a + b) % 2 ^ 64

abbrev pub sub_size : ℕ → ℕ → ℕ
sub_size a b = (a + 2 ^ 64 - b) % 2 ^ 64

-- uint32_t
abbrev pub add_u32 : ℕ → ℕ → ℕ
add_u32 a b = (a + b) % 2 ^ 32

abbrev pub sub_u32 : ℕ → ℕ → ℕ
sub_u32 a b = (a + 2 ^ 32 - b) % 2 ^ 32
