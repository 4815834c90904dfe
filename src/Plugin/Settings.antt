-- ===== src/Plugin/Settings.antt =====
-- `strtoull(text, NULL, 10)`, which reads the interval of src/examples/plugins/ephemeral_datakey.c.
use passdoq.Prelude.{ℕ, ◌+◌, ◌-◌, ◌%◌, ◌≤◌, ◌≡◌, some, [], ◌∷◌, arith, if◌then◌else◌, leb, ◌==◌}
use passdoq.Prelude.Text.{Text}
use passdoq.Vault.Time.{is_space, read_digits, read_number, decimal, read_number-decimal}

abbrev pub ullong_max : ℕ
ullong_max = 18446744073709551615

-- A number that is too large gives `ULLONG_MAX`, with either sign.
abbrev pub clamp : ℕ → ℕ
clamp n = if leb n ullong_max then n else ullong_max

abbrev negated : ℕ → ℕ
negated n = if leb n ullong_max then (ullong_max + 1 - n) % (ullong_max + 1) else ullong_max

-- White space, a sign, and digits as far as they go; without digits the value is 0.
unfoldable pub strtoull : Text → ℕ
unfolding read_digits
strtoull [] = 0
strtoull (c ∷ t) =
    let rest = strtoull t in
    if is_space c
    then rest
    else if c == b'-'
    then negated (read_digits 0 t)
    else if c == b'+'
    then clamp (read_digits 0 t)
    else clamp (read_digits 0 (c ∷ t))

-- It reads what `>>` reads of the vault's times, up to the largest value.
strtoull-read_number : (t : Text) (n : ℕ) → read_number t ≡ some n → strtoull t ≡ clamp n
unfolding strtoull read_number
strtoull-read_number [] n h = absurd (ground arith)
strtoull-read_number (c ∷ t) n h = ground (arith, strtoull-read_number t n)

pub strtoull-decimal : (n : ℕ) → strtoull (decimal n) ≡ clamp n
strtoull-decimal n = strtoull-read_number (decimal n) n (read_number-decimal n)

pub strtoull_fits : (t : Text) → strtoull t ≤ ullong_max
unfolding strtoull
strtoull_fits [] = omega arith
strtoull_fits (c ∷ t) = ground (arith, strtoull_fits t)
