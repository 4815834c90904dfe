-- ===== src/Vault/Time.antt =====
-- `time_to_string` and `string_to_time` of src/vault.cpp: a time is written as the decimal number
-- of its seconds, and read back by `>>`.
use passdoq.Prelude.{
  ℕ, zero, suc, ◌+◌, ◌-◌, ◌*◌, ◌/◌, ◌%◌, ◌<◌, ◌≤◌, ◌≡◌, ◌≢◌, refl, ap, ◌∙◌, Bool, ◌&&◌, ◌||◌,
  Option, none, some, [], ◌∷◌, ◌++◌, arith, ltb, leb, ◌==◌, if◌then◌else◌, All, Bool-cases, inl,
  inr,
}
use passdoq.Prelude.Text.{Text}

abbrev pub ticks_per_second : ℕ
ticks_per_second = 1000000000

-- `out << n` for a number that is not negative. The fuel is a bound on the number of digits.
unfoldable pub digits : ℕ → ℕ → Text
digits zero n = []
digits (suc fuel) n =
    let rest = digits fuel (n / 10) ++ (48 + n % 10) ∷ [] in
    if ltb n 10 then (48 + n) ∷ [] else rest

-- `suc n` is enough fuel: see `read_digits-decimal`.
unfoldable pub decimal : ℕ → Text
unfolding digits
decimal n = digits (suc n) n

abbrev is_digit : ℕ → Bool
is_digit c = leb 48 c && leb c 57

abbrev pub is_space : ℕ → Bool
is_space c = c == 32 || (leb 9 c && leb c 13)

unfoldable pub read_digits : ℕ → Text → ℕ
read_digits n [] = n
read_digits n (c ∷ t) =
    let rest = read_digits (n * 10 + (c - 48)) t in if is_digit c then rest else n

-- `in >> n` after white space is skipped. `none` where `n` keeps no value that the model has: at
-- the end of the text it is left uninitialized, and after a minus sign it is negative.
unfoldable pub read_number : Text → Option ℕ
unfolding read_digits
read_number [] = none
read_number (c ∷ t) =
    let rest = read_number t in
    if is_space c
    then rest
    else if c == b'-'
    then none
    else if c == b'+'
    then some (read_digits 0 t)
    else some (read_digits 0 (c ∷ t))

-- `to_time_t` rounds down to seconds.
unfoldable pub time_to_string : ℕ → Text
time_to_string tp = decimal (tp / ticks_per_second)

-- `from_time_t` multiplies in a signed 64-bit count of nanoseconds; `none` where that overflows.
unfoldable pub string_to_time : Text → Option ℕ
string_to_time t = elim (read_number t) [
  | none ↦ none
  | some seconds ↦ if leb seconds 9223372036 then some (seconds * ticks_per_second) else none
]

-- A digit is a code from 48 to 57.
abbrev IsDigit : ℕ → Type 0
IsDigit c = (48 ≤ c) × (c ≤ 57)

All-append : (s : Text) (c : ℕ) → All IsDigit s → IsDigit c → All IsDigit (s ++ c ∷ [])
All-append [] c h d = (d, tt)
All-append (x ∷ s) c h d = (h.0, All-append s c h.1 d)

read_digits-append :
    (n : ℕ) (s : Text) (c : ℕ)
    → All IsDigit s
    → IsDigit c
    → read_digits n (s ++ c ∷ []) ≡ read_digits n s * 10 + (c - 48)
unfolding read_digits
read_digits-append n [] c h d = ground arith
read_digits-append n (x ∷ s) c h d =
    ground (arith, read_digits-append (n * 10 + (x - 48)) s c h.1 d)

digits-IsDigit : (fuel n : ℕ) → All IsDigit (digits fuel n)
unfolding digits
digits-IsDigit zero n = tt
digits-IsDigit (suc fuel) n = elim (Bool-cases (ltb n 10)) [
  | inl h ↦ rw h (ground arith, tt)
  | inr h ↦
      rw h (
        All-append (digits fuel (n / 10)) (48 + n % 10) (digits-IsDigit fuel (n / 10))
          (omega arith))
]

read_digits-digits : (fuel n : ℕ) → n < fuel → read_digits 0 (digits fuel n) ≡ n
unfolding digits
read_digits-digits zero n h = elim h [ ]
read_digits-digits (suc fuel) n h = elim (Bool-cases (ltb n 10)) [
  | inl e ↦ rw e (unfold read_digits in ground arith)
  | inr e ↦ rw e (
      rw
        (read_digits-append 0 (digits fuel (n / 10)) (48 + n % 10) (digits-IsDigit fuel (n / 10))
          (omega arith))
        (ground (arith, read_digits-digits fuel (n / 10))))
]

-- Reading a printed number gives the number.
read_digits-decimal : (n : ℕ) → read_digits 0 (decimal n) ≡ n
unfolding decimal
read_digits-decimal n = read_digits-digits (suc n) n (omega arith)

read_number_of_digits : (t : Text) → All IsDigit t → t ≢ [] → read_number t ≡ some (read_digits 0 t)
unfolding read_number
read_number_of_digits [] h ne = absurd (ne refl)
read_number_of_digits (c ∷ t) h ne = ground arith

append-ne-nil : (s : Text) (c : ℕ) → s ++ c ∷ [] ≢ []
append-ne-nil [] c e = cc
append-ne-nil (x ∷ s) c e = cc

digits-ne-nil : (fuel n : ℕ) → digits (suc fuel) n ≢ []
unfolding digits
digits-ne-nil fuel n = ground (arith, append-ne-nil (digits fuel (n / 10)) (48 + n % 10))

pub read_number-decimal : (n : ℕ) → read_number (decimal n) ≡ some n
unfolding decimal
read_number-decimal n =
    read_number_of_digits (decimal n) (digits-IsDigit (suc n) n) (digits-ne-nil n n)
    ∙ ap some (read_digits-decimal n)

-- The time of a whole second.
abbrev pub floor_seconds : ℕ → ℕ
floor_seconds tp = tp / ticks_per_second * ticks_per_second

-- A time that fits in a 64-bit count of nanoseconds, up to the year 2262, is read back as it was
-- written, rounded down to its second.
pub string_to_time-time_to_string :
    (tp : ℕ)
    → tp / ticks_per_second ≤ 9223372036
    → string_to_time (time_to_string tp) ≡ some (floor_seconds tp)
unfolding string_to_time time_to_string
string_to_time-time_to_string tp h = ground (arith, read_number-decimal (tp / ticks_per_second))
