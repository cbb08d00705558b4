-- ===== src/Text/Digits.antt =====
-- `%d` of an `int`, and the strings that end at a zero byte.
use rmw_zenoh_pico.Prelude.{
  ℕ, zero, suc, ◌+◌, ◌-◌, ◌*◌, ◌/◌, ◌%◌, ◌^◌, ◌≤◌, ◌<◌, ◌≡◌, refl, arith, Bytes, [], ◌∷◌, ◌++◌, ltb,
  ◌==◌, if◌then◌else◌, true, false, length, length-append, ℤ, pos, negsuc, Bool-cases, inl, inr,
}

-- The text in a `char` array: what stands before its first zero byte.
abbrev pub c_string : Bytes → Bytes
c_string [] = []
c_string (c ∷ s) = let rest = c_string s in if c == 0 then [] else c ∷ rest

-- No byte of `s` is `b`.
abbrev pub Without : ℕ → Bytes → Type 0
Without b [] = Unit {0}
Without b (c ∷ s) = ((c == b) ≡ false) × Without b s

-- The decimal digits of a number; ten are enough for 32 bits.
unfoldable pub digits : ℕ → ℕ → Bytes
digits zero n = []
digits (suc f) n =
    let more = digits f (n / 10) in
    if ltb n 10 then (b'0' + n) ∷ [] else more ++ (b'0' + n % 10) ∷ []

-- `(int) v` for a `size_t`
abbrev pub int_of : ℕ → ℤ
int_of v = if ltb (v % 2 ^ 32) (2 ^ 31) then pos (v % 2 ^ 32) else negsuc (2 ^ 32 - v % 2 ^ 32 - 1)

-- `%d`
unfoldable pub decimal : ℤ → Bytes
decimal (pos n) = digits 10 n
decimal (negsuc n) = b'-' ∷ digits 10 (n + 1)

-- The number that digits stand for.
abbrev pub read_digits : ℕ → Bytes → ℕ
read_digits acc [] = acc
read_digits acc (c ∷ s) = read_digits (acc * 10 + (c - b'0')) s

pub Without-append : (b : ℕ) (s t : Bytes) → Without b s → Without b t → Without b (s ++ t)
Without-append b [] t p q = q
Without-append b (c ∷ s) t (h, p) q = (h, Without-append b s t p q)

pub c_string_of_Without : (s t : Bytes) → Without 0 s → c_string (s ++ 0 ∷ t) ≡ s
c_string_of_Without [] t p = refl
c_string_of_Without (c ∷ s) t (h, p) = rw (h, c_string_of_Without s t p)

pub c_string_self : (s : Bytes) → Without 0 s → c_string s ≡ s
c_string_self [] p = refl
c_string_self (c ∷ s) (h, p) = rw (h, c_string_self s p)

pub c_string-Without : (s : Bytes) → Without 0 (c_string s)
c_string-Without [] = tt
c_string-Without (c ∷ s) = elim (Bool-cases (c == 0)) [
  | inl z ↦ rw z tt
  | inr z ↦ rw z (z, c_string-Without s)
]

digits-length : (f n : ℕ) → length (digits f n) ≤ f
unfolding digits
digits-length zero n = omega arith
digits-length (suc f) n = elim (Bool-cases (ltb n 10)) [
  | inl small ↦ rw small (omega arith)
  | inr large ↦ rw (large, length-append) (omega (arith, digits-length f (n / 10)))
]

-- Digits are none of the bytes that delimit them.
digit_ne : (b d : ℕ) → b < 48 → ((b'0' + d) == b) ≡ false
digit_ne b d h = ground arith

digits-Without : (b f n : ℕ) → b < 48 → Without b (digits f n)
unfolding digits
digits-Without b zero n h = tt
digits-Without b (suc f) n h = elim (Bool-cases (ltb n 10)) [
  | inl small ↦ rw small (digit_ne b n h, tt)
  | inr large ↦ rw large (
      Without-append b (digits f (n / 10)) ((b'0' + n % 10) ∷ []) (digits-Without b f (n / 10) h)
        (digit_ne b (n % 10) h, tt))
]

pub decimal-length : (v : ℤ) → length (decimal v) ≤ 11
unfolding decimal
decimal-length (pos n) = omega (arith, digits-length 10 n)
decimal-length (negsuc n) = omega (arith, digits-length 10 (n + 1))

pub decimal-Without : (b : ℕ) (v : ℤ) → b < 48 → (b'-' == b) ≡ false → Without b (decimal v)
unfolding decimal
decimal-Without b (pos n) h m = digits-Without b 10 n h
decimal-Without b (negsuc n) h m = (m, digits-Without b 10 (n + 1) h)

read-append : (acc : ℕ) (s t : Bytes) → read_digits acc (s ++ t) ≡ read_digits (read_digits acc s) t
read-append acc [] t = refl
read-append acc (c ∷ s) t = read-append (acc * 10 + (c - b'0')) s t

-- Ten to the power `f`.
abbrev ten_to : ℕ → ℕ
ten_to zero = 1
ten_to (suc f) = 10 * ten_to f

read-digits : (f n : ℕ) → n < ten_to f → 0 < f → read_digits 0 (digits f n) ≡ n
unfolding digits
read-digits zero n h p = absurd (omega arith)
read-digits (suc zero) n h p = let small : ltb n 10 ≡ true = ground arith in rw small (omega arith)
read-digits (suc (suc f)) n h p = elim (Bool-cases (ltb n 10)) [
  | inl small ↦ rw small (omega arith)
  | inr large ↦
      rw
        (
          large,
          read-append 0 (digits (suc f) (n / 10)) ((b'0' + n % 10) ∷ []),
          read-digits (suc f) (n / 10) (omega arith) (omega arith),
        )
        (omega arith)
]

pub read-decimal : (n : ℕ) → n < 2 ^ 32 → read_digits 0 (decimal (pos n)) ≡ n
unfolding decimal
read-decimal n h = read-digits 10 n (omega arith) (omega arith)
