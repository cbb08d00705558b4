-- ===== src/Text/Buffer.antt =====
-- `snprintf` into what is left of a buffer, at a pointer that moves on.
use rmw_zenoh_pico.Prelude.{
  ℕ, zero, suc, ◌+◌, ◌-◌, ◌^◌, ◌≤◌, ◌<◌, ◌≡◌, refl, arith, Bytes, Option, none, some, [], ◌∷◌, ◌++◌,
  append_assoc, ◌∙◌, length, length-append, take, replicate, ℤ, pos, negsuc, inl, inr, Option-cases,
}

-- Writes `t` at an offset; `none` where a byte would fall outside.
unfoldable pub overwrite : ℕ → Bytes → Bytes → Option Bytes
overwrite zero [] b = some b
overwrite zero (x ∷ t) [] = none
overwrite zero (x ∷ t) (y ∷ b) = elim (overwrite zero t b) [ none ↦ none | some r ↦ some (x ∷ r) ]
overwrite (suc n) t [] = none
overwrite (suc n) t (y ∷ b) = elim (overwrite n t b) [ none ↦ none | some r ↦ some (y ∷ r) ]

-- `snprintf(at, size, "%s", t)`: at most `size - 1` bytes and a zero byte, or nothing for size 0.
unfoldable pub snprintf : ℕ → ℕ → Bytes → Bytes → Option Bytes
unfolding overwrite
snprintf at zero t b = some b
snprintf at (suc n) t b = overwrite at (take n t ++ 0 ∷ []) b

-- An `int` that is passed for a `size_t`.
abbrev pub size_of : ℤ → ℕ
size_of (pos n) = n
size_of (negsuc n) = 2 ^ 64 - suc n

pub overwrite-zeros :
    (t : Bytes) (n : ℕ)
    → length t ≤ n
    → overwrite 0 t (replicate n 0) ≡ some (t ++ replicate (n - length t) 0)
unfolding overwrite
overwrite-zeros [] zero h = refl
overwrite-zeros [] (suc n) h = let e : suc n - 0 ≡ suc n = omega arith in rw e refl
overwrite-zeros (x ∷ t) zero h = absurd (omega arith)
overwrite-zeros (x ∷ t) (suc n) h =
    let e : suc n - suc (length t) ≡ n - length t = omega arith in
    rw (overwrite-zeros t n (omega arith), e)

pub overwrite-append :
    (s t r b : Bytes) → overwrite 0 t r ≡ some b → overwrite (length s) t (s ++ r) ≡ some (s ++ b)
unfolding overwrite
overwrite-append [] t r b e = e
overwrite-append (x ∷ s) t r b e = rw (overwrite-append s t r b e)

-- A write that passes the end of the buffer is a fault.
pub overwrite_past :
    (n x : ℕ) (t b : Bytes) → length b < n + suc (length t) → overwrite n (x ∷ t) b ≡ none
unfolding overwrite
overwrite_past zero x t [] h = refl
overwrite_past zero x [] (y ∷ b) h = absurd (omega arith)
overwrite_past zero x (z ∷ t) (y ∷ b) h = rw (overwrite_past zero z t b (omega arith))
overwrite_past (suc n) x t [] h = refl
overwrite_past (suc n) x t (y ∷ b) h = rw (overwrite_past n x t b (omega arith))

-- A text and its zero byte, written behind what is there.
pub overwrite-printed :
    (limit : ℕ) (s w : Bytes)
    → length s + length w ≤ limit + 1
    → overwrite (length s) (w ++ 0 ∷ []) (s ++ replicate (limit + 2 - length s) 0)
      ≡ some ((s ++ w) ++ replicate (limit + 2 - length (s ++ w)) 0)
overwrite-printed limit s w h =
    let n : ℕ = limit + 2 - length s in
    let one : length (w ++ 0 ∷ []) ≡ suc (length w) = rw length-append (omega arith) in
    let rest : limit + 2 - length (s ++ w) ≡ suc (n - suc (length w)) =
      rw length-append (omega arith) in
    let e : (w ++ 0 ∷ []) ++ replicate (n - suc (length w)) 0
        ≡ w ++ replicate (suc (n - suc (length w))) 0 =
      append_assoc w (0 ∷ []) _ in
    overwrite-append s (w ++ 0 ∷ []) (replicate n 0) _
      (overwrite-zeros (w ++ 0 ∷ []) n (omega (arith, one)))
    ∙ rw (one, rest, e, append_assoc) refl

pub overwrite_beyond : (n : ℕ) (t b : Bytes) → length b ≤ n → 0 < length t → overwrite n t b ≡ none
unfolding overwrite
overwrite_beyond n [] b h k = absurd (omega arith)
overwrite_beyond zero (x ∷ t) [] h k = refl
overwrite_beyond zero (x ∷ t) (y ∷ b) h k = absurd (omega arith)
overwrite_beyond (suc n) (x ∷ t) [] h k = refl
overwrite_beyond (suc n) (x ∷ t) (y ∷ b) h k =
    rw (overwrite_beyond n (x ∷ t) b (omega arith) (omega arith)) refl

pub overwrite-length : (n : ℕ) (t b r : Bytes) → overwrite n t b ≡ some r → length r ≡ length b
unfolding overwrite
overwrite-length zero [] b r e = ground (arith, e)
overwrite-length zero (x ∷ t) [] r e = ground (arith, e)
overwrite-length zero (x ∷ t) (y ∷ b) r e = elim (Option-cases (overwrite zero t b)) [
  | inl z ↦ absurd (ground (arith, z, e))
  | inr (q, z) ↦ ground (arith, z, e, overwrite-length zero t b q z)
]
overwrite-length (suc n) t [] r e = ground (arith, e)
overwrite-length (suc n) t (y ∷ b) r e = elim (Option-cases (overwrite n t b)) [
  | inl z ↦ absurd (ground (arith, z, e))
  | inr (q, z) ↦ ground (arith, z, e, overwrite-length n t b q z)
]
