-- ===== src/Liveliness/Printed.antt =====
-- What a buffer holds after texts have been printed into it one after the other.
use rmw_zenoh_pico.Prelude.{
  ℕ, suc, ◌+◌, ◌-◌, ◌≤◌, ◌<◌, ◌≡◌, refl, sym, ap, subst, arith, Bytes, true, false, Option, none,
  some, [], ◌++◌, append-nil, append_assoc, ◌∙◌, length, take, replicate, leb, if◌then◌else◌, pos,
  is_positive, sub_nat, Bool-cases, inl, inr, length-append, length-take, take-eq_self,
  take-append_of_le, take-append_of_ge,
}
use rmw_zenoh_pico.Text.{snprintf, size_of, overwrite-printed}
use rmw_zenoh_pico.Liveliness.{Cursor, print, ◌⟫◌, skip, start}

-- A buffer of `limit + 2` bytes after the text `s`: its first `limit` bytes are stored, and there is room
-- for more exactly while `s` is no longer than that.
pub record Printed (limit : ℕ) (s : Bytes) (c : Cursor) : Type 0 where
  pub stored : c.buf ≡ take limit s ++ replicate (limit + 2 - length (take limit s)) 0
  pub room : length s ≤ limit → (c.buf_ptr ≡ length s) × (c.left_size ≡ pos (limit + 1 - length s))
  pub full : limit < length s → is_positive c.left_size ≡ false

abbrev pub PrintsInto : ℕ → Bytes → Option Cursor → Type 0
PrintsInto limit s r = (c : Cursor) × (r ≡ some c) × Printed limit s c

-- `f` appends `t` to what has been printed.
abbrev pub Appends : ℕ → Bytes → (Cursor → Option Cursor) → Type 0
Appends limit t f = (s : Bytes) (c : Cursor) → Printed limit s c → PrintsInto limit (s ++ t) (f c)

pub Printed-start : (limit : ℕ) → Printed limit [] (start (limit + 2))
unfolding start
Printed-start limit =
    let e : limit + 2 - 0 ≡ limit + 2 = omega arith in
    let none_left : take {A = ℕ} limit [] ≡ [] = take-eq_self limit [] (omega arith) in
    record {
      stored = rw (none_left, e) refl;
      room = λ h. (refl, ap pos (omega arith));
      full = λ h. absurd (omega arith);
    }

left_after :
    (limit s t : ℕ) → s + t ≤ limit → sub_nat (pos (limit + 1 - s)) t ≡ pos (limit + 1 - (s + t))
left_after limit s t h = ground arith

left_spent :
    (limit s t : ℕ)
    → s ≤ limit
    → limit < s + t
    → is_positive (sub_nat (pos (limit + 1 - s)) t) ≡ false
left_spent limit s t h k = elim (Bool-cases (leb t (limit + 1 - s))) [
  | inl e ↦ let z : limit + 1 - s - t ≡ 0 = ground arith in rw (e, z) refl
  | inr e ↦ rw e refl
]

print-PrintsInto :
    (limit : ℕ) (s t : Bytes) (c : Cursor)
    → length s ≤ limit
    → Printed limit s c
    → PrintsInto limit (s ++ t) (print t c)
unfolding print snprintf
print-PrintsInto limit s t c h p =
    let w : Bytes = take (limit - length s) t in
    let all : take limit s ≡ s = take-eq_self limit s h in
    let both : take limit (s ++ t) ≡ s ++ w = take-append_of_ge limit s t h in
    let size : limit + 1 - length s ≡ suc (limit - length s) = omega arith in
    let fits : length s + length w ≤ limit = omega (arith, length-take (limit - length s) t) in
    let sum : length (s ++ t) ≡ length s + length t = length-append s t in
    let b : Bytes = (s ++ w) ++ replicate (limit + 2 - length (s ++ w)) 0 in
    let (at, left) = p.room h in
    let written : snprintf c.buf_ptr (size_of c.left_size) t c.buf ≡ some b =
      rw (at, left, size, p.stored, all, overwrite-printed limit s w (omega arith)) refl in
    (
      record {
        buf = b;
        buf_ptr = c.buf_ptr + length t;
        left_size = sub_nat c.left_size (length t);
      },
      rw (print, written) refl,
      record {
        stored = rw both refl;
        room = λ k. (
          rw (at, sum) refl,
          rw (left, sum) (left_after limit (length s) (length t) (omega (arith, k, sum))),
        );
        full = λ k. rw left (left_spent limit (length s) (length t) h (omega (arith, k, sum)));
      },
    )

-- What each printing function does while there is room, and once there is none.
pub guarded-Appends :
    (limit : ℕ) (t : Bytes)
    → Appends limit t (λ c. if is_positive c.left_size then print t c else some c)
guarded-Appends limit t s c p = elim (Bool-cases (leb (length s) limit)) [
  | inl e ↦
      let h : length s ≤ limit = ground arith in
      let left : c.left_size ≡ pos (suc (limit - length s)) = (p.room h).1 ∙ ap pos (omega arith) in
      let test : is_positive c.left_size ≡ true = ap is_positive left in
      rw test (print-PrintsInto limit s t c h p)
  | inr e ↦
      let h : limit < length s = ground arith in
      let same : take limit (s ++ t) ≡ take limit s = take-append_of_le limit s t (omega arith) in
      rw (p.full h) (
        c,
        refl,
        record {
          stored = rw same p.stored;
          room = λ k. absurd (omega (arith, k, h, length-append s t));
          full = λ k. p.full h;
        },
      )
]

pub ⟫-Appends :
    (limit : ℕ) (t u : Bytes) (f g : Cursor → Option Cursor)
    → Appends limit t f
    → Appends limit u g
    → Appends limit (t ++ u) (f ⟫ g)
⟫-Appends limit t u f g a b s c p =
    let (c', e, p') = a s c p in
    subst (λ r. PrintsInto limit (s ++ (t ++ u)) (elim r [ none ↦ none | some d ↦ g d ])) (sym e)
      (subst (λ x. PrintsInto limit x (g c')) (append_assoc s t u) (b (s ++ t) c' p'))

pub skip-Appends : (limit : ℕ) → Appends limit [] skip
skip-Appends limit s c p = (c, refl, rw append-nil p)
