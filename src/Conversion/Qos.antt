-- ===== src/Conversion/Qos.antt =====
-- The text of a QoS profile that fits the 64 bytes of its buffer.
use rmw_zenoh_pico.Prelude.{
  ℕ, suc, ◌+◌, ◌-◌, ◌%◌, ◌^◌, ◌≤◌, ◌≡◌, refl, sym, subst, ◌∙◌, arith, Bytes, false, Option, none,
  some, [], ◌∷◌, ◌++◌, append-nil, append_assoc, ◌==◌, if◌then◌else◌, length, take, replicate,
  length-append, take-eq_self, ℤ, is_zero, Bool-cases, inl, inr,
}
use rmw_zenoh_pico.Text.{
  c_string_of_Without, int_of, decimal, decimal-Without, Without, Without-append, snprintf,
  overwrite, overwrite-append, overwrite-zeros, overwrite-printed,
}
use rmw_zenoh_pico.Conversion.{
  RmwQosProfile, QosCursor, qos_append_value, qos_add_delimiter, ◌then_qos◌, qos_part, qos_start,
  qos_to_keyexpr,
}

-- Zero is printed as nothing.
abbrev pub value_text : ℕ → Bytes
value_text v = if is_zero (int_of v) then [] else decimal (int_of v)

-- The values in their order, each but the last with its delimiter.
abbrev pub qos_text : RmwQosProfile → Bytes
qos_text q =
    value_text q.reliability
    ++ b':'
      ∷ (value_text q.durability
          ++ b':'
            ∷ (value_text q.history
                ++ b','
                  ∷ (value_text q.depth
                      ++ b':'
                        ∷ (value_text q.deadline.sec
                            ++ b','
                              ∷ (value_text q.deadline.nsec
                                  ++ b':'
                                    ∷ (value_text q.lifespan.sec
                                        ++ b','
                                          ∷ (value_text q.lifespan.nsec
                                              ++ b':'
                                                ∷ (value_text q.liveliness
                                                    ++ b','
                                                      ∷ (value_text q.liveliness_lease_duration.sec
                                                          ++ b','
                                                            ∷ value_text
                                                            q.liveliness_lease_duration.nsec)))))))))

record Holds (s : Bytes) (c : QosCursor) : Type 0 where
  stored : c.buf ≡ s ++ replicate (62 + 2 - length s) 0
  at : c.buf_ptr ≡ length s
  room : c.left ≡ 63 - length s

abbrev Writes : Bytes → (QosCursor → Option QosCursor) → Type 0
Writes t f =
    (s : Bytes) (c : QosCursor)
    → length s + length t ≤ 62
    → Holds s c
    → (c' : QosCursor) × (f c ≡ some c') × Holds (s ++ t) c'

decimal-Writes :
    (v : ℤ) (s : Bytes) (c : QosCursor)
    → length s + length (decimal v) ≤ 62
    → is_zero v ≡ false
    → Holds s c
    → (c' : QosCursor) × (qos_append_value v c ≡ some c') × Holds (s ++ decimal v) c'
unfolding qos_append_value snprintf
decimal-Writes v s c h nz p =
    let t : Bytes = decimal v in
    let size : c.left ≡ suc (62 - length s) = p.room ∙ omega arith in
    let some_left : (c.left == 0) ≡ false = rw size (ground arith) in
    let all : take (62 - length s) t ≡ t = take-eq_self (62 - length s) t (omega arith) in
    let b : Bytes = (s ++ t) ++ replicate (62 + 2 - length (s ++ t)) 0 in
    let written : snprintf c.buf_ptr c.left t c.buf ≡ some b =
      rw (p.at, size, p.stored, all, overwrite-printed 62 s t (omega arith)) refl in
    let sum : length (s ++ t) ≡ length s + length t = length-append s t in
    (
      record {
        buf = b;
        buf_ptr = c.buf_ptr + length t;
        left = (c.left + 2 ^ 64 - length t) % 2 ^ 64;
      },
      rw (qos_append_value, some_left, nz, written) refl,
      record { stored = refl; at = omega (arith, p.at, sum); room = omega (arith, p.room, sum) },
    )

value-Writes : (v : ℕ) → Writes (value_text v) (qos_append_value (int_of v))
unfolding qos_append_value
value-Writes v s c h p = elim (Bool-cases (is_zero (int_of v))) [
  | inl z ↦
      let zeroed : value_text v ≡ [] = rw z refl in
      let test : qos_append_value (int_of v) c ≡ some c = ground (arith, z) in
      (c, test, subst (λ t. Holds (s ++ t) c) (sym zeroed) (rw append-nil p))
  | inr nz ↦
      let shown : value_text v ≡ decimal (int_of v) = rw nz refl in
      subst (λ t. (c' : QosCursor) × (qos_append_value (int_of v) c ≡ some c') × Holds (s ++ t) c')
        (sym shown)
        (decimal-Writes (int_of v) s c (subst (λ t. length s + length t ≤ 62) shown h) nz p)
]

delimiter-Writes : (d : ℕ) → Writes (d ∷ []) (qos_add_delimiter d)
unfolding qos_add_delimiter
delimiter-Writes d s c h p =
    let some_left : (c.left == 0) ≡ false = ground (arith, p.room) in
    let n : ℕ = 62 + 2 - length s in
    let sum : length (s ++ d ∷ []) ≡ length s + 1 = length-append s (d ∷ []) in
    let rest : n - 1 ≡ 62 + 2 - length (s ++ d ∷ []) = omega (arith, sum) in
    let written : overwrite c.buf_ptr (d ∷ []) c.buf ≡ some (s ++ (d ∷ replicate (n - 1) 0)) =
      rw (p.at, p.stored)
        (overwrite-append s (d ∷ []) (replicate n 0) _
          (overwrite-zeros (d ∷ []) n (omega arith))) in
    (
      record { buf = s ++ (d ∷ replicate (n - 1) 0); buf_ptr = c.buf_ptr + 1; left = c.left - 1 },
      rw (qos_add_delimiter, some_left, written) refl,
      record {
        stored = rw (← rest, append_assoc) refl;
        at = omega (arith, p.at, sum);
        room = omega (arith, p.room, sum);
      },
    )

then_qos-Writes :
    (t u : Bytes) (f g : QosCursor → Option QosCursor)
    → Writes t f
    → Writes u g
    → Writes (t ++ u) (f then_qos g)
then_qos-Writes t u f g a b s c h p =
    let both : length (t ++ u) ≡ length t + length u = length-append t u in
    let (c', e, p') = a s c (omega (arith, h, both)) p in
    let fits : length (s ++ t) + length u ≤ 62 = omega (arith, h, both, length-append s t) in
    subst
      (λ r.
        (d : QosCursor) × (elim r [ none ↦ none | some x ↦ g x ] ≡ some d)
        × Holds (s ++ (t ++ u)) d)
      (sym e)
      (subst (λ x. (d : QosCursor) × (g c' ≡ some d) × Holds x d) (append_assoc s t u)
        (b (s ++ t) c' fits p'))

item-Writes :
    (v d : ℕ) (u : Bytes) (g : QosCursor → Option QosCursor)
    → Writes u g
    → Writes
        (value_text v ++ d ∷ u)
        (qos_append_value (int_of v) then_qos qos_add_delimiter d then_qos g)
item-Writes v d u g a =
    then_qos-Writes (value_text v) (d ∷ u) _ _ (value-Writes v)
      (then_qos-Writes (d ∷ []) u _ _ (delimiter-Writes d) a)

part-Writes : (q : RmwQosProfile) → Writes (qos_text q) (qos_part q)
unfolding qos_part
part-Writes q = item-Writes q.reliability b':' _ _ (
    item-Writes q.durability b':' _ _ (
      item-Writes q.history b',' _ _ (
        item-Writes q.depth b':' _ _ (
          item-Writes q.deadline.sec b',' _ _ (
            item-Writes q.deadline.nsec b':' _ _ (
              item-Writes q.lifespan.sec b',' _ _ (
                item-Writes q.lifespan.nsec b':' _ _ (
                  item-Writes q.liveliness b',' _ _ (
                    item-Writes q.liveliness_lease_duration.sec b',' _ _
                      (value-Writes q.liveliness_lease_duration.nsec))))))))))

value-Without : (v : ℕ) → Without 0 (value_text v)
value-Without v = elim (Bool-cases (is_zero (int_of v))) [
  | inl z ↦ rw z tt
  | inr nz ↦ rw nz (decimal-Without 0 (int_of v) (omega arith) refl)
]

item-Without :
    (v d : ℕ) (u : Bytes) → (d == 0) ≡ false → Without 0 u → Without 0 (value_text v ++ d ∷ u)
item-Without v d u h p = Without-append 0 (value_text v) (d ∷ u) (value-Without v) (h, p)

text-Without : (q : RmwQosProfile) → Without 0 (qos_text q)
text-Without q = item-Without q.reliability b':' _ refl (
    item-Without q.durability b':' _ refl (
      item-Without q.history b',' _ refl (
        item-Without q.depth b':' _ refl (
          item-Without q.deadline.sec b',' _ refl (
            item-Without q.deadline.nsec b':' _ refl (
              item-Without q.lifespan.sec b',' _ refl (
                item-Without q.lifespan.nsec b':' _ refl (
                  item-Without q.liveliness b',' _ refl (
                    item-Without q.liveliness_lease_duration.sec b',' _ refl
                      (value-Without q.liveliness_lease_duration.nsec))))))))))

from_start : (n : ℕ) → n ≤ 62 → 0 + n ≤ 62
from_start n h = omega arith

-- For a profile whose text has at most 62 characters `qos_to_keyexpr` stays within its buffer and gives
-- that text whole: its values in their order, zero as nothing, with their delimiters.
pub qos_to_keyexpr-text :
    (q : RmwQosProfile) → length (qos_text q) ≤ 62 → qos_to_keyexpr (some q) ≡ some (qos_text q)
unfolding qos_to_keyexpr
qos_to_keyexpr-text q h =
    let begun : Holds [] qos_start = record { stored = refl; at = refl; room = refl } in
    let (c, e, p) = part-Writes q [] qos_start (from_start (length (qos_text q)) h) begun in
    let size : 62 + 2 - length (qos_text q) ≡ suc (63 - length (qos_text q)) = omega arith in
    rw (qos_to_keyexpr, e, p.stored, size, c_string_of_Without (qos_text q) _ (text-Without q)) refl
