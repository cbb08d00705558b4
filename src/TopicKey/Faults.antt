-- ===== src/TopicKey/Faults.antt =====
-- A topic whose domain and name pass the end of the buffer.
use rmw_zenoh_pico.Prelude.{
  ℕ, zero, suc, ◌+◌, ◌-◌, ◌^◌, ◌<◌, ◌≡◌, refl, subst, ◌∙◌, arith, Bytes, Bool, true, false, Option,
  none, some, [], ◌∷◌, ◌++◌, codes, length, length-append, take, pos, sub_nat, leb, if◌then◌else◌,
  Option-cases, inl, inr,
}
use rmw_zenoh_pico.Text.{c_string, snprintf, size_of, overwrite, overwrite_beyond, overwrite-length}
use rmw_zenoh_pico.Liveliness.{Cursor, print, ◌⟫◌, skip}
use rmw_zenoh_pico.TopicKey.{
  strip_slash, ends_with_slash, name_part, key_start, ros_topic_name_to_zenoh_key,
}

-- A buffer of `n` bytes of which `k` have been asked for.
record Asked (n k : ℕ) (c : Cursor) : Type 0 where
  size : length c.buf ≡ n
  at : c.buf_ptr ≡ k
  left : c.left_size ≡ sub_nat (pos n) k

sub_nat_twice : (n k t : ℕ) → sub_nat (sub_nat (pos n) k) t ≡ sub_nat (pos n) (k + t)
sub_nat_twice n k t = ground arith

snprintf-length : (at n : ℕ) (t b r : Bytes) → snprintf at n t b ≡ some r → length r ≡ length b
unfolding snprintf
snprintf-length at zero t b r e = ground (arith, e)
snprintf-length at (suc n) t b r e = overwrite-length at _ b r e

print-Asked :
    (n k : ℕ) (t : Bytes) (c d : Cursor)
    → Asked n k c
    → print t c ≡ some d
    → Asked n (k + length t) d
unfolding print
print-Asked n k t c d p e = elim (Option-cases (snprintf c.buf_ptr (size_of c.left_size) t c.buf)) [
  | inl z ↦ absurd (ground (arith, z, e))
  | inr (b, z) ↦
      let r : Cursor = record {
        buf = b;
        buf_ptr = c.buf_ptr + length t;
        left_size = sub_nat c.left_size (length t);
      } in
      let same : r ≡ d = ground (arith, z, e) in
      subst (Asked n (k + length t)) same (record {
        size = snprintf-length _ _ t c.buf b z ∙ p.size;
        at = omega (arith, p.at);
        left = rw p.left (sub_nat_twice n k (length t));
      })
]

-- A write behind the end of the buffer.
print_beyond :
    (n k : ℕ) (t : Bytes) (c : Cursor) → n < k → k < 2 ^ 63 → Asked n k c → print t c ≡ none
unfolding print snprintf
print_beyond n k t c h w p =
    let m : ℕ = 2 ^ 64 - (k - n) - 1 in
    let past : leb k n ≡ false = ground arith in
    let size : size_of (sub_nat (pos n) k) ≡ suc m = rw past (omega arith) in
    let fault : overwrite c.buf_ptr (take m t ++ 0 ∷ []) c.buf ≡ none =
      overwrite_beyond c.buf_ptr (take m t ++ 0 ∷ []) c.buf (omega (arith, p.size, p.at))
        (omega (arith, length-append (take m t) (0 ∷ []))) in
    let none_written : snprintf c.buf_ptr (size_of c.left_size) t c.buf ≡ none =
      rw (p.left, size, fault) refl in
    rw (print, none_written) refl

-- One print after another, of which the first may fault.
after_print :
    (n k : ℕ) (t : Bytes) (c : Cursor) (g : Cursor → Option Cursor)
    → Asked n k c
    → ((d : Cursor) → Asked n (k + length t) d → g d ≡ none)
    → (print t ⟫ g) c ≡ none
after_print n k t c g p rest = elim (Option-cases (print t c)) [
  | inl z ↦ rw (z, ◌⟫◌) refl
  | inr (d, z) ↦ rw (z, ◌⟫◌) (rest d (print-Asked n k t c d p z))
]

slash_beyond :
    (ends : Bool) (n k : ℕ) (t : Bytes) (c : Cursor)
    → n < k
    → k < 2 ^ 63
    → Asked n k c
    → ((if ends then skip else print (codes "/")) ⟫ print t) c ≡ none
slash_beyond true n k t c h w p = print_beyond n k t c h w p
slash_beyond false n k t c h w p = rw (◌⟫◌, print_beyond n k (codes "/") c h w p) refl

⟫_assoc : (f g h : Cursor → Option Cursor) (c : Cursor) → ((f ⟫ g) ⟫ h) c ≡ (f ⟫ g ⟫ h) c
⟫_assoc f g h c = elim (Option-cases (f c)) [
  | inl z ↦ rw (◌⟫◌, z) refl
  | inr (d, z) ↦ rw (◌⟫◌, z) refl
]

-- Where the domain, a slash and the topic's name without its first slash have more than 256 characters,
-- and fewer than 2 ^ 31, `ros_topic_name_to_zenoh_key` writes behind its buffer.
pub zenoh_key-overflow :
    (domain type hash : Bytes) (c : ℕ) (s : Bytes)
    → 256 < length (c_string domain) + 1 + length (c_string (strip_slash (c ∷ s)))
    → length (c_string domain) + 1 + length (c_string (strip_slash (c ∷ s))) < 2 ^ 31
    → ros_topic_name_to_zenoh_key domain (c ∷ s) type hash ≡ none
unfolding ros_topic_name_to_zenoh_key name_part
zenoh_key-overflow domain type hash c s long word =
    let first : Bytes = c_string domain ++ codes "/" in
    let sum : length first ≡ length (c_string domain) + 1 =
      length-append (c_string domain) (codes "/") in
    let name : Bytes = c_string (strip_slash (c ∷ s)) in
    let last : Bytes = c_string type ++ (codes "/" ++ c_string hash) in
    let begun : Asked 256 0 key_start = record { size = refl; at = refl; left = refl } in
    let fault : (print first ⟫ name_part (c ∷ s) ⟫ print last) key_start ≡ none =
      after_print 256 0 first key_start (name_part (c ∷ s) ⟫ print last) begun (λ d p.
        ⟫_assoc (print name) (if ends_with_slash (c ∷ s) then skip else print (codes "/"))
          (print last) d
        ∙ after_print 256 (0 + length first) name d _ p (λ e q.
          slash_beyond (ends_with_slash (c ∷ s)) 256 (0 + length first + length name) last e
            (omega (arith, sum, long)) (omega (arith, sum, word)) q)) in
    rw (ros_topic_name_to_zenoh_key, fault) refl
