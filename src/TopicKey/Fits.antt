-- ===== src/TopicKey/Fits.antt =====
-- The key of a topic that fits its buffer, and the QoS text of a topic info.
use rmw_zenoh_pico.Prelude.{
  Bool, drop, bytes_eq, ℕ, suc, ◌+◌, ◌-◌, ◌≤◌, ◌≡◌, refl, sym, subst, arith, Bytes, true, Option,
  none, some, [], ◌∷◌, ◌++◌, append-nil, append_assoc, codes, if◌then◌else◌, length, take,
  replicate, length-append, take-eq_self, pos, sub_nat, Bool-cases, inl, inr,
}
use rmw_zenoh_pico.Text.{
  c_string, c_string-Without, c_string_of_Without, Without, Without-append, decimal, digits,
  snprintf, size_of, overwrite-printed,
}
use rmw_zenoh_pico.Liveliness.{Cursor, print, ◌⟫◌, skip}
use rmw_zenoh_pico.Conversion.{RmwQosProfile, qos_to_keyexpr, test_qos_profile}
use rmw_zenoh_pico.Conversion.Qos.{qos_to_keyexpr-text}
use rmw_zenoh_pico.TopicKey.{
  strip_slash, ends_with_slash, name_part, key_start, ros_topic_name_to_zenoh_key,
  zenoh_pico_generate_topic_info,
}

record Holds (s : Bytes) (c : Cursor) : Type 0 where
  stored : c.buf ≡ s ++ replicate (254 + 2 - length s) 0
  at : c.buf_ptr ≡ length s
  room : c.left_size ≡ pos (256 - length s)

abbrev Writes : Bytes → (Cursor → Option Cursor) → Type 0
Writes t f =
    (s : Bytes) (c : Cursor)
    → length s + length t ≤ 255
    → Holds s c
    → (c' : Cursor) × (f c ≡ some c') × Holds (s ++ t) c'

left_after : (s t : ℕ) → s + t ≤ 255 → sub_nat (pos (256 - s)) t ≡ pos (256 - (s + t))
left_after s t h = ground arith

print-Writes : (t : Bytes) → Writes t (print t)
unfolding print snprintf
print-Writes t s c h p =
    let size : 256 - length s ≡ suc (255 - length s) = omega arith in
    let all : take (255 - length s) t ≡ t = take-eq_self (255 - length s) t (omega arith) in
    let b : Bytes = (s ++ t) ++ replicate (254 + 2 - length (s ++ t)) 0 in
    let written : snprintf c.buf_ptr (size_of c.left_size) t c.buf ≡ some b =
      rw (p.at, p.room, size, p.stored, all, overwrite-printed 254 s t h) refl in
    let sum : length (s ++ t) ≡ length s + length t = length-append s t in
    (
      record {
        buf = b;
        buf_ptr = c.buf_ptr + length t;
        left_size = sub_nat c.left_size (length t);
      },
      rw (print, written) refl,
      record {
        stored = refl;
        at = omega (arith, p.at, sum);
        room = rw (p.room, sum) (left_after (length s) (length t) h);
      },
    )

skip-Writes : Writes [] skip
skip-Writes s c h p = (c, refl, rw append-nil p)

⟫-Writes :
    (t u : Bytes) (f g : Cursor → Option Cursor) → Writes t f → Writes u g → Writes (t ++ u) (f ⟫ g)
⟫-Writes t u f g a b s c h p =
    let both : length (t ++ u) ≡ length t + length u = length-append t u in
    let (c', e, p') = a s c (omega (arith, h, both)) p in
    let fits : length (s ++ t) + length u ≤ 255 = omega (arith, h, both, length-append s t) in
    subst
      (λ r.
        (d : Cursor) × (elim r [ none ↦ none | some x ↦ g x ] ≡ some d) × Holds (s ++ (t ++ u)) d)
      (sym e)
      (subst (λ x. (d : Cursor) × (g c' ≡ some d) × Holds x d) (append_assoc s t u)
        (b (s ++ t) c' fits p'))

-- The slash that begins a text and the one that ends it, by position.
abbrev pub slash_first : Bytes → Bool
slash_first name = bytes_eq (take 1 name) (codes "/")

abbrev pub slash_last : Bytes → Bool
slash_last name = bytes_eq (drop (length name - 1) name) (codes "/")

-- The topic's name without its first slash, and closed by one.
abbrev pub name_text : Bytes → Bytes
name_text [] = []
name_text (c ∷ s) =
    c_string (if slash_first (c ∷ s) then drop 1 (c ∷ s) else (c ∷ s))
    ++ (if slash_last (c ∷ s) then [] else codes "/")

pub stripped : (name : Bytes) → strip_slash name ≡ (if slash_first name then drop 1 name else name)
unfolding strip_slash
stripped [] = refl
stripped (c ∷ s) = ground arith

pub ended : (name : Bytes) → ends_with_slash name ≡ slash_last name
unfolding ends_with_slash
ended [] = refl
ended (c ∷ []) = ground arith
ended (c ∷ d ∷ s) =
    let whole : suc (suc (length s)) - 1 ≡ suc (length s) = omega arith in
    let tail : suc (length s) - 1 ≡ length s = omega arith in rw whole (rw tail at (ended (d ∷ s)))

-- The text as the code makes it.
abbrev pub name_made : Bytes → Bytes
name_made [] = []
name_made (c ∷ s) =
    c_string (strip_slash (c ∷ s)) ++ (if ends_with_slash (c ∷ s) then [] else codes "/")

pub name_text-made : (name : Bytes) → name_text name ≡ name_made name
name_text-made [] = refl
name_text-made (c ∷ s) = rw (stripped (c ∷ s), ended (c ∷ s)) refl

-- `<domain>/<name>/<type>/<hash>`
abbrev pub topic_key : Bytes → Bytes → Bytes → Bytes → Bytes
topic_key domain name type hash =
    (c_string domain ++ codes "/")
    ++ (name_text name ++ (c_string type ++ (codes "/" ++ c_string hash)))

made-Writes : (name : Bytes) → Writes (name_made name) (name_part name)
unfolding name_part
made-Writes [] = skip-Writes
made-Writes (c ∷ s) =
    ⟫-Writes (c_string (strip_slash (c ∷ s))) _ _ _ (print-Writes (c_string (strip_slash (c ∷ s))))
      (elim (Bool-cases (ends_with_slash (c ∷ s))) [
        | inl e ↦ rw e skip-Writes
        | inr e ↦ rw e (print-Writes (codes "/"))
      ])

made-Without : (name : Bytes) → Without 0 (name_made name)
made-Without [] = tt
made-Without (c ∷ s) =
    Without-append 0 (c_string (strip_slash (c ∷ s))) _ (c_string-Without (strip_slash (c ∷ s)))
      (elim (Bool-cases (ends_with_slash (c ∷ s))) [ inl e ↦ rw e tt | inr e ↦ rw e (refl, tt) ])

name-Writes : (name : Bytes) → Writes (name_text name) (name_part name)
name-Writes name =
    subst (λ t. Writes t (name_part name)) (sym (name_text-made name)) (made-Writes name)

name-Without : (name : Bytes) → Without 0 (name_text name)
name-Without name = subst (Without 0) (sym (name_text-made name)) (made-Without name)

key-Without : (domain name type hash : Bytes) → Without 0 (topic_key domain name type hash)
key-Without domain name type hash =
    Without-append 0 (c_string domain ++ codes "/") _
      (Without-append 0 (c_string domain) (codes "/") (c_string-Without domain) (refl, tt))
      (Without-append 0 (name_text name) _ (name-Without name)
        (Without-append 0 (c_string type) _ (c_string-Without type) (refl, c_string-Without hash)))

from_start : (n : ℕ) → n ≤ 255 → 0 + n ≤ 255
from_start n h = omega arith

-- Where the text has at most 255 characters `ros_topic_name_to_zenoh_key` stays within its buffer and
-- gives `<domain>/<name>/<type>/<hash>`, the name without a slash at its front, and with one slash
-- behind it unless it ends with one or is empty.
pub zenoh_key-text :
    (domain name type hash : Bytes)
    → length (topic_key domain name type hash) ≤ 255
    → ros_topic_name_to_zenoh_key domain name type hash ≡ some (topic_key domain name type hash)
unfolding ros_topic_name_to_zenoh_key
zenoh_key-text domain name type hash h =
    let text : Bytes = topic_key domain name type hash in
    let begun : Holds [] key_start = record { stored = refl; at = refl; room = refl } in
    let all =
      ⟫-Writes (c_string domain ++ codes "/") _ _ _ (print-Writes (c_string domain ++ codes "/")) (
        ⟫-Writes (name_text name) _ _ _ (name-Writes name)
          (print-Writes (c_string type ++ (codes "/" ++ c_string hash)))) in
    let (c, e, p) = all [] key_start (from_start (length text) h) begun in
    let size : 254 + 2 - length text ≡ suc (255 - length text) = omega arith in
    rw
      (
        ros_topic_name_to_zenoh_key,
        e,
        p.stored,
        size,
        c_string_of_Without text _ (key-Without domain name type hash),
      )
      refl

test_profile_text : qos_to_keyexpr (some test_qos_profile) ≡ some (codes ":2:,10:,:,:,,")
unfolding decimal digits
test_profile_text = qos_to_keyexpr-text test_qos_profile (omega arith)

-- A new topic info keeps its name, type and hash, but whatever the profile that it is made with, its
-- QoS text is that of depth 10 and durability 2 with nothing else set.
pub generate_topic_info-qos :
    (name type hash : Bytes) (qos : Option RmwQosProfile)
    → zenoh_pico_generate_topic_info true name qos type hash
      ≡ some
          (record { name = c_string name; type = type; hash = hash; qos = codes ":2:,10:,:,:,," })
unfolding zenoh_pico_generate_topic_info
generate_topic_info-qos name type hash qos =
    rw (zenoh_pico_generate_topic_info, test_profile_text) refl
