-- ===== src/Conversion/Hash.antt =====
-- A type hash is read back from its text, and a domain from its digits.
use rmw_zenoh_pico.Prelude.{
  ℕ, suc, ◌+◌, ◌-◌, ◌*◌, ◌/◌, ◌%◌, ◌^◌, ◌<◌, ◌≡◌, refl, arith, Bytes, false, some, [], ◌∷◌, ◌++◌,
  append_assoc, codes, ltb, ◌==◌, if◌then◌else◌, length, take, drop, replicate, pos, length-append,
  take-eq_self,
}
use rmw_zenoh_pico.Text.{
  c_string, int_of, decimal, decimal-length, read_digits, read-decimal, Without, Without-append,
  c_string_of_Without, overwrite, overwrite-append, overwrite-zeros,
}
use rmw_zenoh_pico.Conversion.{conv_domain, hex_digit, hash_loop, convert_hash}

-- For every domain id the 16 bytes of the buffer hold the whole text of its value as an `int`, and an
-- id below 2 ^ 31 is the number that its text stands for.
pub conv_domain-reads :
    (d : ℕ)
    → (conv_domain d ≡ decimal (int_of d)) × (d < 2 ^ 31 → read_digits 0 (conv_domain d) ≡ d)
unfolding conv_domain
conv_domain-reads d =
    let whole : take 15 (decimal (int_of d)) ≡ decimal (int_of d) =
      take-eq_self 15 (decimal (int_of d)) (omega (arith, decimal-length (int_of d))) in
    (
      whole,
      λ h.
          let same : int_of d ≡ pos d = ground arith in
          rw (whole, same) (read-decimal d (omega arith)),
    )

-- The text of the bytes of a hash.
abbrev pub hex_text : Bytes → Bytes
hex_text [] = []
hex_text (v ∷ vs) = hex_digit (v / 16 % 16) ∷ hex_digit (v % 16) ∷ hex_text vs

abbrev pub nibble_of : ℕ → ℕ
nibble_of c = if ltb c b'a' then c - b'0' else c - b'a' + 0xa

-- The bytes that pairs of hexadecimal digits stand for.
abbrev pub read_hex : Bytes → Bytes
read_hex [] = []
read_hex (x ∷ []) = []
read_hex (x ∷ y ∷ s) = (nibble_of x * 16 + nibble_of y) ∷ read_hex s

abbrev pub AreBytes : Bytes → Type 0
AreBytes [] = Unit {0}
AreBytes (v ∷ vs) = (v < 256) × AreBytes vs

hex_text-length : (vs : Bytes) → length (hex_text vs) ≡ 2 * length vs
hex_text-length [] = refl
hex_text-length (v ∷ vs) = omega (arith, hex_text-length vs)

hex_digit-ne : (n : ℕ) → (hex_digit n == 0) ≡ false
unfolding hex_digit
hex_digit-ne n = ground arith

hex_text-Without : (vs : Bytes) → Without 0 (hex_text vs)
hex_text-Without [] = tt
hex_text-Without (v ∷ vs) =
    (hex_digit-ne (v / 16 % 16), (hex_digit-ne (v % 16), hex_text-Without vs))

nibble_of-hex_digit : (n : ℕ) → n < 16 → nibble_of (hex_digit n) ≡ n
unfolding hex_digit
nibble_of-hex_digit n h = ground arith

read_hex-hex_text : (vs : Bytes) → AreBytes vs → read_hex (hex_text vs) ≡ vs
read_hex-hex_text [] p = refl
read_hex-hex_text (v ∷ vs) (h, p) =
    let byte : v / 16 % 16 * 16 + v % 16 ≡ v = omega arith in
    rw
      (
        nibble_of-hex_digit (v / 16 % 16) (omega arith),
        nibble_of-hex_digit (v % 16) (omega arith),
        byte,
        read_hex-hex_text vs p,
      )
      refl

-- The loop, with the text `s` before it and zeros behind.
hash_loop-writes :
    (s vs : Bytes) (n : ℕ)
    → n ≡ suc (2 * length vs)
    → hash_loop (length s) vs (s ++ replicate n 0) ≡ some (s ++ (hex_text vs ++ 0 ∷ []))
unfolding hash_loop
hash_loop-writes s [] n e = rw e refl
hash_loop-writes s (v ∷ vs) n e =
    let two : Bytes = hex_digit (v / 16 % 16) ∷ hex_digit (v % 16) ∷ [] in
    let more : length s + 2 ≡ length (s ++ two) = rw length-append refl in
    rw
      (
        hash_loop,
        overwrite-append s two (replicate n 0) _ (overwrite-zeros two n (omega arith)),
        more,
        ← append_assoc s two (replicate (n - 2) 0),
        hash_loop-writes (s ++ two) vs (n - 2) (omega arith),
        append_assoc s two (hex_text vs ++ 0 ∷ []),
      )
      refl

-- For every hash of 32 bytes `convert_hash` stays within its buffer and gives a text of 71 characters,
-- from which, behind the seven of its prefix, the bytes of the hash are read back.
pub convert_hash-reads :
    (value : Bytes)
    → length value ≡ 32
    → AreBytes value
    → (text : Bytes) × (convert_hash value ≡ some text)
      × (length text ≡ 71)
      × (read_hex (drop 7 text) ≡ value)
unfolding convert_hash
convert_hash-reads value size bytes =
    let prefix : Bytes = codes "RIHS01_" in
    let text : Bytes = prefix ++ hex_text value in
    let begun : overwrite 0 prefix (replicate 72 0) ≡ some (prefix ++ replicate 65 0) =
      overwrite-zeros prefix 72 (omega arith) in
    let looped : hash_loop 7 value (prefix ++ replicate 65 0)
        ≡ some (prefix ++ (hex_text value ++ 0 ∷ [])) =
      hash_loop-writes prefix value 65 (omega arith) in
    let end : c_string (prefix ++ (hex_text value ++ 0 ∷ [])) ≡ text = c_string_of_Without text [] (
      Without-append 0 prefix (hex_text value)
        (refl, (refl, (refl, (refl, (refl, (refl, (refl, tt))))))) (hex_text-Without value)) in
    (
      text,
      rw (convert_hash, begun, looped, end) refl,
      omega (arith, hex_text-length value),
      read_hex-hex_text value bytes,
    )
