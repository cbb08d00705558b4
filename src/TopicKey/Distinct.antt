-- ===== src/TopicKey/Distinct.antt =====
-- Topics that differ in their domain, name, type or hash have different keys.
use rmw_zenoh_pico.Prelude.{
  subst, ℕ, ◌≤◌, ◌≡◌, refl, sym, ap, ap₂, ◌∙◌, arith, Bytes, true, some, [], ◌∷◌, ◌++◌, append-nil,
  append_assoc, ◌==◌, length, ◌⊎◌, inl, inr, Bool-cases,
}
use rmw_zenoh_pico.Text.{c_string, c_string_self, Without}
use rmw_zenoh_pico.TopicKey.{strip_slash, ends_with_slash, ros_topic_name_to_zenoh_key}
use rmw_zenoh_pico.TopicKey.Fits.{name_made, name_text-made, name_text, topic_key, zenoh_key-text}

cons_parts : (x y : ℕ) (s t : Bytes) → x ∷ s ≡ y ∷ t → (x ≡ y) × (s ≡ t)
cons_parts x y s t e = (cc, cc)

some_part : (s t : Bytes) → some s ≡ some t → s ≡ t
some_part s t e = cc

-- A text with a slash is none without.
slash_within : (s t u : Bytes) → Without b'/' s → s ≡ t ++ b'/' ∷ u → ⊥
slash_within [] [] u p e = cc
slash_within [] (y ∷ t) u p e = cc
slash_within (x ∷ s) [] u (h, p) e =
    let (same, rest) = cons_parts x b'/' s u e in ground (arith, h, same)
slash_within (x ∷ s) (y ∷ t) u (h, p) e =
    let (same, rest) = cons_parts x y s (t ++ b'/' ∷ u) e in slash_within s t u p rest

-- Two texts are cut alike at their first slash.
cut_first :
    (s s' r r' : Bytes)
    → Without b'/' s
    → Without b'/' s'
    → s ++ b'/' ∷ r ≡ s' ++ b'/' ∷ r'
    → (s ≡ s') × (r ≡ r')
cut_first [] [] r r' p p' e = (refl, (cons_parts b'/' b'/' r r' e).1)
cut_first [] (y ∷ s') r r' p (h, p') e =
    let (same, rest) = cons_parts b'/' y r (s' ++ b'/' ∷ r') e in absurd (ground (arith, h, same))
cut_first (x ∷ s) [] r r' (h, p) p' e =
    let (same, rest) = cons_parts x b'/' (s ++ b'/' ∷ r) r' e in absurd (ground (arith, h, same))
cut_first (x ∷ s) (y ∷ s') r r' (h, p) (h', p') e =
    let (same, rest) = cons_parts x y (s ++ b'/' ∷ r) (s' ++ b'/' ∷ r') e in
    let (front, back) = cut_first s s' r r' p p' rest in
    (ap₂ (λ (a : ℕ) (b : Bytes). a ∷ b) same front, back)

-- And at their last one.
cut_last :
    (s s' r r' : Bytes)
    → Without b'/' r
    → Without b'/' r'
    → s ++ b'/' ∷ r ≡ s' ++ b'/' ∷ r'
    → (s ≡ s') × (r ≡ r')
cut_last [] [] r r' p p' e = (refl, (cons_parts b'/' b'/' r r' e).1)
cut_last [] (y ∷ s') r r' p p' e =
    absurd (slash_within r s' r' p ((cons_parts b'/' y r (s' ++ b'/' ∷ r') e).1))
cut_last (x ∷ s) [] r r' p p' e =
    absurd (slash_within r' s r p' (sym ((cons_parts x b'/' (s ++ b'/' ∷ r) r' e).1)))
cut_last (x ∷ s) (y ∷ s') r r' p p' e =
    let (same, rest) = cons_parts x y (s ++ b'/' ∷ r) (s' ++ b'/' ∷ r') e in
    let (front, back) = cut_last s s' r r' p p' rest in
    (ap₂ (λ (a : ℕ) (b : Bytes). a ∷ b) same front, back)

-- Nothing, or a text that a slash closes.
abbrev IsClosed : Bytes → Type 0
IsClosed n = (n ≡ []) ⊎ ((s : Bytes) × (n ≡ s ++ b'/' ∷ []))

cut_name :
    (n n' t t' : Bytes)
    → IsClosed n
    → IsClosed n'
    → Without b'/' t
    → Without b'/' t'
    → n ++ t ≡ n' ++ t'
    → (n ≡ n') × (t ≡ t')
cut_name n n' t t' (inl a) (inl b) p p' e = (a ∙ sym b, rw (a, b) at e)
cut_name n n' t t' (inl a) (inr (s, b)) p p' e =
    absurd (slash_within t s t' p (rw (a, b, append_assoc) at e))
cut_name n n' t t' (inr (s, a)) (inl b) p p' e =
    absurd (slash_within t' s t p' (sym (rw (a, b, append_assoc) at e)))
cut_name n n' t t' (inr (s, a)) (inr (s', b)) p p' e =
    let (front, back) =
      cut_last s s' t t' p p'
        (rw (a, b, append_assoc s (b'/' ∷ []) t, append_assoc s' (b'/' ∷ []) t') at e) in
    (a ∙ (ap (λ (x : Bytes). x ++ b'/' ∷ []) front ∙ sym b), back)

closed_of_ends : (s : Bytes) → ends_with_slash s ≡ true → (q : Bytes) × (s ≡ q ++ b'/' ∷ [])
unfolding ends_with_slash
closed_of_ends [] e = absurd (cc)
closed_of_ends (c ∷ []) e = ([], ground (arith, e))
closed_of_ends (c ∷ d ∷ s) e =
    let (q, same) = closed_of_ends (d ∷ s) e in (c ∷ q, ap (λ (r : Bytes). c ∷ r) same)

strip-IsClosed :
    (c : ℕ) (s : Bytes) → ends_with_slash (c ∷ s) ≡ true → IsClosed (strip_slash (c ∷ s))
unfolding strip_slash ends_with_slash
strip-IsClosed c [] e = inl (ground (arith, e))
strip-IsClosed c (d ∷ s) e = elim (Bool-cases (c == b'/')) [
  | inl slash ↦ rw slash (inr (closed_of_ends (d ∷ s) e))
  | inr other ↦ rw other (inr (closed_of_ends (c ∷ d ∷ s) e))
]

strip-Without : (c : ℕ) (s : Bytes) → Without 0 (c ∷ s) → Without 0 (strip_slash (c ∷ s))
unfolding strip_slash
strip-Without c s (h, p) = elim (Bool-cases (c == b'/')) [
  | inl slash ↦ rw slash p
  | inr other ↦ rw other (h, p)
]

made-IsClosed : (n : Bytes) → Without 0 n → IsClosed (name_made n)
made-IsClosed [] p = inl refl
made-IsClosed (c ∷ s) p = elim (Bool-cases (ends_with_slash (c ∷ s))) [
  | inl e ↦
      let whole : c_string (strip_slash (c ∷ s)) ≡ strip_slash (c ∷ s) =
        c_string_self (strip_slash (c ∷ s)) (strip-Without c s p) in
      rw (e, append-nil, whole) (strip-IsClosed c s e)
  | inr e ↦ rw e (inr (c_string (strip_slash (c ∷ s)), refl))
]

name-IsClosed : (n : Bytes) → Without 0 n → IsClosed (name_text n)
name-IsClosed n p = subst IsClosed (sym (name_text-made n)) (made-IsClosed n p)

-- The parts of a topic, as the source makes them: texts, of which only the name holds slashes, whose key
-- fits its buffer.
pub record IsTopic (domain name type hash : Bytes) : Type 0 where
  pub domain_text : Without 0 domain
  pub domain_whole : Without b'/' domain
  pub name_is_text : Without 0 name
  pub type_text : Without 0 type
  pub type_whole : Without b'/' type
  pub hash_text : Without 0 hash
  pub hash_whole : Without b'/' hash
  pub short : length (topic_key domain name type hash) ≤ 255

plain_key :
    (domain name type hash : Bytes)
    → IsTopic domain name type hash
    → ros_topic_name_to_zenoh_key domain name type hash
      ≡ some (domain ++ b'/' ∷ ((name_text name ++ type) ++ b'/' ∷ hash))
plain_key domain name type hash is =
    zenoh_key-text domain name type hash is.short
    ∙ rw
        (
          c_string_self domain is.domain_text,
          c_string_self type is.type_text,
          c_string_self hash is.hash_text,
          append_assoc domain (b'/' ∷ []) (name_text name ++ (type ++ b'/' ∷ hash)),
          append_assoc (name_text name) type (b'/' ∷ hash),
        )
        refl

-- Two topics whose domains, types and hashes hold no slash and no zero byte and whose keys fit have one
-- key only if they agree in the domain, the type, the hash, and the name up to the slashes at its ends.
pub zenoh_key-injective :
    (domain name type hash domain' name' type' hash' : Bytes)
    → IsTopic domain name type hash
    → IsTopic domain' name' type' hash'
    → ros_topic_name_to_zenoh_key domain name type hash
      ≡ ros_topic_name_to_zenoh_key domain' name' type' hash'
    → (domain ≡ domain') × (name_text name ≡ name_text name') × (type ≡ type') × (hash ≡ hash')
zenoh_key-injective domain name type hash domain' name' type' hash' is is' e =
    let one : domain ++ b'/' ∷ ((name_text name ++ type) ++ b'/' ∷ hash)
        ≡ domain' ++ b'/' ∷ ((name_text name' ++ type') ++ b'/' ∷ hash') =
      some_part _ _ (
        sym (plain_key domain name type hash is) ∙ (e ∙ plain_key domain' name' type' hash' is')) in
    let (same_domain, rest) = cut_first domain domain' _ _ is.domain_whole is'.domain_whole one in
    let (front, same_hash) =
      cut_last (name_text name ++ type) (name_text name' ++ type') hash hash' is.hash_whole
        is'.hash_whole rest in
    let (same_name, same_type) =
      cut_name (name_text name) (name_text name') type type' (name-IsClosed name is.name_is_text)
        (name-IsClosed name' is'.name_is_text) is.type_whole is'.type_whole front in
    (same_domain, same_name, same_type, same_hash)
