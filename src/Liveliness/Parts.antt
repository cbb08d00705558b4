-- ===== src/Liveliness/Parts.antt =====
-- What a reader of a liveliness key gets back: the texts between the slashes, demangled.
use rmw_zenoh_pico.Prelude.{
  ℕ, ◌≤◌, ◌≡◌, refl, ap, ap₂, ◌∙◌, arith, Bytes, List, some, [], ◌∷◌, ◌++◌, length, take, drop,
  codes, ◌==◌, if◌then◌else◌, append-nil, take-eq_self,
}
use rmw_zenoh_pico.Text.{Without, c_string_self}
use rmw_zenoh_pico.Entity.{ZenohPicoEntity, ZenohPicoNodeInfo}
use rmw_zenoh_pico.Liveliness.{mangle_name, demangle_name, mangled, demangled, generate_liveliness}
use rmw_zenoh_pico.Liveliness.Key.{
  each, shown, fields, joined, liveliness_key, mangle-Without_slash, generate_liveliness-key,
}

abbrev prepend : ℕ → List Bytes → List Bytes
prepend c [] = (c ∷ []) ∷ []
prepend c (t ∷ ts) = (c ∷ t) ∷ ts

-- The texts between the slashes of a key.
abbrev pub split : Bytes → List Bytes
split [] = [] ∷ []
split (c ∷ s) = let ts = split s in if c == b'/' then [] ∷ ts else prepend c ts

split_last : (t : Bytes) → Without b'/' t → split t ≡ t ∷ []
split_last [] p = refl
split_last (c ∷ t) (h, p) = rw (h, split_last t p) refl

split-append : (t s : Bytes) → Without b'/' t → split (t ++ b'/' ∷ s) ≡ t ∷ split s
split-append [] s p = refl
split-append (c ∷ t) s (h, p) = rw (h, split-append t s p) refl

split-joined :
    (t : Bytes) (ts : List Bytes) → split (joined (each shown (t ∷ ts))) ≡ each shown (t ∷ ts)
split-joined t [] = ap split (append-nil (shown t)) ∙ split_last (shown t) (mangle-Without_slash _)
split-joined t (u ∷ ts) =
    split-append (shown t) (joined (each shown (u ∷ ts))) (mangle-Without_slash _)
    ∙ ap (λ r. shown t ∷ r) (split-joined u ts)

demangle-mangle : (s : Bytes) → Without b'%' s → demangle_name (mangle_name s) ≡ s
unfolding demangle_name mangle_name
demangle-mangle [] p = refl
demangle-mangle (c ∷ s) (h, p) =
    let one : demangled (mangled c) ≡ c = ground arith in rw (one, demangle-mangle s p) refl

-- A field that survives: it has neither a zero byte nor a percent sign, and fits the worker buffer.
abbrev pub IsPlain : Bytes → Type 0
IsPlain v = Without 0 v × Without b'%' v × (length v ≤ 127)

abbrev pub Every : (Bytes → Type 0) → List Bytes → Type 0
Every P [] = Unit {0}
Every P (t ∷ ts) = P t × Every P ts

demangle-shown : (v : Bytes) → IsPlain v → demangle_name (shown v) ≡ v
demangle-shown v (z, p, h) = rw (c_string_self v z, take-eq_self 127 v h) (demangle-mangle v p)

demangle-each : (ts : List Bytes) → Every IsPlain ts → each demangle_name (each shown ts) ≡ ts
demangle-each [] p = refl
demangle-each (t ∷ ts) (h, p) =
    ap₂ (λ (a : Bytes) (b : List Bytes). a ∷ b) (demangle-shown t h) (demangle-each ts p)

-- Where the entity has a node info, every one of its fields has no zero byte, no percent sign and at most
-- 127 bytes, and the key has at most 254 bytes, the texts between the slashes of the key that
-- `generate_liveliness` gives are, demangled by `demangle_name`, the fields of the entity in their order.
pub liveliness-split :
    (e : ZenohPicoEntity) (n : ZenohPicoNodeInfo)
    → e.node_info ≡ some n
    → Every IsPlain (fields e (some n))
    → length (liveliness_key e) ≤ 254
    → (key : Bytes) × (generate_liveliness e ≡ some key)
      × (each demangle_name (split key) ≡ fields e (some n))
liveliness-split e n has plain fits =
    let whole : take 254 (liveliness_key e) ≡ liveliness_key e =
      take-eq_self 254 (liveliness_key e) fits in
    (
      liveliness_key e,
      generate_liveliness-key e ∙ ap some whole,
      rw has (
          ap (each demangle_name) (split-joined (codes "@ros2_lv") (drop 1 (fields e (some n))))
          ∙ demangle-each (fields e (some n)) plain),
    )
