-- ===== src/Liveliness/Key.antt =====
-- The liveliness key as a function of the entity's fields: each is cut to 127 bytes and mangled, and the
-- texts are joined by slashes.
use rmw_zenoh_pico.Prelude.{
  ℕ, zero, suc, ◌+◌, ◌-◌, ◌≤◌, ◌≡◌, refl, sym, subst, arith, Bytes, List, true, false, Option, none,
  some, [], ◌∷◌, ◌++◌, codes, length, take, replicate, ◌==◌, Bool-cases, inl, inr, length-take,
  take-eq_self,
}
use rmw_zenoh_pico.Text.{
  c_string, int_of, decimal, decimal-length, decimal-Without, Without, Without-append,
  c_string-Without, c_string_self, c_string_of_Without,
}
use rmw_zenoh_pico.Entity.{ZenohPicoNodeInfo, ZenohPicoTopicInfo, ZenohPicoEntity}
use rmw_zenoh_pico.Liveliness.{
  Cursor, mangled, mangle_name, conv_entity_type, add_int_value, add_string_value,
  add_loan_string_value, add_delimiter, ◌⟫◌, topic_part, node_part, generate_liveliness, start,
}
use rmw_zenoh_pico.Liveliness.Printed.{
  Printed, Appends, guarded-Appends, ⟫-Appends, skip-Appends, Printed-start,
}

abbrev pub each : (Bytes → Bytes) → List Bytes → List Bytes
each f [] = []
each f (t ∷ ts) = f t ∷ each f ts

-- What is printed of a field.
abbrev pub shown : Bytes → Bytes
shown v = mangle_name (take 127 (c_string v))

abbrev pub topic_fields : Option ZenohPicoTopicInfo → List Bytes
topic_fields none = []
topic_fields (some t) = t.name ∷ t.type ∷ t.hash ∷ t.qos ∷ []

-- The fields of an entity, in the order of its key.
abbrev pub fields : ZenohPicoEntity → Option ZenohPicoNodeInfo → List Bytes
fields e none = []
fields e (some n) =
    codes "@ros2_lv"
    ∷ n.domain
    ∷ e.zid
    ∷ decimal (int_of e.nid)
    ∷ decimal (int_of e.id)
    ∷ conv_entity_type e.type
    ∷ n.enclave
    ∷ n.ns
    ∷ n.name
    ∷ topic_fields e.topic_info

abbrev pub slashed : List Bytes → Bytes
slashed [] = []
slashed (t ∷ ts) = b'/' ∷ (t ++ slashed ts)

abbrev pub joined : List Bytes → Bytes
joined [] = []
joined (t ∷ ts) = t ++ slashed ts

abbrev pub liveliness_key : ZenohPicoEntity → Bytes
liveliness_key e = joined (each shown (fields e e.node_info))

mangle-Without : (s : Bytes) → Without 0 s → Without 0 (mangle_name s)
unfolding mangle_name
mangle-Without [] p = tt
mangle-Without (c ∷ s) (h, p) = (ground arith, mangle-Without s p)

-- A name holds no slash once it is mangled.
pub mangle-Without_slash : (s : Bytes) → Without b'/' (mangle_name s)
unfolding mangle_name
mangle-Without_slash [] = tt
mangle-Without_slash (c ∷ s) = (ground arith, mangle-Without_slash s)

pub mangle_self : (s : Bytes) → Without b'/' s → mangle_name s ≡ s
unfolding mangle_name
mangle_self [] p = refl
mangle_self (c ∷ s) (h, p) = rw (h, mangle_self s p)

pub take-Without : (b n : ℕ) (s : Bytes) → Without b s → Without b (take n s)
take-Without b zero s p = tt
take-Without b (suc n) [] p = tt
take-Without b (suc n) (c ∷ s) (h, p) = (h, take-Without b n s p)

pub shown-Without : (v : Bytes) → Without 0 (shown v)
shown-Without v = mangle-Without _ (take-Without 0 127 (c_string v) (c_string-Without v))

-- The worker buffer of a string that need not end by a zero byte.
c_string-mangle :
    (n : ℕ) (v : Bytes) → c_string (mangle_name (take n v)) ≡ mangle_name (take n (c_string v))
unfolding mangle_name
c_string-mangle zero v = refl
c_string-mangle (suc n) [] = refl
c_string-mangle (suc n) (c ∷ v) = elim (Bool-cases (c == 0)) [
  | inl z ↦ let m : (mangled c == 0) ≡ true = ground arith in rw (z, m) refl
  | inr z ↦ let m : (mangled c == 0) ≡ false = ground arith in rw (z, m, c_string-mangle n v) refl
]

pub shown_self : (v : Bytes) → Without 0 v → Without b'/' v → length v ≤ 127 → shown v ≡ v
shown_self v z s h = rw (c_string_self v z, take-eq_self 127 v h, mangle_self v s)

module _ (limit : ℕ) where
  string-Appends : (v : Bytes) → Appends limit (shown v) (add_string_value v)
  unfolding add_string_value
  string-Appends v = guarded-Appends limit (shown v)

  loan-Appends : (v : Bytes) → Appends limit (shown v) (add_loan_string_value v)
  unfolding add_loan_string_value
  loan-Appends v =
      subst (λ t. Appends limit t (add_loan_string_value v)) (c_string-mangle 127 v)
        (guarded-Appends limit (c_string (mangle_name (take 127 v))))

  int-Appends : (n : ℕ) → Appends limit (shown (decimal (int_of n))) (add_int_value n)
  unfolding add_int_value
  int-Appends n =
      let v = int_of n in
      subst (λ t. Appends limit t (add_int_value n))
        (sym (
          shown_self (decimal v) (decimal-Without 0 v (omega arith) refl)
            (decimal-Without b'/' v (omega arith) refl) (omega (arith, decimal-length v))))
        (guarded-Appends limit (decimal v))

  delimited-Appends :
      (t u : Bytes) (f g : Cursor → Option Cursor)
      → Appends limit t f
      → Appends limit u g
      → Appends limit (b'/' ∷ (t ++ u)) (add_delimiter ⟫ f ⟫ g)
  unfolding add_delimiter
  delimited-Appends t u f g a b =
      ⟫-Appends limit (b'/' ∷ []) (t ++ u) add_delimiter (f ⟫ g) (guarded-Appends limit (codes "/"))
        (⟫-Appends limit t u f g a b)

  loan-delimited :
      (v u : Bytes) (g : Cursor → Option Cursor)
      → Appends limit u g
      → Appends limit (b'/' ∷ (shown v ++ u)) (add_delimiter ⟫ add_loan_string_value v ⟫ g)
  loan-delimited v u g a =
      delimited-Appends (shown v) u (add_loan_string_value v) g (loan-Appends v) a

  int-delimited :
      (n : ℕ) (u : Bytes) (g : Cursor → Option Cursor)
      → Appends limit u g
      → Appends limit
          (b'/' ∷ (shown (decimal (int_of n)) ++ u))
          (add_delimiter ⟫ add_int_value n ⟫ g)
  int-delimited n u g a =
      delimited-Appends (shown (decimal (int_of n))) u (add_int_value n) g (int-Appends n) a

  topic-Appends :
      (t : Option ZenohPicoTopicInfo)
      → Appends limit (slashed (each shown (topic_fields t))) (topic_part t)
  unfolding topic_part
  topic-Appends none = skip-Appends limit
  topic-Appends (some t) = loan-delimited t.name _ _ (
      loan-delimited t.type _ _
        (loan-delimited t.hash _ _ (loan-delimited t.qos _ _ (skip-Appends limit))))

  node-Appends :
      (e : ZenohPicoEntity) (n : Option ZenohPicoNodeInfo)
      → Appends limit (joined (each shown (fields e n))) (node_part e n)
  unfolding node_part
  node-Appends e none = skip-Appends limit
  node-Appends e (some n) = ⟫-Appends limit _ _ _ _ (string-Appends (codes "@ros2_lv")) (
      loan-delimited n.domain _ _ (
        loan-delimited e.zid _ _ (
          int-delimited e.nid _ _ (
            int-delimited e.id _ _ (
              delimited-Appends _ _ _ _ (string-Appends (conv_entity_type e.type)) (
                loan-delimited n.enclave _ _ (
                  loan-delimited n.ns _ _
                    (loan-delimited n.name _ _ (topic-Appends e.topic_info)))))))))

slashed-Without : (ts : List Bytes) → Without 0 (slashed (each shown ts))
slashed-Without [] = tt
slashed-Without (t ∷ ts) =
    (refl, Without-append 0 (shown t) _ (shown-Without t) (slashed-Without ts))

joined-Without : (ts : List Bytes) → Without 0 (joined (each shown ts))
joined-Without [] = tt
joined-Without (t ∷ ts) = Without-append 0 (shown t) _ (shown-Without t) (slashed-Without ts)

-- The string in a buffer that ends by zeros.
pub c_string-Printed :
    (limit : ℕ) (s : Bytes) (c : Cursor)
    → Without 0 s
    → Printed limit s c
    → c_string c.buf ≡ take limit s
c_string-Printed limit s c z p =
    let n : ℕ = limit + 1 - length (take limit s) in
    let size : limit + 2 - length (take limit s) ≡ suc n = omega (arith, length-take limit s) in
    rw
      (
        p.stored,
        size,
        c_string_of_Without (take limit s) (replicate n 0) (take-Without 0 limit s z),
      )
      refl

-- For every entity `generate_liveliness` stays within its buffer, and gives the first 254 bytes of the
-- entity's fields, each cut to 127 bytes and mangled, joined by slashes.
pub generate_liveliness-key :
    (e : ZenohPicoEntity) → generate_liveliness e ≡ some (take 254 (liveliness_key e))
unfolding generate_liveliness
generate_liveliness-key e =
    let (c, printed, p) = node-Appends 254 e e.node_info [] (start 256) (Printed-start 254) in
    rw
      (
        generate_liveliness,
        printed,
        c_string-Printed 254 (liveliness_key e) c (joined-Without (fields e e.node_info)) p,
      )
      refl
