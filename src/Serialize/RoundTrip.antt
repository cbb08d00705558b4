-- ===== src/Serialize/RoundTrip.antt =====
-- A serialized message is read back; and what a payload without a whole header does.
use rmw_zenoh_pico.Prelude.{
  ℕ, ◌+◌, ◌-◌, ◌%◌, ◌^◌, ◌<◌, ◌≡◌, true, Bytes, some, [], ◌∷◌, ◌++◌, length, take, drop, replicate,
  arith, length-take, length-drop, length-replicate, drop-append, drop-eq-nil, sym, ap, ◌∙◌,
}
use mathlib.Core.Path.{subst, ap₂}
use rmw_zenoh_pico.Serialize.{
  MessageTypeSupport, rmw_zenoh_pico_serialize, rmw_zenoh_pico_deserialize,
}

-- The CDR library's contract for a message: it fills a buffer of the announced size, and reads it back
-- when it is told the buffer's size.
pub record IsCdr {RosMessage : Type 0} (callbacks : MessageTypeSupport RosMessage) : Type 0 where
  pub fills :
      (m : RosMessage) (b : Bytes)
      → length b ≡ callbacks.get_serialized_size m
      → length (callbacks.cdr_serialize m b).0 ≡ length b
  pub reads_back :
      (m : RosMessage) (b : Bytes)
      → length b ≡ callbacks.get_serialized_size m
      → callbacks.cdr_deserialize (callbacks.cdr_serialize m b).0 (length b) ≡ some m

module _ {RosMessage : Type 0} (callbacks : MessageTypeSupport RosMessage) where
  -- The CDR part of the buffer, as it is handed to `cdr_serialize`.
  abbrev body : RosMessage → Bytes
  body m = drop 4 (replicate (callbacks.get_serialized_size m + 4) 0)

  length-body : (m : RosMessage) → length (body m) ≡ callbacks.get_serialized_size m
  length-body m =
      let k = callbacks.get_serialized_size m in
      omega (arith, length-drop {A = ℕ} 4 (replicate (k + 4) 0), length-replicate {A = ℕ} (k + 4) 0)

  -- The buffer that is sent: the header, and behind it what `cdr_serialize` left.
  serialize_lem :
      (m : RosMessage)
      → rmw_zenoh_pico_serialize callbacks true m
        ≡ some (
          0 ∷ 1 ∷ 0 ∷ 0 ∷ (callbacks.cdr_serialize m (body m)).0,
          callbacks.get_serialized_size m + 4,
        )
  unfolding rmw_zenoh_pico_serialize
  serialize_lem m =
      let k = callbacks.get_serialized_size m in
      let zeroed : Bytes = replicate (k + 4) 0 in
      let filled = (callbacks.cdr_serialize m (drop 4 zeroed)).0 in
      let front : length (take 4 zeroed) ≡ 4 =
        omega (arith, length-take 4 zeroed, length-replicate {A = ℕ} (k + 4) 0) in
      let e : drop 4 (take 4 zeroed ++ filled) ≡ filled =
        subst (λ i. drop i (take 4 zeroed ++ filled) ≡ filled) front
          (drop-append (take 4 zeroed) filled) in
      ap (λ r. some (0 ∷ 1 ∷ 0 ∷ 0 ∷ r, k + 4)) e

  -- A serialized message is the header `00 01 00 00` and the CDR bytes, its length is the size that is
  -- reported, and deserializing it gives the message back, if it is shorter than 2 ^ 64 bytes.
  pub deserialize-serialize :
      IsCdr callbacks
      → (m : RosMessage) (b : Bytes) (n : ℕ)
      → rmw_zenoh_pico_serialize callbacks true m ≡ some (b, n)
      → n < 2 ^ 64
      → (take 4 b ≡ 0 ∷ 1 ∷ 0 ∷ 0 ∷ [])
        × (length b ≡ n)
        × (rmw_zenoh_pico_deserialize callbacks (some b) n ≡ some m)
  unfolding rmw_zenoh_pico_deserialize
  deserialize-serialize cdr m b n h lt =
      let k = callbacks.get_serialized_size m in
      let filled = (callbacks.cdr_serialize m (body m)).0 in
      let sent : some (0 ∷ 1 ∷ 0 ∷ 0 ∷ filled, k + 4) ≡ some (b, n) = sym (serialize_lem m) ∙ h in
      let eb : 0 ∷ 1 ∷ 0 ∷ 0 ∷ filled ≡ b = ground (arith, sent) in
      let en : k + 4 ≡ n = ground (arith, sent) in
      let size : (n + 2 ^ 64 - 4) % 2 ^ 64 ≡ length (body m) = omega (arith, length-body m) in
      let read : callbacks.cdr_deserialize filled ((n + 2 ^ 64 - 4) % 2 ^ 64) ≡ some m =
        rw size (cdr.reads_back m (body m) (length-body m)) in
      (
        rw (sym eb),
        rw (sym eb) (omega (arith, cdr.fills m (body m) (length-body m), length-body m)),
        subst (λ x. rmw_zenoh_pico_deserialize callbacks (some x) n ≡ some m) eb read,
      )

  -- For a payload shorter than the header, rmw_zenoh_pico_deserialize announces to the CDR library a buffer
  -- of nearly 2 ^ 64 bytes, although nothing is left of the payload there.
  pub deserialize_short :
      (payload : Bytes)
      → length payload < 4
      → rmw_zenoh_pico_deserialize callbacks (some payload) (length payload)
        ≡ callbacks.cdr_deserialize [] (2 ^ 64 - (4 - length payload))
  unfolding rmw_zenoh_pico_deserialize
  deserialize_short payload lt =
      let nothing : drop 4 payload ≡ [] = drop-eq-nil 4 payload (omega arith) in
      let size : (length payload + 2 ^ 64 - 4) % 2 ^ 64 ≡ 2 ^ 64 - (4 - length payload) =
        omega arith in
      ap₂ callbacks.cdr_deserialize nothing size

  serialize-size :
      (m : RosMessage) (b : Bytes) (n : ℕ)
      → rmw_zenoh_pico_serialize callbacks true m ≡ some (b, n)
      → n ≡ callbacks.get_serialized_size m + 4
  unfolding rmw_zenoh_pico_serialize
  serialize-size m b n e = ground (arith, e)

  -- A serialized message is read back from all its bytes.
  pub deserialize_all :
      IsCdr callbacks
      → (m : RosMessage) (b : Bytes) (n : ℕ)
      → rmw_zenoh_pico_serialize callbacks true m ≡ some (b, n)
      → callbacks.get_serialized_size m + 4 < 2 ^ 64
      → rmw_zenoh_pico_deserialize callbacks (some b) (length b) ≡ some m
  deserialize_all cdr m b n e short =
      let (front, whole, read) =
        deserialize-serialize cdr m b n e (omega (arith, serialize-size m b n e, short)) in
      subst (λ k. rmw_zenoh_pico_deserialize callbacks (some b) k ≡ some m) (sym whole) read
