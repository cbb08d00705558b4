-- ===== src/Serialize/Tests.antt =====
-- Payloads, tested with a message of one byte.
use rmw_zenoh_pico.Prelude.{◌≡◌, refl, [], ◌∷◌, some, true}
use rmw_zenoh_pico.Serialize.{rmw_zenoh_pico_serialize}
use rmw_zenoh_pico.Fixtures.{byte}

serialized : rmw_zenoh_pico_serialize byte true 9 ≡ some (0 ∷ 1 ∷ 0 ∷ 0 ∷ 9 ∷ [], 5)
unfolding rmw_zenoh_pico_serialize
serialized = refl
