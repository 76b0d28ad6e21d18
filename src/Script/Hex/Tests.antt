-- ===== src/Script/Hex/Tests.antt =====
-- Hexadecimal texts of two bytes.
use solana_proxy.Prelude.{◌≡◌, refl, [], ◌∷◌}
use solana_proxy.Script.Hex.{bytes_to_hex, bytes_from_hex}

run_two : bytes_from_hex (bytes_to_hex (18 ∷ 255 ∷ [])) ≡ 18 ∷ 255 ∷ []
unfolding bytes_to_hex bytes_from_hex
run_two = refl
