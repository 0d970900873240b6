-- ===== src/TrustedIp/Tests.antt =====
-- A trusted proxy and its client (trustedip.go).
use gateway_mt.Prelude.{◌≡◌, refl, [], ◌∷◌, ◌++◌}
use gateway_mt.TrustedIp.{count_byte, strip_port, colon}
use gateway_mt.TrustedIp.Parsing.{strip_port-join}

strip_port-join_example :
    (strip_port (49 ∷ (46 ∷ 50 ∷ []) ++ colon ∷ (56 ∷ 48 ∷ [])) ≡ 49 ∷ 46 ∷ 50 ∷ [])
    × (strip_port (49 ∷ 46 ∷ 50 ∷ []) ≡ 49 ∷ 46 ∷ 50 ∷ [])
unfolding count_byte
strip_port-join_example = strip_port-join 49 (46 ∷ 50 ∷ []) (56 ∷ 48 ∷ []) refl refl refl
