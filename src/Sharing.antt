-- ===== src/Sharing.antt =====
-- pkg/linksharing/sharing/utils.go: the flags in the query of a linksharing request.
use gateway_mt.Prelude.{ℕ, ◌≡◌, refl, Bool, true, not, ◌||◌, none, some, List, [], ◌∷◌}
use gateway_mt.Prelude.Bytes.{Bytes, eq_bytes}
use gateway_mt.Prelude.Dict
use gateway_mt.Prelude.Dict.{Dict}
use gateway_mt.Prelude.Text.{codes}

-- the words that switch a flag off
unfoldable pub is_off : Bytes → Bool
is_off s =
    eq_bytes s (codes "no")
    || (eq_bytes s (codes "false") || (eq_bytes s (codes "0") || eq_bytes s (codes "off")))

-- `to_lower` is strings.ToLower.
module _ (to_lower : Bytes → Bytes) where
  -- the value of a flag that was given; no value is on
  unfoldable pub flag_value : Bytes → Bool
  unfolding is_off
  flag_value [] = true
  flag_value (c ∷ s) = not (is_off (to_lower (c ∷ s)))

  -- queryFlagLookup
  unfoldable pub query_flag_lookup : Dict (List Bytes) → Bytes → Bool → Bool
  unfolding flag_value
  query_flag_lookup q name def_value = elim (Dict.lookup name q) [
    | none ↦ def_value
    | some vals ↦ elim vals [ [] ↦ def_value | v ∷ rest ↦ flag_value v ]
  ]

  -- For two queries whose first values of a flag are not empty, queryFlagLookup answers the same if
  -- strings.ToLower makes the same text of these values, whatever the default values and the
  -- further values are.
  pub query_flag_lookup_lem :
      (q r : Dict (List Bytes)) (name : Bytes) (c d : ℕ) (v w : Bytes) (vs ws : List Bytes)
      (x y : Bool)
      → Dict.lookup name q ≡ some ((c ∷ v) ∷ vs)
      → Dict.lookup name r ≡ some ((d ∷ w) ∷ ws)
      → to_lower (c ∷ v) ≡ to_lower (d ∷ w)
      → query_flag_lookup q name x ≡ query_flag_lookup r name y
  unfolding query_flag_lookup flag_value
  query_flag_lookup_lem q r name c d v w vs ws x y hq hr same =
      rw (hq, hr, query_flag_lookup, same) refl
