-- ===== src/GcsLock/Lists.antt =====
-- combineLists (gcsops.go) merges: sorted lists give a sorted list of the same names.
use gateway_mt.Prelude.{
  ℕ, ◌+◌, ◌≡◌, true, List, [], ◌∷◌, if◌then◌else◌, arith, Bool-cases, inl, inr,
}
use gateway_mt.Prelude.Bytes.{Bytes, eq_bytes, leb_bytes, ltb_bytes}
use gateway_mt.Prelude.Bytes.Order.{leb_bytes_total, eq_bytes_sound}
use gateway_mt.GcsLock.Ops.{combine_lists}

-- how often a name stands in a list
unfoldable pub occurrences : Bytes → List Bytes → ℕ
occurrences x [] = 0
occurrences x (y ∷ ys) = (if eq_bytes y x then 1 else 0) + occurrences x ys

-- a name does not come after the first of a list
abbrev pub IsBefore : Bytes → List Bytes → Type 0
IsBefore x [] = Unit
IsBefore x (y ∷ ys) = leb_bytes x y ≡ true

abbrev pub IsSorted : List Bytes → Type 0
IsSorted [] = Unit
IsSorted (x ∷ xs) = IsBefore x xs × IsSorted xs

IsBefore-combine_lists :
    (x : Bytes) (ps is : List Bytes)
    → IsBefore x ps
    → IsBefore x is
    → IsBefore x (combine_lists ps is)
unfolding combine_lists
IsBefore-combine_lists x [] is h q = q
IsBefore-combine_lists x (p ∷ ps) [] h q = h
IsBefore-combine_lists x (p ∷ ps) (i ∷ is) h q = elim (Bool-cases (ltb_bytes p i)) [
  | inl before ↦ rw before h
  | inr after ↦ rw after q
]

combine_lists-IsSorted :
    (ps is : List Bytes) → IsSorted ps → IsSorted is → IsSorted (combine_lists ps is)
unfolding combine_lists
combine_lists-IsSorted [] is h q = q
combine_lists-IsSorted (p ∷ ps) [] h q = h
combine_lists-IsSorted (p ∷ ps) (i ∷ is) (hp, h) (qi, q) = elim (Bool-cases (ltb_bytes p i)) [
  | inl before ↦
      let le : leb_bytes p i ≡ true = ground (arith, leb_bytes_total p i) in
      rw before
        (IsBefore-combine_lists p ps (i ∷ is) hp le, combine_lists-IsSorted ps (i ∷ is) h (qi, q))
  | inr after ↦
      let le : leb_bytes i p ≡ true = ground (arith, leb_bytes_total i p, eq_bytes_sound p i) in
      rw after
        (IsBefore-combine_lists i (p ∷ ps) is le qi, combine_lists-IsSorted (p ∷ ps) is (hp, h) q)
]

occurrences-combine_lists :
    (x : Bytes) (ps is : List Bytes)
    → occurrences x (combine_lists ps is) ≡ occurrences x ps + occurrences x is
unfolding combine_lists occurrences
occurrences-combine_lists x [] is = omega arith
occurrences-combine_lists x (p ∷ ps) [] = omega arith
occurrences-combine_lists x (p ∷ ps) (i ∷ is) = elim (Bool-cases (ltb_bytes p i)) [
  | inl before ↦ rw before (omega (arith, occurrences-combine_lists x ps (i ∷ is)))
  | inr after ↦ rw after (omega (arith, occurrences-combine_lists x (p ∷ ps) is))
]

-- combineLists of two sorted lists of names is sorted, and every name stands in it as often as in
-- the two lists together.
pub combine_lists_lem :
    (prefixes items : List Bytes)
    → IsSorted prefixes
    → IsSorted items
    → IsSorted (combine_lists prefixes items)
      × ((x : Bytes)
          → occurrences x (combine_lists prefixes items)
            ≡ occurrences x prefixes + occurrences x items)
combine_lists_lem prefixes items h q =
    (combine_lists-IsSorted prefixes items h q, λ x. occurrences-combine_lists x prefixes items)
