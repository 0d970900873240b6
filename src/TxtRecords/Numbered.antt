-- ===== src/TxtRecords/Numbered.antt =====
-- The loop of Lookup (txtrecordset.go) over numbered fields comes to an end, since the fields have different names.
use gateway_mt.Prelude.{
  ℕ, zero, suc, ◌+◌, ◌-◌, ◌*◌, ◌/◌, ◌%◌, ◌<◌, ◌≤◌, ◌≡◌, refl, sym, ap, ◌∙◌, ◌⊎◌, inl, inr, false,
  some, List, [], ◌∷◌, ◌++◌, ◌==◌, ==_iff, ltb, length, Bool-cases, Option-cases, arith,
}
use mathlib.Core.Path.{subst}
use gateway_mt.Prelude.Bytes.{Bytes, eq_bytes}
use gateway_mt.Prelude.Bytes.Order.{eq_bytes_ne}
use gateway_mt.Prelude.Dict
use gateway_mt.Prelude.Dict.{Dict}
use gateway_mt.TxtRecords.{TxtRecordSet, values_of, digits, subfield, numbered, lookup}

-- the number that digits spell
value_from : ℕ → Bytes → ℕ
value_from acc [] = acc
value_from acc (c ∷ s) = value_from (acc * 10 + (c - 48)) s

value_from-append :
    (acc : ℕ) (xs : Bytes) (c : ℕ)
    → value_from acc (xs ++ (c ∷ [])) ≡ value_from acc xs * 10 + (c - 48)
unfolding value_from
value_from-append acc [] c = refl
value_from-append acc (x ∷ xs) c = value_from-append (acc * 10 + (x - 48)) xs c

value_from-digits : (fuel n : ℕ) → n < fuel → value_from 0 (digits fuel n) ≡ n
unfolding value_from digits
value_from-digits zero n h = absurd (omega arith)
value_from-digits (suc fuel) n h = elim (Bool-cases (ltb n 10)) [
  | inl small ↦ rw small (omega arith)
  | inr large ↦
      let big : 10 ≤ n = ground arith in
      let ih = value_from-digits fuel (n / 10) (omega arith) in
      let last = value_from-append 0 (digits fuel (n / 10)) (48 + n % 10) in
      rw large (omega (arith, ih, last))
]

cancel : (xs ys zs : Bytes) → xs ++ ys ≡ xs ++ zs → ys ≡ zs
cancel [] ys zs h = h
cancel (x ∷ xs) ys zs h = cancel xs ys zs (ap (λ l. elim l [ [] ↦ [] | y ∷ rest ↦ rest ]) h)

subfield-injective : (field : Bytes) (i j : ℕ) → subfield field i ≡ subfield field j → i ≡ j
subfield-injective field i j h =
    let same = cancel field (45 ∷ digits (suc i) i) (45 ∷ digits (suc j) j) h in
    let tails = ap (λ l. elim l [ [] ↦ [] | y ∷ rest ↦ rest ]) same in
    sym (value_from-digits (suc i) i (omega arith))
    ∙ ap (value_from 0) tails
    ∙ value_from-digits (suc j) j (omega arith)

length-remove : (k : Bytes) (vals : Dict (List Bytes)) → length (Dict.remove k vals) ≤ length vals
unfolding Dict.remove
length-remove k [] = omega arith
length-remove k ((j, w) ∷ vals) = ground (arith, length-remove k vals)

length-remove-some :
    (k : Bytes) (vals : Dict (List Bytes)) (vs : List Bytes)
    → Dict.lookup k vals ≡ some vs
    → length (Dict.remove k vals) < length vals
unfolding Dict.remove Dict.lookup
length-remove-some k [] vs h = absurd (let g = h in cc)
length-remove-some k ((j, w) ∷ vals) vs h = elim (Bool-cases (eq_bytes j k)) [
  | inl same ↦ rw same (let l = length-remove k vals in omega arith)
  | inr other ↦
      let left : Dict.lookup k vals ≡ some vs = rw other at h in
      rw other (let l = length-remove-some k vals vs left in omega arith)
]

-- the fields numbered from `i` on are there
abbrev IsThere : ℕ → ℕ → Bytes → Dict (List Bytes) → Type 0
IsThere n i field vals =
    (j : ℕ)
    → i ≤ j
    → j < i + n
    → (vs : List Bytes) × (Dict.lookup (subfield field j) vals ≡ some vs)

-- So many fields with different names need as many entries.
IsThere-length :
    (n i : ℕ) (field : Bytes) (vals : Dict (List Bytes)) → IsThere n i field vals → n ≤ length vals
IsThere-length zero i field vals h = omega arith
IsThere-length (suc n) i field vals h =
    let (vs, first) = h i (omega arith) (omega arith) in
    let smaller = length-remove-some (subfield field i) vals vs first in
    let rest = IsThere-length n (suc i) field (Dict.remove (subfield field i) vals) (λ j low high.
      let (ws, there) = h j (omega arith) (omega arith) in
      let differ : eq_bytes (subfield field i) (subfield field j) ≡ false =
        eq_bytes_ne (subfield field i) (subfield field j)
          (λ same. let e = subfield-injective field i j same in omega arith) in
      (ws, Dict.lookup-remove (subfield field i) (subfield field j) vals ∙ rw differ there)) in
    omega arith

-- The loop stops at a field that is not there, with any fuel that reaches it.
stops :
    (n m i : ℕ) (field : Bytes) (vals : Dict (List Bytes))
    → (numbered n i field vals ≡ numbered m i field vals)
      ⊎ (IsThere n i field vals ⊎ IsThere m i field vals)
unfolding numbered values_of
stops zero m i field vals = inr (inl (λ j low high. absurd (omega arith)))
stops (suc n) zero i field vals = inr (inr (λ j low high. absurd (omega arith)))
stops (suc n) (suc m) i field vals = elim (Option-cases (Dict.lookup (subfield field i) vals)) [
  | inl absent ↦ inl (rw (numbered, values_of, absent) refl)
  | inr ([], found) ↦ inl (rw (numbered, values_of, found) refl)
  | inr (v ∷ vs, found) ↦ elim (stops n m (suc i) field vals) [
    | inl same ↦ inl (rw (numbered, values_of, found, same) refl)
    | inr (inl more) ↦ inr (inl (longer n (v ∷ vs) found more))
    | inr (inr more) ↦ inr (inr (longer m (v ∷ vs) found more))
  ]
]
  where
    longer :
        (n : ℕ) (vs : List Bytes)
        → Dict.lookup (subfield field i) vals ≡ some vs
        → IsThere n (suc i) field vals
        → IsThere (suc n) i field vals
    longer n vs found more j low high = elim (Bool-cases (i == j)) [
      | inl same ↦
          let at : i ≡ j = (==_iff i j).0 same in
          (vs, subst (λ k. Dict.lookup (subfield field k) vals ≡ some vs) at found)
      | inr other ↦ more j (ground arith) (omega arith)
    ]

-- The loop has fuel enough with one more than the number of fields.
pub numbered-enough :
    (fuel i : ℕ) (field : Bytes) (vals : Dict (List Bytes))
    → length vals < fuel
    → numbered fuel i field vals ≡ numbered (suc (length vals)) i field vals
numbered-enough fuel i field vals h = elim (stops fuel (suc (length vals)) i field vals) [
  | inl same ↦ same
  | inr (inl more) ↦ absurd (let l = IsThere-length fuel i field vals more in omega arith)
  | inr (inr more) ↦
      absurd (let l = IsThere-length (suc (length vals)) i field vals more in omega arith)
]

-- the first values of the fields numbered from `i` on, up to one that is not there
abbrev pub IsNumbered : ℕ → List Bytes → Bytes → Dict (List Bytes) → Type 0
IsNumbered i [] field vals = values_of (subfield field i) vals ≡ []
IsNumbered i (p ∷ ps) field vals =
    ((vs : List Bytes) × (values_of (subfield field i) vals ≡ p ∷ vs))
    × IsNumbered (suc i) ps field vals

abbrev pub concatenated : List Bytes → Bytes
concatenated [] = []
concatenated (p ∷ ps) = p ++ concatenated ps

numbered-concatenated :
    (fuel i : ℕ) (ps : List Bytes) (field : Bytes) (vals : Dict (List Bytes))
    → length ps < fuel
    → IsNumbered i ps field vals
    → numbered fuel i field vals ≡ concatenated ps
unfolding numbered
numbered-concatenated zero i ps field vals h parts = absurd (omega arith)
numbered-concatenated (suc fuel) i [] field vals h parts = rw (numbered, parts) refl
numbered-concatenated (suc fuel) i (p ∷ ps) field vals h ((vs, there), parts) =
    rw (numbered, there)
      (ap (λ s. p ++ s) (numbered-concatenated fuel (suc i) ps field vals (omega arith) parts))

-- If a field has no values, then Lookup returns the first values of the fields with its name and
-- the numbers from 1 on, one after the other, up to the first number whose field has no values.
pub lookup-concatenated :
    (field : Bytes) (set : TxtRecordSet) (ps : List Bytes)
    → values_of field set.vals ≡ []
    → IsNumbered 1 ps field set.vals
    → lookup field set ≡ concatenated ps
unfolding lookup
lookup-concatenated field set ps absent parts =
    let fuel = suc (length set.vals + length ps) in
    rw (lookup, absent)
      (sym (numbered-enough fuel 1 field set.vals (omega arith))
        ∙ numbered-concatenated fuel 1 ps field set.vals (omega arith) parts)
