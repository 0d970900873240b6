-- ===== src/TxtRecords.antt =====
-- pkg/linksharing/sharing/txtrecordset.go, and ResponseToTXTRecordSet of dns.go: the fields of the TXT records of
-- a host. A duration is in nanoseconds.
pub mod Numbered
pub mod Cache
pub mod Fetching
mod Tests
use gateway_mt.Prelude.{
  ℕ, zero, suc, ◌+◌, ◌*◌, ◌/◌, ◌%◌, Bool, true, false, not, Option, none, some, List, [], ◌∷◌, ◌++◌,
  ◌==◌, ltb, length, map, if◌then◌else◌,
}
use gateway_mt.Prelude.Bytes.{Bytes, leb_bytes}
use gateway_mt.Prelude.Dict
use gateway_mt.Prelude.Dict.{Dict}
use gateway_mt.Middleware.Splitting.{span}

pub record TxtRecordSet : Type 0 where
  pub vals : Dict (List Bytes)
  pub min_ttl : ℕ

-- NewTXTRecordSet
abbrev pub new_txt_record_set : TxtRecordSet
new_txt_record_set = record { vals = []; min_ttl = 86400000000000 }

-- strings.ReplaceAll(key, "_", "-")
unfoldable pub dashed : Bytes → Bytes
dashed [] = []
dashed (c ∷ s) = (if c == 95 then 45 else c) ∷ dashed s

unfoldable pub values_of : Bytes → Dict (List Bytes) → List Bytes
values_of field vals = elim (Dict.lookup field vals) [ none ↦ [] | some vs ↦ vs ]

-- `to_lower` is strings.ToLower.
module _ (to_lower : Bytes → Bytes) where
  -- what Add does with the parts of a text, before the first colon and from it on
  unfoldable pub add_field : Bytes × Bytes → Dict (List Bytes) → Dict (List Bytes)
  unfolding dashed values_of
  add_field (field, []) vals = vals
  add_field (field, colon ∷ value) vals =
      let key = dashed (to_lower field) in Dict.insert key (values_of key vals ++ (value ∷ [])) vals

  -- Add
  unfoldable pub add : Bytes → ℕ → TxtRecordSet → TxtRecordSet
  unfolding add_field span
  add txt ttl set = record {
    vals = add_field (span (λ c. not (c == 58)) txt) set.vals;
    min_ttl = if ltb ttl set.min_ttl then ttl else set.min_ttl;
  }

-- sort.Strings
unfoldable pub insert_string : Bytes → List Bytes → List Bytes
insert_string x [] = x ∷ []
insert_string x (y ∷ ys) =
    let rest = insert_string x ys in if leb_bytes x y then x ∷ y ∷ ys else y ∷ rest

unfoldable pub sort_strings : List Bytes → List Bytes
unfolding insert_string
sort_strings [] = []
sort_strings (x ∷ xs) = insert_string x (sort_strings xs)

-- Finalize
unfoldable pub sort_values : Dict (List Bytes) → Dict (List Bytes)
unfolding sort_strings
sort_values [] = []
sort_values ((key, vs) ∷ vals) = (key, sort_strings vs) ∷ sort_values vals

unfoldable pub finalize : TxtRecordSet → TxtRecordSet
unfolding sort_values
finalize set = record set { vals = sort_values set.vals }

-- the digits of a number, on fuel: the number is less than the fuel
unfoldable pub digits : ℕ → ℕ → Bytes
digits zero n = []
digits (suc fuel) n =
    let rest = digits fuel (n / 10) in
    if ltb n 10 then (48 + n) ∷ [] else rest ++ ((48 + n % 10) ∷ [])

-- fmt.Sprintf("%s-%d", field, i)
abbrev pub subfield : Bytes → ℕ → Bytes
subfield field i = field ++ (45 ∷ digits (suc i) i)

-- the loop of Lookup, on fuel
unfoldable pub numbered : ℕ → ℕ → Bytes → Dict (List Bytes) → Bytes
unfolding values_of digits
numbered zero i field vals = []
numbered (suc fuel) i field vals =
    let rest = numbered fuel (suc i) field vals in
    elim (values_of (subfield field i) vals) [ [] ↦ [] | v ∷ vs ↦ v ++ rest ]

-- Lookup
unfoldable pub lookup : Bytes → TxtRecordSet → Bytes
unfolding numbered
lookup field set = elim (values_of field set.vals) [
  | v ∷ vs ↦ v
  | [] ↦ numbered (suc (length set.vals)) 1 field set.vals
]

-- the texts and the time to live, in seconds, of a TXT record of an answer
pub record TxtAnswer : Type 0 where
  pub ttl : ℕ
  pub txt : List Bytes

-- `to_lower` is strings.ToLower.
module _ (to_lower : Bytes → Bytes) where
  unfoldable pub add_all : List Bytes → ℕ → TxtRecordSet → TxtRecordSet
  unfolding add
  add_all [] ttl set = set
  add_all (txt ∷ txts) ttl set = add_all txts ttl (add to_lower txt ttl set)

  unfoldable pub add_answers : List TxtAnswer → TxtRecordSet → TxtRecordSet
  unfolding add_all
  add_answers [] set = set
  add_answers (a ∷ answers) set = add_answers answers (add_all a.txt (a.ttl * 1000000000) set)

  -- ResponseToTXTRecordSet, on the TXT records of the answer
  unfoldable pub response_to_txt_record_set : List TxtAnswer → TxtRecordSet
  unfolding add_answers finalize
  response_to_txt_record_set answers = finalize (add_answers answers new_txt_record_set)
