-- ===== src/TxtRecords/Tests.antt =====
-- Fields of a host in three TXT records, and fetches over them.
use gateway_mt.Prelude.{◌≡◌, refl, true, false, List, [], ◌∷◌}
use gateway_mt.Prelude.Bytes.{Bytes, eq_bytes}
use gateway_mt.Prelude.Text.{codes, to_lower}
use gateway_mt.Prelude.Dict
use gateway_mt.Prelude.Dict.{Dict}
use gateway_mt.Errs.{message, ok, err}
use gateway_mt.Middleware.Splitting.{span, is_empty}
use gateway_mt.TxtRecords.{
  TxtAnswer, values_of, digits, lookup, numbered, response_to_txt_record_set, finalize, add_answers,
  add_all, add, add_field, dashed, sort_values, sort_strings, insert_string,
}
use gateway_mt.TxtRecords.Numbered.{concatenated, lookup-concatenated}
use gateway_mt.TxtRecords.Cache.{Accesses, QueryResult, lookup_either, fetch}
use gateway_mt.TxtRecords.Fetching.{IsBounded, fetch-IsBounded, fetch-cached_grant}

-- the grant is in two parts, and the second comes first
abbrev answers : List TxtAnswer
answers =
    record { ttl = 60; txt = codes "Storj_Access-2:b" ∷ codes "no field" ∷ [] }
    ∷ record { ttl = 300; txt = codes "storj-access-1:a" ∷ [] }
    ∷ []

lookup-concatenated_example :
    lookup (codes "storj-access") (response_to_txt_record_set to_lower answers)
    ≡ concatenated (codes "a" ∷ codes "b" ∷ [])
unfolding response_to_txt_record_set finalize add_answers add_all add add_field dashed sort_values
    sort_strings insert_string values_of to_lower span eq_bytes digits Dict.lookup Dict.insert
lookup-concatenated_example =
    lookup-concatenated (codes "storj-access") (response_to_txt_record_set to_lower answers)
      (codes "a" ∷ codes "b" ∷ []) refl (([], refl), (([], refl), refl))

-- grants are the text "ab"
abbrev accesses : Accesses Bytes
accesses = record {
  is_production_access_grant = λ s. eq_bytes s (codes "ab");
  parse_bool = λ s. false;
  parse_access = λ s ip. ok s;
  to_lower = to_lower;
}

fetch-cached_grant_example :
    ((fetch Bytes accesses 1000 false (codes "h") [] 5 7 (ok answers) []).0 ≡ err message)
    × ((q : QueryResult Bytes) × (q.access ≡ codes "ab")
        × ((fetch Bytes accesses 1000 true (codes "h") [] 5 7 (ok answers) []).0 ≡ ok q)
        × ((fetch Bytes accesses 1000 false
              (codes "h")
              []
              8
              9
              (ok [])
              (fetch Bytes accesses 1000 true (codes "h") [] 5 7 (ok answers) []).1).0
            ≡ ok q))
unfolding response_to_txt_record_set finalize add_answers add_all add add_field dashed sort_values
    sort_strings insert_string values_of to_lower span eq_bytes digits Dict.lookup Dict.insert
    lookup_either lookup numbered is_empty
fetch-cached_grant_example =
    fetch-cached_grant Bytes accesses 1000 (codes "h") [] [] 5 7 8 9 answers [] [] (codes "ab") refl
      refl refl

fetch-IsBounded_example :
    IsBounded Bytes accesses 1000 7
      (fetch Bytes accesses 1000 true (codes "h") [] 5 7 (ok answers) []).1
unfolding Dict.lookup
fetch-IsBounded_example =
    fetch-IsBounded Bytes accesses 1000 true (codes "h") [] 5 7 (ok answers) []
      (record { within = λ host r h. absurd (let g = h in cc) })
