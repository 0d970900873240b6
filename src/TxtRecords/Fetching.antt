-- ===== src/TxtRecords/Fetching.antt =====
-- The cache of txtrecords.go over several fetches: how long records stay in it, and whose grants it serves.
use gateway_mt.Prelude.{
  ℕ, ◌+◌, ◌≤◌, ◌≡◌, refl, sym, ap, ◌∙◌, inl, inr, Bool, true, false, none, some, List, ltb,
  Bool-cases, Option-cases, arith,
}
use gateway_mt.Prelude.Bytes.{Bytes, eq_bytes}
use gateway_mt.Prelude.Bytes.Order.{eq_bytes_refl}
use gateway_mt.Prelude.Text.{codes}
use gateway_mt.Prelude.Dict
use gateway_mt.Prelude.Dict.{Dict}
use gateway_mt.Errs.{message, Result, ok, err, Result-cases}
use gateway_mt.TxtRecords.{TxtRecordSet, TxtAnswer, response_to_txt_record_set}
use gateway_mt.TxtRecords.Cache.{
  Accesses, QueryResult, TxtRecord, lookup_either, record_of, query_access_from_dns, was_updated,
  keep, update_cache, result_of, fetch_access_for_host, fetch,
}

module _ (Access : Type 0) (l : Accesses Access) (max_ttl : ℕ) where
  -- every record of the cache expires within the maximal time to live
  pub record IsBounded (now : ℕ) (cache : Dict (TxtRecord Access)) : Type 0 where
    pub within :
        (host : Bytes) (r : TxtRecord Access)
        → Dict.lookup host cache ≡ some r
        → r.expiration ≤ now + max_ttl

  -- the same of the result of a query
  abbrev IsShort : ℕ → Result (TxtRecord Access) → Type 0
  IsShort now q = (r : TxtRecord Access) → q ≡ ok r → r.expiration ≤ now + max_ttl

  record_of-IsShort :
      (set : TxtRecordSet) (allow : Bool) (client_ip : Bytes) (now : ℕ)
      → IsShort now (record_of Access l max_ttl set allow client_ip now)
  unfolding record_of
  record_of-IsShort set allow client_ip now r h = ground (arith, h)

  query-IsShort :
      (answers : Result (List TxtAnswer)) (allow : Bool) (client_ip : Bytes) (now : ℕ)
      → IsShort now (query_access_from_dns Access l max_ttl answers allow client_ip now)
  unfolding query_access_from_dns
  query-IsShort (err e) allow client_ip now r h = absurd (let g = h in cc)
  query-IsShort (ok answers) allow client_ip now r h =
      record_of-IsShort (response_to_txt_record_set l.to_lower answers) allow client_ip now r h

  keep-IsBounded :
      (now : ℕ) (host : Bytes) (q : Result (TxtRecord Access)) (cache : Dict (TxtRecord Access))
      → IsShort now q
      → IsBounded now cache
      → IsBounded now (keep Access l max_ttl host q cache).1
  unfolding keep
  keep-IsBounded now host (err e) cache short old = record {
    within = λ j r h.
        let g = sym (Dict.lookup-remove host j cache) ∙ h in
        elim (Bool-cases (eq_bytes host j)) [
          | inl same ↦ absurd (let f = rw same at g in cc)
          | inr other ↦ old.within j r (rw other at g)
        ];
  }
  keep-IsBounded now host (ok q) cache short old = record {
    within = λ j r h.
        let g = sym (Dict.lookup-insert host j q cache) ∙ h in
        elim (Bool-cases (eq_bytes host j)) [
          | inl same ↦ short r (let f = rw same at g in cc)
          | inr other ↦ old.within j r (rw other at g)
        ];
  }

  update_cache-IsBounded :
      (now current : ℕ) (host : Bytes) (q : Result (TxtRecord Access))
      (cache : Dict (TxtRecord Access))
      → IsShort now q
      → IsBounded now cache
      → IsBounded now (update_cache Access l max_ttl host current q cache).1
  unfolding update_cache
  update_cache-IsBounded now current host q cache short old =
      elim (Option-cases (Dict.lookup host cache)) [
        | inl absent ↦ rw (update_cache, absent) (keep-IsBounded now host q cache short old)
        | inr (found, there) ↦ elim (Bool-cases (was_updated Access l max_ttl found current)) [
          | inl raced ↦ rw (update_cache, there, raced) old
          | inr alone ↦ rw (update_cache, there, alone) (keep-IsBounded now host q cache short old)
        ]
      ]

  -- If no record of the cache expires later than the maximal time to live from the time at which
  -- the query of a fetch ends, then this holds after the fetch, whatever the time at which it
  -- looks at the cache and whatever the DNS server answers.
  pub fetch-IsBounded :
      (allow : Bool) (host client_ip : Bytes) (now queried_at : ℕ)
      (answers : Result (List TxtAnswer)) (cache : Dict (TxtRecord Access))
      → IsBounded queried_at cache
      → IsBounded queried_at
          (fetch Access l max_ttl allow host client_ip now queried_at answers cache).1
  unfolding fetch fetch_access_for_host
  fetch-IsBounded allow host client_ip now queried_at answers cache old =
      let queried = query_access_from_dns Access l max_ttl answers allow client_ip queried_at in
      let short = query-IsShort answers allow client_ip queried_at in
      elim (Option-cases (Dict.lookup host cache)) [
        | inl absent ↦
            rw (fetch, fetch_access_for_host, absent)
              (update_cache-IsBounded queried_at 0 host queried cache short old)
        | inr (found, there) ↦ elim (Bool-cases (ltb found.expiration now)) [
          | inl late ↦
              rw (fetch, fetch_access_for_host, there, late)
                (update_cache-IsBounded queried_at found.expiration host queried cache short old)
          | inr fresh ↦ rw (fetch, fetch_access_for_host, there, fresh) old
        ]
      ]

  -- A record in the cache is served to every caller.
  fetch-cached :
      (allow : Bool) (host client_ip : Bytes) (now queried_at : ℕ)
      (answers : Result (List TxtAnswer)) (cache : Dict (TxtRecord Access)) (r : TxtRecord Access)
      → Dict.lookup host cache ≡ some r
      → (fetch Access l max_ttl allow host client_ip now queried_at answers cache).0
        ≡ ok r.query_result
  unfolding fetch fetch_access_for_host
  fetch-cached allow host client_ip now queried_at answers cache r there =
      elim (Bool-cases (ltb r.expiration now)) [
        | inl late ↦ rw (fetch, fetch_access_for_host, there, late) refl
        | inr fresh ↦ rw (fetch, fetch_access_for_host, there, fresh) refl
      ]

  update_cache-absent :
      (host : Bytes) (q : Result (TxtRecord Access)) (cache : Dict (TxtRecord Access))
      → Dict.lookup host cache ≡ none
      → update_cache Access l max_ttl host 0 q cache ≡ keep Access l max_ttl host q cache
  unfolding update_cache
  update_cache-absent host q cache absent = rw (update_cache, absent) refl

  -- A fetch for a host that is not in the cache queries the DNS server.
  fetch-absent :
      (allow : Bool) (host client_ip : Bytes) (now queried_at : ℕ) (answers : List TxtAnswer)
      (cache : Dict (TxtRecord Access))
      → Dict.lookup host cache ≡ none
      → fetch Access l max_ttl allow host client_ip now queried_at (ok answers) cache ≡ (
          let kept =
            keep Access l max_ttl host
              (record_of Access l max_ttl
                (response_to_txt_record_set l.to_lower answers)
                allow
                client_ip
                queried_at)
              cache in
          (result_of Access l max_ttl kept.0, kept.1))
  unfolding fetch fetch_access_for_host update_cache query_access_from_dns
  fetch-absent allow host client_ip now queried_at answers cache absent =
      rw (fetch, fetch_access_for_host, absent)
        (ap
          (λ (p : Result (TxtRecord Access) × Dict (TxtRecord Access)).
            (result_of Access l max_ttl p.0, p.1))
          (update_cache-absent host
            (record_of Access l max_ttl (response_to_txt_record_set l.to_lower answers) allow
              client_ip queried_at)
            cache absent))

  record_of-allowed :
      (set : TxtRecordSet) (client_ip : Bytes) (now : ℕ) (a : Access)
      → l.parse_access
          (lookup_either Access l max_ttl (codes "storj-access") (codes "storj-grant") set)
          client_ip
        ≡ ok a
      → (r : TxtRecord Access) × (record_of Access l max_ttl set true client_ip now ≡ ok r)
        × (r.query_result.access ≡ a)
  unfolding record_of
  record_of-allowed set client_ip now a parsed =
      elim (Result-cases (record_of Access l max_ttl set true client_ip now)) [
        | inl (r, made) ↦ let g = rw (record_of, parsed) at made in (r, made, ground (arith, g))
        | inr (e, failed) ↦ absurd (let g = rw (record_of, parsed) at failed in cc)
      ]

  -- If a host is not in the cache, its TXT records name a production access grant, and the grant
  -- can be parsed, then FetchAccessForHostNoAccessGrant fails, but after FetchAccessForHost has
  -- fetched the host it returns the result with that grant too, for any client, at any time and
  -- whatever the DNS server answers then.
  pub fetch-cached_grant :
      (host client_ip other_ip : Bytes) (now queried_at later queried_later : ℕ)
      (answers others : List TxtAnswer) (cache : Dict (TxtRecord Access)) (a : Access)
      → Dict.lookup host cache ≡ none
      → l.is_production_access_grant (
          lookup_either Access l max_ttl
            (codes "storj-access")
            (codes "storj-grant")
            (response_to_txt_record_set l.to_lower answers))
        ≡ true
      → l.parse_access
          (lookup_either Access l max_ttl
            (codes "storj-access")
            (codes "storj-grant")
            (response_to_txt_record_set l.to_lower answers))
          client_ip
        ≡ ok a
      → ((fetch Access l max_ttl false host client_ip now queried_at (ok answers) cache).0
          ≡ err message)
        × ((q : QueryResult Access) × (q.access ≡ a)
            × ((fetch Access l max_ttl true host client_ip now queried_at (ok answers) cache).0
                ≡ ok q)
            × ((fetch Access l max_ttl false host other_ip later queried_later
                  (ok others)
                  (fetch Access l max_ttl true host client_ip now queried_at
                    (ok answers)
                    cache).1).0
                ≡ ok q))
  unfolding fetch fetch_access_for_host query_access_from_dns record_of update_cache keep
  fetch-cached_grant host client_ip other_ip now queried_at later queried_later answers others cache
        a absent grant parsed =
      let (r, made, is_a) =
        record_of-allowed (response_to_txt_record_set l.to_lower answers) client_ip queried_at a
          parsed in
      let first : fetch Access l max_ttl true host client_ip now queried_at (ok answers) cache
          ≡ (ok r.query_result, Dict.insert host r cache) =
        fetch-absent true host client_ip now queried_at answers cache absent ∙ rw made refl in
      let there : Dict.lookup host (Dict.insert host r cache) ≡ some r =
        Dict.lookup-insert host host r cache ∙ rw (eq_bytes_refl host) refl in
      (
        ap (λ (p : Result (QueryResult Access) × Dict (TxtRecord Access)). p.0)
              (fetch-absent false host client_ip now queried_at answers cache absent)
            ∙ rw (record_of, grant) refl,
        (
          r.query_result,
          is_a,
          ap (λ (p : Result (QueryResult Access) × Dict (TxtRecord Access)). p.0) first,
          ap
                (λ (p : Result (QueryResult Access) × Dict (TxtRecord Access)).
                  (fetch Access l max_ttl false host other_ip later queried_later (ok others)
                    p.1).0)
                first
              ∙ fetch-cached false host other_ip later queried_later (ok others)
                  (Dict.insert host r cache) r there,
        ),
      )
