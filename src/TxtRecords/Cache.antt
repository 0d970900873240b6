-- ===== src/TxtRecords/Cache.antt =====
-- pkg/linksharing/sharing/txtrecords.go: the cache of the records of hosts. The DNS server, the parsing of access
-- grants (storj.io/uplink, base58) and the resolution of access keys are parameters.
use gateway_mt.Prelude.{ℕ, ◌+◌, Bool, not, ◌&&◌, ◌||◌, none, some, List, ◌==◌, ltb, if◌then◌else◌}
use gateway_mt.Prelude.Bytes.{Bytes}
use gateway_mt.Prelude.Text.{codes}
use gateway_mt.Prelude.Dict
use gateway_mt.Prelude.Dict.{Dict}
use gateway_mt.Errs.{message, Result, ok, err}
use gateway_mt.Middleware.Splitting.{is_empty}
use gateway_mt.TxtRecords.{TxtRecordSet, TxtAnswer, lookup, response_to_txt_record_set}

-- what isProductionAccessGrant finds by base58.CheckDecode, what strconv.ParseBool makes of a text (`false`
-- if it is no truth value), what parseAccess makes of a text for the address of a client, and strings.ToLower
pub record Accesses (Access : Type 0) : Type 0 where
  pub is_production_access_grant : Bytes → Bool
  pub parse_bool : Bytes → Bool
  pub parse_access : Bytes → Bytes → Result Access
  pub to_lower : Bytes → Bytes

module _ (Access : Type 0) where
  -- Result and txtRecord; times are in nanoseconds, and 0 is the zero time
  pub record QueryResult : Type 0 where
    pub access : Access
    pub root : Bytes
    pub tls : Bool

  pub record TxtRecord : Type 0 where
    pub query_result : QueryResult
    pub expiration : ℕ

  module _ (l : Accesses Access) (max_ttl : ℕ) where
    -- what queryAccessFromDNS looks up: a field, or the one that it replaced
    unfoldable pub lookup_either : Bytes → Bytes → TxtRecordSet → Bytes
    unfolding is_empty lookup
    lookup_either field older set =
        let value = lookup field set in if is_empty value then lookup older set else value

    -- what queryAccessFromDNS makes of the records
    unfoldable pub record_of : TxtRecordSet → Bool → Bytes → ℕ → Result TxtRecord
    unfolding lookup_either
    record_of set allow_access_grant client_ip now =
        let access = lookup_either (codes "storj-access") (codes "storj-grant") set in
        if not allow_access_grant && l.is_production_access_grant access
        then err message
        else elim (l.parse_access access client_ip) [
          | err e ↦ err e
          | ok a ↦ ok (record {
            query_result = record {
              access = a;
              root = lookup_either (codes "storj-root") (codes "storj-path") set;
              tls = l.parse_bool (lookup (codes "storj-tls") set);
            };
            expiration = now + (if ltb max_ttl set.min_ttl then max_ttl else set.min_ttl);
          })
        ]

    -- queryAccessFromDNS, on what the DNS server answers for the host and on the time after that
    unfoldable pub query_access_from_dns :
        Result (List TxtAnswer) → Bool → Bytes → ℕ → Result TxtRecord
    unfolding record_of response_to_txt_record_set
    query_access_from_dns (err e) allow_access_grant client_ip now = err e
    query_access_from_dns (ok answers) allow_access_grant client_ip now =
        record_of (response_to_txt_record_set l.to_lower answers) allow_access_grant client_ip now

    -- whether updateCache leaves the record alone that it finds: another update came before it
    unfoldable pub was_updated : TxtRecord → ℕ → Bool
    was_updated found current = (current == 0) || not (found.expiration == current)

    -- the end of updateCache, with the result of the query
    unfoldable pub keep :
        Bytes → Result TxtRecord → Dict TxtRecord → Result TxtRecord × Dict TxtRecord
    keep host (err e) cache = (err e, Dict.remove host cache)
    keep host (ok r) cache = (ok r, Dict.insert host r cache)

    -- updateCache under the lock of the host; `queried` is the result of the query if it is made
    unfoldable pub update_cache :
        Bytes → ℕ → Result TxtRecord → Dict TxtRecord → Result TxtRecord × Dict TxtRecord
    unfolding was_updated keep
    update_cache host current queried cache = elim (Dict.lookup host cache) [
      | none ↦ keep host queried cache
      | some found ↦
          if was_updated found current then (ok found, cache) else keep host queried cache
    ]

    abbrev pub result_of : Result TxtRecord → Result QueryResult
    result_of (err e) = err e
    result_of (ok r) = ok r.query_result

    -- fetchAccessForHost: what it returns, and the cache after the update that it waits for or, for an
    -- expired record, starts in the background; `current` is the time when it looks at the record
    unfoldable pub fetch_access_for_host :
        Bytes → ℕ → Result TxtRecord → Dict TxtRecord → Result QueryResult × Dict TxtRecord
    unfolding update_cache
    fetch_access_for_host host current queried cache = elim (Dict.lookup host cache) [
      | none ↦ let updated = update_cache host 0 queried cache in (result_of updated.0, updated.1)
      | some found ↦
          if ltb found.expiration current
          then (ok found.query_result, (update_cache host found.expiration queried cache).1)
          else (ok found.query_result, cache)
    ]

    -- FetchAccessForHost and FetchAccessForHostNoAccessGrant; `now` is when they look at the record that they
    -- find, and `queried_at` when the query, if there is one, has ended
    unfoldable pub fetch :
        Bool
        → Bytes
        → Bytes
        → (now queried_at : ℕ) → Result (List TxtAnswer)
        → Dict TxtRecord
        → Result QueryResult × Dict TxtRecord
    unfolding fetch_access_for_host query_access_from_dns
    fetch allow_access_grant host client_ip now queried_at answers cache =
        fetch_access_for_host host now
          (query_access_from_dns answers allow_access_grant client_ip queried_at) cache
