-- ===== src/HttpAuth/Resources.antt =====
-- pkg/auth/httpauth/resources.go: the resources and their routes. What the JSON decoder makes of a body
-- and what the source of random bytes gives are arguments.
use gateway_mt.Prelude.{
  ℕ, ◌++◌, Bool, true, false, not, ◌||◌, Option, some, List, [], ◌∷◌, ltb, if◌then◌else◌, replicate,
}
use mathlib.Core.Option
use gateway_mt.Prelude.Bytes.{Bytes, eq_bytes}
use gateway_mt.Prelude.Text.{codes}
use gateway_mt.Errs.{Class, has, Result, ok, err}
use gateway_mt.Authdb.KeyHash
use gateway_mt.Authdb.Kv.{Kv}
use gateway_mt.Authdb.EncryptionKey.{from_base32, to_base32, secret_to_base32}
use gateway_mt.Authdb.Database
use gateway_mt.Authdb.Database.{NodeUrl, Libraries}
use gateway_mt.HttpAuth.Mux.{Target, method, dir, capture}

-- http.StatusOK and the other statuses that are answered
pub data Status : Type 0 where
  ok_200 bad_request unauthorized not_found method_not_allowed : Status
  request_entity_too_large unprocessable_entity internal_server_error service_unavailable : Status

-- the body of an answer: none, a message, or the fields of the JSON object
pub data Body : Type 0 where
  no_body message : Body
  access_created : (access_key_id secret_key endpoint : Bytes) → Body
  access : (access_grant secret_key : Bytes) (is_public : Bool) → Body
  bucket_taken bucket_available : Body

-- an answer, and whether it carries the headers that newAccessCORS sets
pub record Response : Type 0 where
  pub status : Status
  pub body : Body
  pub has_cors : Bool

-- what decoding the JSON of a body gives: its size may be over the limit
pub data Decoded : Type 0 where
  too_large malformed : Decoded
  new_access_request : (access_grant : Bytes) (is_public : Bool) → Decoded

-- the settings of Resources
pub record Settings : Type 0 where
  pub endpoint : Bytes
  pub auth_token : List Bytes
  pub post_size_limit : ℕ
  pub allowed : List NodeUrl

module _ (kv : Kv) where
  -- what a request brings, and what it meets: random bytes for a key and for a secret, and the run of
  -- a call of the store
  pub record Request : Type 0 where
    pub target : Target
    pub content_length : ℕ
    pub authorization : Bytes
    pub bucket : Bytes
    pub decoded : Decoded
    pub random_key : Result Bytes
    pub random_secret : Result Bytes
    pub run : kv.Run

  -- the store, and the flags startup and inShutdown
  pub record State : Type 0 where
    pub store : kv.State
    pub startup : Bool
    pub in_shutdown : Bool

abbrev pub little_salt : Bytes
little_salt = codes "my_bucket_name="

abbrev pub answer : Status → Body → Response
answer status body = record { status = status; body = body; has_cors = false }

-- with the headers of newAccessCORS
abbrev pub cors : Status → Body → Response
cors status body = record { status = status; body = body; has_cors = true }

-- requestAuthorized
unfoldable pub is_one_of : Bytes → List Bytes → Bool
is_one_of auth [] = false
is_one_of auth (token ∷ tokens) =
    let rest = is_one_of auth tokens in
    if eq_bytes auth (codes "Bearer " ++ token) then true else rest

unfoldable pub request_authorized : List Bytes → Bytes → Bool
unfolding is_one_of
request_authorized [] auth = true
request_authorized (token ∷ tokens) auth = is_one_of auth (token ∷ tokens)

module _ (l : Libraries) (kv : Kv) (settings : Settings) where
  -- the answer of a handler with the state that it leaves; `none` says that the store goes on trying
  abbrev Answer : Type 0
  Answer = Option (Response × State kv)

  -- SetStartupDone and SetShutdown
  abbrev pub set_startup_done : State kv → State kv
  set_startup_done s = record s { startup = true }

  abbrev pub set_shutdown : State kv → State kv
  set_shutdown s = record s { in_shutdown = true }

  -- getStartup
  unfoldable pub get_startup : State kv → Answer
  get_startup s =
      some
        (answer (if s.startup then Status.ok_200 else Status.service_unavailable) Body.no_body, s)

  -- getLive
  unfoldable pub get_live : State kv → Answer
  get_live s =
      if not s.startup || s.in_shutdown
      then some (answer Status.service_unavailable Body.no_body, s)
      else elim (kv.ping s.store) [
        | err e ↦ some (answer Status.service_unavailable Body.no_body, s)
        | ok _ ↦ some (answer Status.ok_200 Body.no_body, s)
      ]

  -- what newAccess answers to the result of Put
  unfoldable pub after_put : Bytes → State kv → Result (Bytes × kv.State) → Response × State kv
  after_put key s (ok (secret, t)) = (
    cors Status.ok_200
        (Body.access_created (to_base32 key) (secret_to_base32 secret) settings.endpoint),
    record s { store = t },
  )
  after_put key s (err e) = (
    cors (if has Class.access_grant e then Status.bad_request else Status.internal_server_error)
        Body.message,
    s,
  )

  -- newAccess
  unfoldable pub new_access : Request kv → State kv → Answer
  unfolding after_put
  new_access r s = elim r.decoded [
    | too_large ↦ some (cors Status.request_entity_too_large Body.message, s)
    | malformed ↦ some (cors Status.unprocessable_entity Body.message, s)
    | new_access_request access_grant is_public ↦ elim r.random_key [
      | err e ↦ some (cors Status.internal_server_error Body.message, s)
      | ok key ↦
          Option.map (after_put key s)
            (Database.put l kv settings.allowed key access_grant is_public r.random_secret r.run)
    ]
  ]

  -- newAccessCORS
  unfoldable pub new_access_cors : State kv → Answer
  new_access_cors s = some (cors Status.ok_200 Body.no_body, s)

  -- what getAccess answers to the result of Get
  unfoldable pub after_get : Result (Bytes × Bool × Bytes) → Response
  after_get (ok (access_grant, is_public, secret)) =
      answer Status.ok_200 (Body.access access_grant (secret_to_base32 secret) is_public)
  after_get (err e) =
      answer
        (if has Class.not_found e || has Class.invalid e
          then Status.unauthorized
          else Status.internal_server_error)
        Body.message

  -- getAccess; `id` is the captured part of the path
  unfoldable pub get_access : Bytes → Request kv → State kv → Answer
  unfolding request_authorized from_base32 after_get
  get_access id r s =
      if request_authorized settings.auth_token r.authorization
      then elim (from_base32 (replicate 16 0) id) [
        | err e ↦ some (answer Status.bad_request Body.message, s)
        | ok key ↦ some (after_get (Database.get l kv key s.store), s)
      ]
      else some (answer Status.unauthorized Body.message, s)

  -- what getBucket answers to the result of PutBucket
  unfoldable pub after_put_bucket : State kv → Result kv.State → Response × State kv
  after_put_bucket s (ok t) = (answer Status.ok_200 Body.bucket_available, record s { store = t })
  after_put_bucket s (err e) = (answer Status.internal_server_error Body.message, s)

  -- the key hash of a bucket name
  unfoldable pub bucket_hash : Bytes → Result Bytes
  bucket_hash name = KeyHash.set_bytes (l.sum256 (little_salt ++ l.to_lower name))

  -- getBucket
  unfoldable pub get_bucket : Request kv → State kv → Answer
  unfolding request_authorized bucket_hash after_put_bucket
  get_bucket r s =
      if request_authorized settings.auth_token r.authorization
      then elim (bucket_hash r.bucket) [
        | err e ↦ some (answer Status.internal_server_error Body.message, s)
        | ok key_hash ↦ elim (Database.get_bucket kv key_hash s.store) [
          | err e ↦ some (answer Status.internal_server_error Body.message, s)
          | ok true ↦ some (answer Status.ok_200 Body.bucket_taken, s)
          | ok false ↦ Option.map (after_put_bucket s) (Database.put_bucket kv key_hash r.run)
        ]
      ]
      else some (answer Status.unauthorized Body.message, s)

  -- the handlers that New builds
  unfoldable pub handler : Request kv → State kv → Target → Answer
  unfolding get_startup get_live new_access new_access_cors get_access get_bucket method dir capture
  handler r s = dir missing (
      (
        codes "/v1",
        dir missing (
            (
              codes "/health",
              dir missing (
                  (
                    codes "/startup",
                    dir missing
                        (([], method refused ((codes "GET", λ t. get_startup s) ∷ [])) ∷ []),
                  )
                  ∷ (
                    codes "/live",
                    dir missing (([], method refused ((codes "GET", λ t. get_live s) ∷ [])) ∷ []),
                  )
                  ∷ []),
            )
            ∷ (
              codes "/access",
              dir missing (
                  (
                    [],
                    method refused (
                        (codes "POST", λ t. new_access r s)
                        ∷ (codes "OPTIONS", λ t. new_access_cors s)
                        ∷ []),
                  )
                  ∷ (
                    codes "*",
                    capture missing (
                        dir missing (
                          ([], method refused ((codes "GET", λ t. get_access t.argument r s) ∷ []))
                          ∷ [])),
                  )
                  ∷ []),
            )
            ∷ (
              codes "/bucket",
              dir missing (([], method refused ((codes "GET", λ t. get_bucket r s) ∷ [])) ∷ []),
            )
            ∷ []),
      )
      ∷ [])
    where
      missing : Answer
      missing = some (answer Status.not_found Body.no_body, s)

      refused : Answer
      refused = some (answer Status.method_not_allowed Body.no_body, s)

  -- ServeHTTP
  unfoldable pub serve_http : Request kv → State kv → Answer
  unfolding handler
  serve_http r s =
      if ltb settings.post_size_limit r.content_length
      then some (answer Status.request_entity_too_large Body.message, s)
      else handler r s r.target
