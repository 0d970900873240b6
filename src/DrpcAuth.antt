-- ===== src/DrpcAuth.antt =====
-- pkg/auth/drpcauth/server.go: the registration of access grants over DRPC.
use gateway_mt.Prelude.{
  ℕ, ◌≡◌, refl, Bool, false, Option, none, some, ltb, length, inl, inr, if◌then◌else◌,
}
use mathlib.Core.Option
use gateway_mt.Prelude.Bytes.{Bytes}
use gateway_mt.Errs.{Result, ok, err, Result-cases}
use gateway_mt.Authdb.Kv.{Kv}
use gateway_mt.Authdb.EncryptionKey.{to_base32, secret_to_base32}
use gateway_mt.Authdb.Database
use gateway_mt.Authdb.Database.{Libraries}
use gateway_mt.Badgerauth.Rpc.{RpcStatus, Reply, answer, failure}
use gateway_mt.HttpAuth.Resources
use gateway_mt.HttpAuth.Resources.{Status, Body, Decoded, Response, Settings, Request, State, cors}

-- pb.EdgeRegisterAccessResponse
pub record Registered : Type 0 where
  pub access_key_id : Bytes
  pub secret_key : Bytes
  pub endpoint : Bytes

module _ (l : Libraries) (kv : Kv) (settings : Settings) where
  -- what registerAccessImpl answers to the result of Put
  unfoldable pub after_put : Bytes → Result (Bytes × kv.State) → Result (Registered × kv.State)
  after_put key (ok (secret, t)) = ok (
    record {
      access_key_id = to_base32 key;
      secret_key = secret_to_base32 secret;
      endpoint = settings.endpoint;
    },
    t,
  )
  after_put key (err e) = err e

  -- registerAccessImpl
  unfoldable pub register_access_impl :
      Bytes → Bool → Result Bytes → Result Bytes → kv.Run → Option (Result (Registered × kv.State))
  unfolding after_put
  register_access_impl access_grant is_public random_key random_secret run = elim random_key [
    | err e ↦ some (err e)
    | ok key ↦
        Option.map (after_put key)
          (Database.put l kv settings.allowed key access_grant is_public random_secret run)
  ]

  -- the status that wraps an error of registerAccessImpl
  unfoldable pub wrapped_internal : Result (Registered × kv.State) → Reply (Registered × kv.State)
  wrapped_internal (ok a) = answer a
  wrapped_internal (err e) = failure RpcStatus.internal

  -- RegisterAccess
  unfoldable pub register_access :
      ℕ
      → Bytes
      → Bool
      → Result Bytes
      → Result Bytes
      → kv.Run
      → Option (Reply (Registered × kv.State))
  unfolding register_access_impl wrapped_internal
  register_access size_limit access_grant is_public random_key random_secret run =
      if ltb size_limit (length access_grant)
      then some (failure RpcStatus.invalid_argument)
      else Option.map wrapped_internal
          (register_access_impl access_grant is_public random_key random_secret run)

  -- what an HTTP registration answers to what a DRPC registration answers
  abbrev pub Agrees :
      State kv → Option (Reply (Registered × kv.State)) → Option (Response × State kv) → Type 0
  Agrees s none h = h ≡ none
  Agrees s (some (answer (a, t))) h =
      h
      ≡ some (
        cors Status.ok_200 (Body.access_created a.access_key_id a.secret_key a.endpoint),
        record s { store = t },
      )
  Agrees s (some (failure status)) h =
      (resp : Response) × (h ≡ some (resp, s)) × (resp.body ≡ Body.message)

  Agrees-after_put :
      (s : State kv) (key : Bytes) (o : Option (Result (Bytes × kv.State)))
      → Agrees s
          (Option.map wrapped_internal (Option.map (after_put key) o))
          (Option.map (Resources.after_put l kv settings key s) o)
  unfolding wrapped_internal after_put Resources.after_put
  Agrees-after_put s key none = refl
  Agrees-after_put s key (some (ok (secret, t))) = refl
  Agrees-after_put s key (some (err e)) = (_, refl, refl)

  -- For an access grant within the size limit that newAccess decodes from its body, RegisterAccess
  -- and newAccess agree on the same random bytes and the same run of the store: both go on, or
  -- both answer with the same access key, secret key and endpoint and leave the same store, or
  -- both fail and newAccess leaves the state as it was.
  pub register_access-new_access :
      (size_limit : ℕ) (access_grant : Bytes) (is_public : Bool) (r : Request kv) (s : State kv)
      → ltb size_limit (length access_grant) ≡ false
      → r.decoded ≡ Decoded.new_access_request access_grant is_public
      → Agrees s
          (register_access size_limit access_grant is_public r.random_key r.random_secret r.run)
          (Resources.new_access l kv settings r s)
  unfolding register_access register_access_impl Resources.new_access
  register_access-new_access size_limit access_grant is_public r s small asked =
      elim (Result-cases r.random_key) [
        | inl (key, drawn) ↦
            rw (register_access, small, asked, drawn, Resources.new_access)
              (Agrees-after_put s key (
                Database.put l kv settings.allowed key access_grant is_public r.random_secret
                  r.run))
        | inr (e, failed) ↦
            rw (register_access, small, asked, failed, Resources.new_access) (_, refl, refl)
      ]
