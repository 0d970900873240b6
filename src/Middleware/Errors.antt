-- ===== src/Middleware/Errors.antt =====
-- The errors of credentials.go: its sentinels, its classes, and the codes of the S3 API that they become.
use gateway_mt.Prelude.{
  Bool, true, false, ◌||◌, ◌≡◌, refl, ◌⊎◌, inl, inr, Option, none, some, if◌then◌else◌,
}

pub data Sentinel : Type 0 where
  no_access_key malformed_authorization_v2 credential_malformed malformed_credential_date : Sentinel
  invalid_date invalid_algorithm invalid_date_header : Sentinel

-- errInvalidQuery, errMissingFields, errMalformedPOSTRequest, then ParseV4CredentialError and the other
-- classes of the parsers
pub data ErrorClass : Type 0 where
  invalid_query missing_fields malformed_post_request : ErrorClass
  credential v4_header v4_query v4_form v2_header v2_query v2_form : ErrorClass

-- `message` is an error of another package, or one made of a text alone.
pub data CredentialError : Type 0 where
  message : CredentialError
  sentinel : Sentinel → CredentialError
  wrap : ErrorClass → CredentialError → CredentialError
  combine : CredentialError → CredentialError → CredentialError

pub data Parsed {ℓ} (A : Type ℓ) : Type ℓ where
  parsed : A → Parsed A
  failed : CredentialError → Parsed A

abbrev eq_sentinel : Sentinel → Sentinel → Bool
eq_sentinel no_access_key no_access_key = true
eq_sentinel malformed_authorization_v2 malformed_authorization_v2 = true
eq_sentinel credential_malformed credential_malformed = true
eq_sentinel malformed_credential_date malformed_credential_date = true
eq_sentinel invalid_date invalid_date = true
eq_sentinel invalid_algorithm invalid_algorithm = true
eq_sentinel invalid_date_header invalid_date_header = true
eq_sentinel _ _ = false

abbrev eq_class : ErrorClass → ErrorClass → Bool
eq_class invalid_query invalid_query = true
eq_class missing_fields missing_fields = true
eq_class malformed_post_request malformed_post_request = true
eq_class credential credential = true
eq_class v4_header v4_header = true
eq_class v4_query v4_query = true
eq_class v4_form v4_form = true
eq_class v2_header v2_header = true
eq_class v2_query v2_query = true
eq_class v2_form v2_form = true
eq_class _ _ = false

-- errs.Is for a sentinel
unfoldable pub is : Sentinel → CredentialError → Bool
is s message = false
is s (sentinel t) = eq_sentinel s t
is s (wrap c e) = is s e
is s (combine e f) = is s e || is s f

-- Class.Has
unfoldable pub has : ErrorClass → CredentialError → Bool
has c message = false
has c (sentinel t) = false
has c (wrap d e) = eq_class c d || has c e
has c (combine e f) = has c e || has c f

pub data ApiErrorCode : Type 0 where
  missing_fields_v2 cred_malformed malformed_credential_date_code malformed_presigned_date :
      ApiErrorCode
  invalid_query_signature_algo missing_date_header invalid_query_params : ApiErrorCode
  missing_fields_code malformed_post_request_code : ApiErrorCode

-- errToAPIErrCode; `none` is 0
unfoldable pub err_to_api_err_code : CredentialError → Option ApiErrorCode
unfolding is has
err_to_api_err_code e =
    if is malformed_authorization_v2 e
    then some missing_fields_v2
    else if is credential_malformed e
    then some cred_malformed
    else if is malformed_credential_date e
    then some malformed_credential_date_code
    else if is invalid_date e
    then some malformed_presigned_date
    else if is invalid_algorithm e
    then some invalid_query_signature_algo
    else if is invalid_date_header e
    then some missing_date_header
    else if has invalid_query e
    then some invalid_query_params
    else if has missing_fields e
    then some missing_fields_code
    else if has malformed_post_request e
    then some malformed_post_request_code
    else none

pub Parsed-cases {ℓ} :
    {A : Type ℓ} (p : Parsed A)
    → ((a : A) × (p ≡ parsed a)) ⊎ ((e : CredentialError) × (p ≡ failed e))
Parsed-cases (parsed a) = inl (a, refl)
Parsed-cases (failed e) = inr (e, refl)
