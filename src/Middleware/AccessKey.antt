-- ===== src/Middleware/AccessKey.antt =====
-- GetAccessKeyID of credentials.go, which picks a parser, and the middleware AccessKey around it.
use gateway_mt.Prelude.{
  ◌⊎◌, inl, inr, Bool, true, false, not, ◌&&◌, ◌||◌, Option, none, some, [], ◌∷◌, if◌then◌else◌,
}
use gateway_mt.Prelude.Bytes.{Bytes, eq_bytes, is_prefix}
use gateway_mt.Prelude.Text.{codes}
use gateway_mt.Prelude.Dict
use gateway_mt.Prelude.Dict.{Dict}
use gateway_mt.Middleware.Errors.{
  no_access_key, malformed_post_request, CredentialError, message, sentinel, wrap, combine, Parsed,
  parsed, failed, ApiErrorCode, is, err_to_api_err_code,
}
use gateway_mt.Middleware.Credentials.{
  Request, V4, V2, parse_v4_from_header, parse_v4_from_query, parse_v4_from_form_values,
  parse_v2_from_header, parse_v2_from_query, parse_v2_from_form_values,
}

-- strings.Contains
unfoldable pub contains : Bytes → Bytes → Bool
unfolding is_prefix
contains part [] = is_prefix part []
contains part (c ∷ s) = is_prefix part (c ∷ s) || contains part s

unfoldable pub is_request_signature_v4 : Request → Bool
unfolding is_prefix
is_request_signature_v4 r = is_prefix (codes "AWS4-HMAC-SHA256") r.authorization

unfoldable pub is_request_signature_v2 : Request → Bool
unfolding is_prefix
is_request_signature_v2 r =
    not (is_prefix (codes "AWS4-HMAC-SHA256") r.authorization)
    && is_prefix (codes "AWS") r.authorization

unfoldable pub has_key : Bytes → Request → Bool
has_key key r = elim (Dict.lookup key r.query) [ none ↦ false | some v ↦ true ]

unfoldable pub is_request_presigned_signature_v4 : Request → Bool
unfolding has_key
is_request_presigned_signature_v4 r = has_key (codes "X-Amz-Credential") r

unfoldable pub is_request_presigned_signature_v2 : Request → Bool
unfolding has_key
is_request_presigned_signature_v2 r = has_key (codes "AWSAccessKeyId") r

unfoldable pub is_request_post_policy_signature : Request → Bool
unfolding contains eq_bytes
is_request_post_policy_signature r =
    contains (codes "multipart/form-data") r.content_type && eq_bytes r.method (codes "POST")

-- what GetAccessKeyID comes to: a key, an error, or a nil pointer that is followed
pub data Found : Type 0 where
  key : Bytes → Found
  fails : CredentialError → Found
  panics : Found

-- The middleware: an error response with the code of the API, or with status 400 if there is none, or the
-- next handler, with no credentials, with the error of the auth service or with what it answers.
pub data Served (Error Response : Type 0) : Type 0 where
  error_response : Option ApiErrorCode → Served Error Response
  next_without_credentials : Served Error Response
  next_with : Bytes → Response → Served Error Response
  next_with_error : Error → Served Error Response
  crashes : Served Error Response

module _ (Time : Type 0) (parse_date parse_time : Bytes → Option Time) where
  -- v4.Credential.AccessKeyID, or the error of the parser
  abbrev pub found_v4 : Parsed (V4 Time parse_date parse_time) → Found
  found_v4 (failed e) = fails e
  found_v4 (parsed v4) = elim v4.credential [ none ↦ panics | some c ↦ key c.access_key_id ]

  abbrev pub found_v2 : Parsed (V2 Time parse_date parse_time) → Found
  found_v2 (failed e) = fails e
  found_v2 (parsed v2) = key v2.access_key_id

  -- what ParseFromForm does with the fields of the form
  unfoldable pub parse_form : Dict Bytes → Found
  parse_form form = elim (parse_v4_from_form_values Time parse_date parse_time form) [
    | parsed v4 ↦ found_v4 (parsed v4)
    | failed e4 ↦ elim (parse_v2_from_form_values Time parse_date parse_time form) [
      | parsed v2 ↦ key v2.access_key_id
      | failed e2 ↦ fails (combine e4 e2)
    ]
  ]

  -- ParseFromForm
  unfoldable pub parse_from_form : Request → Found
  unfolding parse_form
  parse_from_form r =
      if r.body_is_kept
      then elim r.form [
        | none ↦ fails (wrap malformed_post_request message)
        | some form ↦ parse_form form
      ]
      else fails message

  -- GetAccessKeyID
  unfoldable pub get_access_key_id : Request → Found
  unfolding is_request_signature_v4 is_request_signature_v2 is_request_presigned_signature_v4
      is_request_presigned_signature_v2 is_request_post_policy_signature
  get_access_key_id r =
      if is_request_signature_v4 r
      then found_v4 (parse_v4_from_header Time parse_date parse_time r)
      else if is_request_presigned_signature_v4 r
      then found_v4 (parse_v4_from_query Time parse_date parse_time r)
      else if is_request_signature_v2 r
      then found_v2 (parse_v2_from_header Time parse_date parse_time r)
      else if is_request_presigned_signature_v2 r
      then found_v2 (parse_v2_from_query Time parse_date parse_time r)
      else if is_request_post_policy_signature r
      then parse_from_form r
      else fails (sentinel no_access_key)

  module _ {Error Response : Type 0} (resolve : Bytes → Response ⊎ Error) where
    abbrev resolved : Bytes → Response ⊎ Error → Served Error Response
    resolved id (inl response) = next_with id response
    resolved id (inr e) = next_with_error e

    -- AccessKey, with ResolveWithCache for the address of the client
    unfoldable pub access_key : Request → Served Error Response
    unfolding is err_to_api_err_code
    access_key r = elim (get_access_key_id r) [
      | panics ↦ crashes
      | key id ↦ resolved id (resolve id)
      | fails e ↦
          if is no_access_key e
          then next_without_credentials
          else error_response (err_to_api_err_code e)
    ]
