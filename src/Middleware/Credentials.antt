-- ===== src/Middleware/Credentials.antt =====
-- The parsers of credentials.go: a V4 credential, and what the header, the query and the form of a request
-- say of a V4 or a V2 signature.
use gateway_mt.Prelude.{
  ℕ, zero, suc, Bool, true, false, not, ◌&&◌, ◌||◌, Option, none, some, List, [], ◌∷◌, ◌==◌, length,
  if◌then◌else◌,
}
use gateway_mt.Prelude.Bytes.{Bytes, eq_bytes}
use gateway_mt.Prelude.Text.{codes}
use gateway_mt.Prelude.Dict
use gateway_mt.Prelude.Dict.{Dict}
use gateway_mt.Middleware.Splitting.{span, split, strip_prefix, is_empty}
use gateway_mt.Middleware.Errors.{
  credential_malformed, malformed_credential_date, malformed_authorization_v2, invalid_date,
  invalid_algorithm, invalid_date_header, ErrorClass, invalid_query, missing_fields, credential,
  v4_header, v4_query, v4_form, v2_header, v2_query, v2_form, CredentialError, message, sentinel,
  wrap, Parsed, parsed, failed,
}

-- what the parsers read of a request: `Header.Get` of its headers, the first values of its query, and its
-- form, `none` if the body cannot be kept for later or read as a multipart form
pub record Request : Type 0 where
  pub method : Bytes
  pub authorization : Bytes
  pub amz_date : Bytes
  pub amz_content_sha256 : Bytes
  pub content_type : Bytes
  pub query : Dict Bytes
  pub body_is_kept : Bool
  pub form : Option (Dict Bytes)

abbrev pub slash : ℕ
slash = 47

abbrev pub newline : ℕ
newline = 10

abbrev pub comma : ℕ
comma = 44

abbrev pub equals : ℕ
equals = 61

abbrev pub colon : ℕ
colon = 58

abbrev pub semicolon : ℕ
semicolon = 59

abbrev pub space : ℕ
space = 32

-- `.+` to the end of the text
unfoldable pub is_line : Bytes → Bool
unfolding is_empty span
is_line s = not (is_empty s) && is_empty (span (λ c. not (c == newline)) s).1

-- url.Values.Get
unfoldable pub get : Bytes → Dict Bytes → Bytes
get key values = elim (Dict.lookup key values) [ none ↦ [] | some v ↦ v ]

-- The values of `Time` are those of time.Time; time.Parse with the two formats is given.
module _ (Time : Type 0) (parse_date parse_time : Bytes → Option Time) where
  pub record V4Credential : Type 0 where
    pub access_key_id : Bytes
    pub date : Time
    pub region : Bytes
    pub service : Bytes

  pub record V4 : Type 0 where
    pub credential : Option V4Credential
    pub signed_headers : List Bytes
    pub signature : Bytes
    pub content_sha256 : Bytes
    pub date : Option Time
    pub from_header : Bool

  pub record V2 : Type 0 where
    pub access_key_id : Bytes
    pub signature : Bytes
    pub from_header : Bool

  -- the parts that v4CredentialRegex captures, between four slashes
  unfoldable pub credential_parts : List Bytes → Option (Bytes × Bytes × Bytes × Bytes)
  unfolding is_empty eq_bytes
  credential_parts (id ∷ date ∷ region ∷ service ∷ last ∷ []) =
      if not (is_empty id)
        && not (is_empty date)
        && not (is_empty service)
        && eq_bytes last (codes "aws4_request")
      then some (id, date, region, service)
      else none
  credential_parts _ = none

  -- ParseV4Credential
  unfoldable pub parse_v4_credential : Bytes → Parsed V4Credential
  unfolding credential_parts split
  parse_v4_credential data_ = elim (credential_parts (split slash data_)) [
    | none ↦ failed (wrap credential (sentinel credential_malformed))
    | some (id, date, region, service) ↦ elim (parse_date date) [
      | none ↦ failed (wrap credential (sentinel malformed_credential_date))
      | some d ↦
          parsed (record { access_key_id = id; date = d; region = region; service = service })
    ]
  ]

  -- [,]?[ ]*
  unfoldable pub skip_comma : Bytes → Bytes
  unfolding span
  skip_comma [] = []
  skip_comma (c ∷ s) =
      if c == comma then (span (λ x. x == space) s).1 else (span (λ x. x == space) (c ∷ s)).1

  -- the key, the value and the rest that v4AuthorizationFieldRegex finds: after the key, which is given
  unfoldable pub field_after : Bytes → Bytes → Option (Bytes × Bytes × Bytes)
  unfolding span is_empty skip_comma
  field_after key [] = none
  field_after key (c ∷ s) =
      let val = span (λ x. not (x == comma)) s in
      if c == equals && not (is_empty key) && not (is_empty val.0)
      then some (key, val.0, skip_comma val.1)
      else none

  unfoldable pub field : Bytes → Option (Bytes × Bytes × Bytes)
  unfolding field_after
  field kvs = let key = span (λ x. not (x == comma || x == equals)) kvs in field_after key.0 key.1

  -- the switch on the key of a field
  unfoldable pub put_field : Bytes → Bytes → V4 → Parsed V4
  unfolding parse_v4_credential
  put_field key val v4 =
      if eq_bytes key (codes "Credential")
      then elim (parse_v4_credential val) [
        | parsed c ↦ parsed (record v4 { credential = some c })
        | failed e ↦ failed (wrap v4_header e)
      ]
      else if eq_bytes key (codes "Signature")
      then parsed (record v4 { signature = val })
      else if eq_bytes key (codes "SignedHeaders")
      then parsed (record v4 { signed_headers = split semicolon val })
      else parsed v4

  abbrev pub missing : ErrorClass → CredentialError
  missing c = wrap c (wrap missing_fields message)

  -- the loop over the fields, on fuel: the length of what is left is enough
  unfoldable pub put_fields : ℕ → Bytes → V4 → Parsed V4
  unfolding field put_field
  put_fields fuel [] v4 = parsed v4
  put_fields zero (c ∷ kvs) v4 = failed (missing v4_header)
  put_fields (suc fuel) (c ∷ kvs) v4 = elim (field (c ∷ kvs)) [
    | none ↦ failed (missing v4_header)
    | some (key, val, rest) ↦ elim (put_field key val v4) [
      | failed e ↦ failed e
      | parsed v5 ↦ put_fields fuel rest v5
    ]
  ]

  -- v4AuthorizationRegex and v2AuthorizationRegex, after their literal starts
  unfoldable pub line_after : Bytes → Bytes → Option Bytes
  unfolding strip_prefix is_line
  line_after start s = elim (strip_prefix start s) [
    | none ↦ none
    | some rest ↦ if is_line rest then some rest else none
  ]

  abbrev pub new_v4 : Request → Time → V4
  new_v4 r date = record {
    credential = none;
    signed_headers = [];
    signature = [];
    content_sha256 = r.amz_content_sha256;
    date = some date;
    from_header = true;
  }

  -- ParseV4FromHeader
  unfoldable pub parse_v4_from_header : Request → Parsed V4
  unfolding line_after put_fields
  parse_v4_from_header r = elim (line_after (codes "AWS4-HMAC-SHA256 ") r.authorization) [
    | none ↦ failed (missing v4_header)
    | some kvs ↦ elim (parse_time r.amz_date) [
      | none ↦ failed (wrap v4_header (sentinel invalid_date_header))
      | some date ↦ put_fields (length kvs) kvs (new_v4 r date)
    ]
  ]

  -- what ParseV4FromFormValues does with the three fields
  unfoldable pub v4_of_form : Bytes → Bytes → Bytes → Parsed V4
  v4_of_form signature date given = elim (parse_v4_credential given) [
    | failed e ↦ failed (wrap v4_form e)
    | parsed c ↦ elim (parse_time date) [
      | none ↦ failed (wrap v4_form (sentinel invalid_date))
      | some d ↦ parsed (record {
        credential = some c;
        signed_headers = [];
        signature = signature;
        content_sha256 = [];
        date = some d;
        from_header = false;
      })
    ]
  ]

  -- ParseV4FromFormValues, on the first value of each field
  unfoldable pub parse_v4_from_form_values : Dict Bytes → Parsed V4
  unfolding v4_of_form
  parse_v4_from_form_values form = elim (Dict.lookup (codes "X-Amz-Signature") form) [
    | none ↦ failed (missing v4_form)
    | some signature ↦ elim (Dict.lookup (codes "X-Amz-Date") form) [
      | none ↦ failed (missing v4_form)
      | some date ↦ elim (Dict.lookup (codes "X-Amz-Credential") form) [
        | none ↦ failed (missing v4_form)
        | some given ↦ v4_of_form signature date given
      ]
    ]
  ]

  -- ParseV2FromFormValues; the form's fields have canonical names
  unfoldable pub parse_v2_from_form_values : Dict Bytes → Parsed V2
  parse_v2_from_form_values form = elim (Dict.lookup (codes "Awsaccesskeyid") form) [
    | none ↦ failed (missing v2_form)
    | some id ↦ elim (Dict.lookup (codes "Signature") form) [
      | none ↦ failed (missing v2_form)
      | some signature ↦
          parsed (record { access_key_id = id; signature = signature; from_header = false })
    ]
  ]

  -- ParseV4FromQuery
  unfoldable pub parse_v4_from_query : Request → Parsed V4
  unfolding get eq_bytes parse_v4_credential
  parse_v4_from_query r =
      let content = get (codes "X-Amz-Content-SHA256") r.query in
      if not (eq_bytes (get (codes "X-Amz-Algorithm") r.query) (codes "AWS4-HMAC-SHA256"))
      then failed (wrap v4_query (sentinel invalid_algorithm))
      else elim (parse_v4_credential (get (codes "X-Amz-Credential") r.query)) [
        | failed e ↦ failed (wrap v4_query e)
        | parsed c ↦ elim (parse_time (get (codes "X-Amz-Date") r.query)) [
          | none ↦ failed (wrap v4_query (sentinel invalid_date))
          | some d ↦ parsed (record {
            credential = some c;
            signed_headers = split semicolon (get (codes "X-Amz-SignedHeaders") r.query);
            signature = get (codes "X-Amz-Signature") r.query;
            content_sha256 = if is_empty content then codes "UNSIGNED-PAYLOAD" else content;
            date = some d;
            from_header = false;
          })
        ]
      ]

  -- what v2AuthorizationRegex captures of the text after `AWS `
  unfoldable pub v2_parts : Bytes × Bytes → Option (Bytes × Bytes)
  unfolding is_line is_empty
  v2_parts (key, []) = none
  v2_parts (key, c ∷ signature) =
      if not (is_empty key) && is_line signature then some (key, signature) else none

  -- ParseV2FromHeader
  unfoldable pub parse_v2_from_header : Request → Parsed V2
  unfolding strip_prefix v2_parts
  parse_v2_from_header r = elim (strip_prefix (codes "AWS ") r.authorization) [
    | none ↦ failed (wrap v2_header (sentinel malformed_authorization_v2))
    | some rest ↦ elim (v2_parts (span (λ c. not (c == colon)) rest)) [
      | none ↦ failed (wrap v2_header (sentinel malformed_authorization_v2))
      | some (key, signature) ↦
          parsed (record { access_key_id = key; signature = signature; from_header = true })
    ]
  ]

  -- ParseV2FromQuery
  unfoldable pub parse_v2_from_query : Request → Parsed V2
  unfolding get is_empty
  parse_v2_from_query r =
      let id = get (codes "AWSAccessKeyId") r.query in
      let signature = get (codes "Signature") r.query in
      if is_empty id
      then failed (wrap v2_query (wrap invalid_query message))
      else if is_empty signature
      then failed (wrap v2_query (wrap invalid_query message))
      else parsed (record { access_key_id = id; signature = signature; from_header = false })
