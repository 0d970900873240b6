-- ===== src/Middleware/Failures.antt =====
-- What becomes of a request whose access key is not found (GetAccessKeyID, errToAPIErrCode and AccessKey of
-- credentials.go): the errors of each parser, their codes, and the nil pointer that GetAccessKeyID follows.
use gateway_mt.Prelude.{
  ℕ, zero, suc, ◌≡◌, ◌≢◌, refl, ◌⊎◌, inl, inr, Bool, true, false, not, ◌&&◌, Option, none, some, [],
  ◌∷◌, length, if◌then◌else◌, arith, Bool-cases, Option-cases,
}
use gateway_mt.Prelude.Bytes.{Bytes}
use gateway_mt.Prelude.Text.{codes}
use gateway_mt.Prelude.Dict
use gateway_mt.Prelude.Dict.{Dict}
use gateway_mt.Middleware.Errors.{
  no_access_key, ErrorClass, CredentialError, sentinel, wrap, combine, Parsed, parsed, failed,
  Parsed-cases, is, has, err_to_api_err_code,
}
use gateway_mt.Middleware.Credentials.{
  Request, missing, V4, V2, parse_v4_credential, field, put_field, put_fields, get, line_after,
  parse_v4_from_header, v4_of_form, parse_v4_from_form_values, parse_v2_from_form_values,
  parse_v4_from_query, parse_v2_from_query, parse_v2_from_header, new_v4,
}
use gateway_mt.Middleware.AccessKey.{
  Found, key, fails, panics, found_v4, found_v2, parse_form, parse_from_form, get_access_key_id,
  is_request_signature_v4, is_request_presigned_signature_v4, is_request_signature_v2,
  is_request_presigned_signature_v2, is_request_post_policy_signature, Served, access_key,
}

abbrev pub is_some {ℓ} : {A : Type ℓ} → Option A → Bool
is_some none = false
is_some (some a) = true

-- an error that is not taken for the lack of a key, and has a code of the API
unfoldable pub is_coded : CredentialError → Bool
unfolding is err_to_api_err_code
is_coded e = not (is no_access_key e) && is_some (err_to_api_err_code e)

-- what a parser gives is a value or such an error
abbrev told {ℓ} : {A : Type ℓ} → Parsed A → Bool
told (parsed a) = true
told (failed e) = is_coded e

module _ (Time : Type 0) (parse_date parse_time : Bytes → Option Time) where
  parse_v4_credential-told :
      (s : Bytes) (c : ErrorClass) (e : CredentialError)
      → parse_v4_credential Time parse_date parse_time s ≡ failed e
      → is_coded (wrap c e) ≡ true
  unfolding parse_v4_credential is_coded err_to_api_err_code is has
  parse_v4_credential-told s c e h = ground (arith, h)

  put_field-told :
      (k v : Bytes) (v4 : V4 Time parse_date parse_time)
      → told (put_field Time parse_date parse_time k v v4) ≡ true
  unfolding put_field
  put_field-told k v v4 = elim (Parsed-cases (parse_v4_credential Time parse_date parse_time v)) [
    | inl (c, got) ↦ ground (arith, got)
    | inr (e, bad) ↦
        let h = parse_v4_credential-told v ErrorClass.v4_header e bad in ground (arith, bad, h)
  ]

  put_fields-told :
      (fuel : ℕ) (kvs : Bytes) (v4 : V4 Time parse_date parse_time)
      → told (put_fields Time parse_date parse_time fuel kvs v4) ≡ true
  unfolding put_fields is_coded err_to_api_err_code is has
  put_fields-told fuel [] v4 = refl
  put_fields-told zero (c ∷ kvs) v4 = refl
  put_fields-told (suc fuel) (c ∷ kvs) v4 =
      elim (Option-cases (field Time parse_date parse_time (c ∷ kvs))) [
        | inl absent ↦ rw (put_fields, absent) refl
        | inr ((k, v, rest), found) ↦
            elim (Parsed-cases (put_field Time parse_date parse_time k v v4)) [
              | inl (v5, put) ↦ rw (put_fields, found, put) (put_fields-told fuel rest v5)
              | inr (e, bad) ↦
                  let h = put_field-told k v v4 in rw (put_fields, found, bad) (rw bad at h)
            ]
      ]

  parse_v4_from_header-told :
      (r : Request) → told (parse_v4_from_header Time parse_date parse_time r) ≡ true
  unfolding parse_v4_from_header is_coded err_to_api_err_code is has
  parse_v4_from_header-told r =
      elim (Option-cases
        (line_after Time parse_date parse_time (codes "AWS4-HMAC-SHA256 ") r.authorization)) [
          | inl absent ↦ rw (parse_v4_from_header, absent) refl
          | inr (kvs, found) ↦ elim (Option-cases (parse_time r.amz_date)) [
            | inl bad ↦ rw (parse_v4_from_header, found, bad) refl
            | inr (t, timed) ↦
                rw (parse_v4_from_header, found, timed)
                  (put_fields-told (length kvs) kvs (new_v4 _ _ _ r t))
          ]
        ]

  parse_v4_from_query-told :
      (r : Request) → told (parse_v4_from_query Time parse_date parse_time r) ≡ true
  unfolding parse_v4_from_query is_coded err_to_api_err_code is has
  parse_v4_from_query-told r =
      elim (Parsed-cases
        (parse_v4_credential Time parse_date parse_time (get (codes "X-Amz-Credential") r.query))) [
          | inl (c, got) ↦ ground (arith, got)
          | inr (e, bad) ↦
              let h =
                parse_v4_credential-told (get (codes "X-Amz-Credential") r.query)
                  ErrorClass.v4_query e bad in
              ground (arith, bad, h)
        ]

  parse_v2_from_header-told :
      (r : Request) → told (parse_v2_from_header Time parse_date parse_time r) ≡ true
  unfolding parse_v2_from_header is_coded err_to_api_err_code is has
  parse_v2_from_header-told r = ground (arith)

  parse_v2_from_query-told :
      (r : Request) → told (parse_v2_from_query Time parse_date parse_time r) ≡ true
  unfolding parse_v2_from_query is_coded err_to_api_err_code is has
  parse_v2_from_query-told r = ground (arith)

  v4_of_form-told :
      (signature date given : Bytes)
      → told (v4_of_form Time parse_date parse_time signature date given) ≡ true
  unfolding v4_of_form is_coded err_to_api_err_code is has
  v4_of_form-told signature date given =
      elim (Parsed-cases (parse_v4_credential Time parse_date parse_time given)) [
        | inl (c, got) ↦ ground (arith, got)
        | inr (e, bad) ↦
            let h = parse_v4_credential-told given ErrorClass.v4_form e bad in
            ground (arith, bad, h)
      ]

  parse_v4_from_form_values-told :
      (form : Dict Bytes) → told (parse_v4_from_form_values Time parse_date parse_time form) ≡ true
  unfolding parse_v4_from_form_values is_coded err_to_api_err_code is has
  parse_v4_from_form_values-told form =
      elim (Option-cases (Dict.lookup (codes "X-Amz-Signature") form)) [
        | inl h ↦ rw (parse_v4_from_form_values, h) refl
        | inr (signature, h) ↦ elim (Option-cases (Dict.lookup (codes "X-Amz-Date") form)) [
          | inl g ↦ rw (parse_v4_from_form_values, h, g) refl
          | inr (date, g) ↦ elim (Option-cases (Dict.lookup (codes "X-Amz-Credential") form)) [
            | inl f ↦ rw (parse_v4_from_form_values, h, g, f) refl
            | inr (given, f) ↦
                rw (parse_v4_from_form_values, h, g, f) (v4_of_form-told signature date given)
          ]
        ]
      ]

  parse_v2_from_form_values-fails :
      (form : Dict Bytes) (e : CredentialError)
      → parse_v2_from_form_values Time parse_date parse_time form ≡ failed e
      → e ≡ missing Time parse_date parse_time ErrorClass.v2_form
  unfolding parse_v2_from_form_values
  parse_v2_from_form_values-fails form e h = ground (arith, h)

  combined-told :
      (e : CredentialError)
      → is_coded e ≡ true
      → is_coded (combine e (missing Time parse_date parse_time ErrorClass.v2_form)) ≡ true
  unfolding is_coded err_to_api_err_code is has
  combined-told e h = ground (arith, h)

  -- the same of what is found
  abbrev found_told : Found → Bool
  found_told (key k) = true
  found_told panics = true
  found_told (fails e) = is_coded e

  parse_form-told :
      (form : Dict Bytes) → found_told (parse_form Time parse_date parse_time form) ≡ true
  unfolding parse_form
  parse_form-told form =
      elim (Parsed-cases (parse_v4_from_form_values Time parse_date parse_time form)) [
        | inl (v4, got) ↦ ground (arith, got)
        | inr (e, bad) ↦
            let h = parse_v4_from_form_values-told form in
            elim (Parsed-cases (parse_v2_from_form_values Time parse_date parse_time form)) [
              | inl (v2, got) ↦ ground (arith, bad, got)
              | inr (f, worse) ↦
                  let g = combined-told e (rw bad at h) in
                  let same = parse_v2_from_form_values-fails form f worse in
                  rw (parse_form, bad, worse, same) g
            ]
      ]

  found_v4-told :
      (p : Parsed (V4 Time parse_date parse_time))
      → told p ≡ true
      → found_told (found_v4 Time parse_date parse_time p) ≡ true
  found_v4-told (failed e) h = h
  found_v4-told (parsed v4) h = ground arith

  found_v2-told :
      (p : Parsed (V2 Time parse_date parse_time))
      → told p ≡ true
      → found_told (found_v2 Time parse_date parse_time p) ≡ true
  found_v2-told (failed e) h = h
  found_v2-told (parsed v2) h = refl

  parse_from_form-told :
      (r : Request)
      → (r.body_is_kept ≡ false)
        ⊎ (found_told (parse_from_form Time parse_date parse_time r) ≡ true)
  unfolding parse_from_form is_coded err_to_api_err_code is has
  parse_from_form-told r = elim (Bool-cases r.body_is_kept) [
    | inr lost ↦ inl lost
    | inl kept ↦ elim (Option-cases r.form) [
      | inl bad ↦ inr (rw (parse_from_form, kept, bad) refl)
      | inr (form, got) ↦ inr (rw (parse_from_form, kept, got) (parse_form-told form))
    ]
  ]

  Found-cases :
      (f : Found)
      → ((k : Bytes) × (f ≡ key k)) ⊎ ((f ≡ panics) ⊎ ((e : CredentialError) × (f ≡ fails e)))
  Found-cases (key k) = inl (k, refl)
  Found-cases panics = inr (inl refl)
  Found-cases (fails e) = inr (inr (e, refl))

  -- what is found is no error, or one that has a code, or the request has no key or no body to keep
  abbrev IsExpected : Request → Found → Type 0
  IsExpected r f =
      (f ≡ fails (sentinel no_access_key)) ⊎ ((r.body_is_kept ≡ false) ⊎ (found_told f ≡ true))

  either :
      (b : Bool) (r : Request) (f g : Found)
      → IsExpected r f
      → IsExpected r g
      → IsExpected r (if b then f else g)
  either true r f g hf hg = hf
  either false r f g hf hg = hg

  get_access_key_id-IsExpected :
      (r : Request) → IsExpected r (get_access_key_id Time parse_date parse_time r)
  unfolding get_access_key_id
  get_access_key_id-IsExpected r =
      either (is_request_signature_v4 r) r _ _
        (inr (inr (found_v4-told _ (parse_v4_from_header-told r))))
        (either (is_request_presigned_signature_v4 r) r _ _
          (inr (inr (found_v4-told _ (parse_v4_from_query-told r))))
          (either (is_request_signature_v2 r) r _ _
            (inr (inr (found_v2-told _ (parse_v2_from_header-told r))))
            (either (is_request_presigned_signature_v2 r) r _ _
              (inr (inr (found_v2-told _ (parse_v2_from_query-told r))))
              (either (is_request_post_policy_signature r) r _ _ (inr (parse_from_form-told r))
                (inl refl)))))

  sum-cases : {A B : Type 0} (s : A ⊎ B) → ((a : A) × (s ≡ inl a)) ⊎ ((b : B) × (s ≡ inr b))
  sum-cases (inl a) = inl (a, refl)
  sum-cases (inr b) = inr (b, refl)

  module _ {E R : Type 0} (resolve : Bytes → R ⊎ E) where
    -- If the body of a request can be kept, then the middleware AccessKey never answers with the
    -- generic error: every error of the parsers that it reports has a code of the S3 API.
    pub access_key-coded :
        (r : Request)
        → r.body_is_kept ≡ true
        → access_key Time parse_date parse_time resolve r ≢ Served.error_response none
    unfolding access_key is_coded
    access_key-coded r kept h = elim (get_access_key_id-IsExpected r) [
      | inl absent ↦ let g = rw (access_key, absent) at h in absurd (let g' = g in cc)
      | inr (inl lost) ↦ absurd (ground arith)
      | inr (inr good) ↦ elim (Found-cases (get_access_key_id Time parse_date parse_time r)) [
        | inl (k, got) ↦
            let g = rw (access_key, got) at h in
            elim (sum-cases (resolve k)) [
              | inl (a, answered) ↦ absurd (let f = rw answered at g in cc)
              | inr (a, refused) ↦ absurd (let f = rw refused at g in cc)
            ]
        | inr (inl got) ↦ absurd (let g = rw (access_key, got) at h in cc)
        | inr (inr (e, got)) ↦
            let coded : is_coded e ≡ true = rw got at good in
            let g = rw (access_key, got) at h in absurd (ground (arith, g, coded))
      ]
    ]
