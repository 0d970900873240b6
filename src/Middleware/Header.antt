-- ===== src/Middleware/Header.antt =====
-- The header Authorization of a V4 request (ParseV4FromHeader of credentials.go): the loop over its fields
-- comes to an end, and what it finds in a header that is put together from its parts.
use gateway_mt.Prelude.{
  ℕ, zero, suc, ◌<◌, ◌≤◌, ◌≡◌, refl, ◌∙◌, ◌⊎◌, inl, inr, Bool, true, false, not, ◌||◌, Option, some,
  [], ◌∷◌, ◌++◌, ◌==◌, length, arith, Option-cases,
}
use gateway_mt.Prelude.Bytes.{Bytes, is_prefix}
use gateway_mt.Prelude.Text.{codes}
use gateway_mt.Middleware.Splitting.{
  span, split, is_empty, Lacks, lacks, lacks-Lacks, strip_prefix-append,
}
use gateway_mt.Middleware.Errors.{parsed, Parsed-cases}
use gateway_mt.Middleware.Credentials.{
  Request, slash, comma, equals, semicolon, V4Credential, V4, parse_v4_credential, field,
  field_after, skip_comma, put_field, put_fields, line_after, is_line, parse_v4_from_header, new_v4,
}
use gateway_mt.Middleware.AccessKey.{is_request_signature_v4, get_access_key_id, Served, access_key}
use gateway_mt.Middleware.RoundTrip.{
  IsPart, credential_text, parse_v4_credential-credential_text, IsKey, IsValue, field-cons,
  field-last,
}

length-span : (p : ℕ → Bool) (s : Bytes) → length (span p s).1 ≤ length s
unfolding span
length-span p [] = omega arith
length-span p (c ∷ s) = ground (arith, length-span p s)

module _ (Time : Type 0) (parse_date parse_time : Bytes → Option Time) where
  length-skip_comma : (s : Bytes) → length (skip_comma Time parse_date parse_time s) ≤ length s
  unfolding skip_comma
  length-skip_comma [] = omega arith
  length-skip_comma (c ∷ s) =
      let h = length-span (λ x. x == 32) s in
      let g = length-span (λ x. x == 32) (c ∷ s) in ground arith

  length-field_after :
      (key s k v rest : Bytes)
      → field_after Time parse_date parse_time key s ≡ some (k, v, rest)
      → length rest < length s
  unfolding field_after
  length-field_after key [] k v rest h = absurd (let g = h in cc)
  length-field_after key (c ∷ s) k v rest h =
      let val = span (λ x. not (x == comma)) s in
      let h1 = length-span (λ x. not (x == comma)) s in
      let h2 = length-skip_comma val.1 in ground (arith, h)

  length-field :
      (kvs k v rest : Bytes)
      → field Time parse_date parse_time kvs ≡ some (k, v, rest)
      → length rest < length kvs
  unfolding field
  length-field kvs k v rest h =
      let key = span (λ x. not (x == comma || x == equals)) kvs in
      let h1 : length rest < length key.1 = length-field_after key.0 key.1 k v rest h in
      let h2 : length key.1 ≤ length kvs = length-span (λ x. not (x == comma || x == equals)) kvs in
      omega arith

  put_fields-same :
      (f g : ℕ) (kvs : Bytes) (v4 : V4 Time parse_date parse_time)
      → length kvs ≤ f
      → length kvs ≤ g
      → put_fields Time parse_date parse_time f kvs v4
        ≡ put_fields Time parse_date parse_time g kvs v4
  unfolding put_fields
  put_fields-same f g [] v4 hf hg = refl
  put_fields-same zero g (c ∷ kvs) v4 hf hg = absurd (omega arith)
  put_fields-same (suc f) zero (c ∷ kvs) v4 hf hg = absurd (omega arith)
  put_fields-same (suc f) (suc g) (c ∷ kvs) v4 hf hg =
      elim (Option-cases (field Time parse_date parse_time (c ∷ kvs))) [
        | inl absent ↦ rw (put_fields, absent) refl
        | inr ((k, v, rest), found) ↦
            let shorter = length-field (c ∷ kvs) k v rest found in
            elim (Parsed-cases (put_field Time parse_date parse_time k v v4)) [
              | inl (v5, put) ↦
                  rw (put_fields, found, put)
                    (put_fields-same f g rest v5 (omega arith) (omega arith))
              | inr (e, bad) ↦ rw (put_fields, found, bad) refl
            ]
      ]

  -- The length of what is left of the header is fuel enough for the loop over its fields.
  pub put_fields-enough :
      (fuel : ℕ) (kvs : Bytes) (v4 : V4 Time parse_date parse_time)
      → length kvs ≤ fuel
      → put_fields Time parse_date parse_time fuel kvs v4
        ≡ put_fields Time parse_date parse_time (length kvs) kvs v4
  put_fields-enough fuel kvs v4 h = put_fields-same fuel (length kvs) kvs v4 h (omega arith)

  put_fields-step :
      (kvs k v rest : Bytes) (v4 v5 : V4 Time parse_date parse_time)
      → field Time parse_date parse_time kvs ≡ some (k, v, rest)
      → put_field Time parse_date parse_time k v v4 ≡ parsed v5
      → put_fields Time parse_date parse_time (length kvs) kvs v4
        ≡ put_fields Time parse_date parse_time (length rest) rest v5
  unfolding put_fields
  put_fields-step [] k v rest v4 v5 found put =
      absurd (let h = length-field [] k v rest found in omega arith)
  put_fields-step (c ∷ kvs) k v rest v4 v5 found put =
      let shorter = length-field (c ∷ kvs) k v rest found in
      rw (put_fields, found, put) (put_fields-enough (length kvs) rest v5 (omega arith))

-- the fields of a header
abbrev pub fields_text : Bytes → Bytes → Bytes → Bytes
fields_text given headers signature =
    codes "Credential="
    ++ (given ++ (codes ", SignedHeaders=" ++ (headers ++ (codes ", Signature=" ++ signature))))

module _ (Time : Type 0) (parse_date parse_time : Bytes → Option Time) where
  keys :
      (k : Bytes)
      → is_empty k ≡ false
      → lacks (λ x. not (not (x == comma || x == equals))) k ≡ true
      → IsKey k
  keys k h l = (h, lacks-Lacks (λ x. not (not (x == comma || x == equals))) k l)

  abbrev Credential : Type 0
  Credential = V4Credential Time parse_date parse_time

  put_fields-fields_text :
      (given headers signature : Bytes) (c : Credential) (v4 : V4 Time parse_date parse_time)
      → IsValue given
      → IsValue headers
      → IsValue signature
      → parse_v4_credential Time parse_date parse_time given ≡ parsed c
      → put_fields Time parse_date parse_time
          (length (fields_text given headers signature))
          (fields_text given headers signature)
          v4
        ≡ parsed (record v4 {
          credential = some c;
          signed_headers = split semicolon headers;
          signature = signature;
        })
  unfolding put_field put_fields
  put_fields-fields_text given headers signature c v4 hg hh hs good =
      let a = record v4 { credential = some c } in
      let b = record a { signed_headers = split semicolon headers } in
      let headers_left =
        codes "SignedHeaders=" ++ (headers ++ (codes ", Signature=" ++ signature)) in
      put_fields-step Time parse_date parse_time (fields_text given headers signature)
        (codes "Credential") given headers_left v4 a
        (field-cons Time parse_date parse_time (codes "Credential") given 83 _
          (keys (codes "Credential") refl refl) hg refl)
        (rw (put_field, good) refl)
      ∙ put_fields-step Time parse_date parse_time headers_left (codes "SignedHeaders") headers
          (codes "Signature=" ++ signature) a b
          (field-cons Time parse_date parse_time (codes "SignedHeaders") headers 83 _
            (keys (codes "SignedHeaders") refl refl) hh refl)
          refl
      ∙ put_fields-step Time parse_date parse_time (codes "Signature=" ++ signature)
          (codes "Signature") signature [] b (record b { signature = signature })
          (field-last Time parse_date parse_time (codes "Signature") signature
            (keys (codes "Signature") refl refl) hs)
          refl

  -- If the header Authorization of a request is the algorithm followed by `Credential=`, `,
  -- SignedHeaders=` and `, Signature=`, each with its value, where no value is empty or has a
  -- comma, and there is no line break; the key, the date and the service of the credential are not
  -- empty, and they and the region have no slash; and the date of the credential and that of the
  -- request can be parsed, then ParseV4FromHeader finds exactly these parts.
  pub parse_v4_from_header-fields_text :
      (r : Request) (id date region service headers signature : Bytes) (d t : Time)
      → r.authorization
        ≡ codes "AWS4-HMAC-SHA256 "
          ++ fields_text (credential_text id date region service) headers signature
      → IsPart id
      → IsPart date
      → Lacks (λ c. c == slash) region
      → IsPart service
      → IsValue (credential_text id date region service)
      → IsValue headers
      → IsValue signature
      → is_line (fields_text (credential_text id date region service) headers signature) ≡ true
      → parse_date date ≡ some d
      → parse_time r.amz_date ≡ some t
      → parse_v4_from_header Time parse_date parse_time r
        ≡ parsed (record {
          credential =
              some (record { access_key_id = id; date = d; region = region; service = service });
          signed_headers = split semicolon headers;
          signature = signature;
          content_sha256 = r.amz_content_sha256;
          date = some t;
          from_header = true;
        })
  unfolding parse_v4_from_header line_after
  parse_v4_from_header-fields_text r id date region service headers signature d t given hi hd hr hs
        hc hh hg line valid timed =
      let text = fields_text (credential_text id date region service) headers signature in
      let good =
        parse_v4_credential-credential_text Time parse_date parse_time id date region service d hi
          hd hr hs valid in
      rw
        (
          parse_v4_from_header,
          given,
          line_after,
          strip_prefix-append (codes "AWS4-HMAC-SHA256 ") text,
          line,
          timed,
        )
        (put_fields-fields_text (credential_text id date region service) headers signature _
          (new_v4 _ _ _ r t) hc hh hg good)

  -- A request whose header Authorization is `AWS4-HMAC-SHA256 Signature=` and a signature that is
  -- not empty and has no commas or line breaks, and whose date can be parsed, makes the middleware
  -- AccessKey follow a nil pointer.
  pub access_key-no_credential :
      {E R : Type 0} (resolve : Bytes → R ⊎ E) (r : Request) (signature : Bytes) (t : Time)
      → r.authorization ≡ codes "AWS4-HMAC-SHA256 Signature=" ++ signature
      → IsValue signature
      → is_line (codes "Signature=" ++ signature) ≡ true
      → parse_time r.amz_date ≡ some t
      → access_key Time parse_date parse_time resolve r ≡ Served.crashes
  unfolding access_key get_access_key_id is_request_signature_v4 parse_v4_from_header line_after
      put_field put_fields is_prefix
  access_key-no_credential resolve r signature t given hs line timed =
      let text = codes "Signature=" ++ signature in
      let only =
        put_fields-step Time parse_date parse_time text (codes "Signature") signature []
          (new_v4 _ _ _ r t)
          (record (new_v4 Time parse_date parse_time r t) { signature = signature })
          (field-last Time parse_date parse_time (codes "Signature") signature
            (keys (codes "Signature") refl refl) hs)
          refl in
      let read : parse_v4_from_header Time parse_date parse_time r
          ≡ parsed (record (new_v4 Time parse_date parse_time r t) { signature = signature }) =
        rw
          (
            parse_v4_from_header,
            given,
            line_after,
            strip_prefix-append (codes "AWS4-HMAC-SHA256 ") text,
            line,
            timed,
          )
          only in
      let v4 : is_request_signature_v4 r ≡ true = rw (is_request_signature_v4, given) refl in
      rw (access_key, get_access_key_id, v4, read) refl
