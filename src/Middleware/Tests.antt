-- ===== src/Middleware/Tests.antt =====
-- Requests with the access key 65 66, and with none.
use gateway_mt.Prelude.{
  ℕ, ◌≡◌, ◌≢◌, refl, ◌⊎◌, inl, true, false, not, ◌==◌, Option, none, some, [], ◌++◌, length,
}
use gateway_mt.Prelude.Bytes.{Bytes}
use gateway_mt.Prelude.Text.{codes}
use gateway_mt.Middleware.Splitting.{split, is_empty, span, lacks, lacks-Lacks}
use gateway_mt.Middleware.Errors.{parsed}
use gateway_mt.Middleware.Credentials.{
  Request, slash, comma, semicolon, parse_v4_from_header, is_line,
}
use gateway_mt.Middleware.AccessKey.{Served, access_key}
use gateway_mt.Middleware.RoundTrip.{credential_text, IsValue, IsPart}
use gateway_mt.Middleware.Header.{
  fields_text, parse_v4_from_header-fields_text, access_key-no_credential,
}
use gateway_mt.Middleware.Failures.{access_key-coded}

-- times are texts, and every text is one
abbrev time : Bytes → Option Bytes
time s = some s

abbrev given : Bytes
given = credential_text (codes "AB") (codes "20230101") [] (codes "s3")

abbrev signed : Request
signed = record {
  method = codes "GET";
  authorization =
      codes "AWS4-HMAC-SHA256 " ++ fields_text given (codes "host;x-amz-date") (codes "0f");
  amz_date = codes "20230101T000000Z";
  amz_content_sha256 = [];
  content_type = [];
  query = [];
  body_is_kept = true;
  form = none;
}

part : (w : Bytes) → is_empty w ≡ false → lacks (λ c. c == slash) w ≡ true → IsPart w
part w h l = (h, lacks-Lacks (λ c. c == slash) w l)

value : (w : Bytes) → is_empty w ≡ false → lacks (λ c. not (not (c == comma))) w ≡ true → IsValue w
value w h l = (h, lacks-Lacks (λ c. not (not (c == comma))) w l)

parse_v4_from_header-fields_text_example :
    parse_v4_from_header Bytes time time signed
    ≡ parsed (record {
      credential = some (record {
        access_key_id = codes "AB";
        date = codes "20230101";
        region = [];
        service = codes "s3";
      });
      signed_headers = split semicolon (codes "host;x-amz-date");
      signature = codes "0f";
      content_sha256 = [];
      date = some (codes "20230101T000000Z");
      from_header = true;
    })
unfolding is_line is_empty span
parse_v4_from_header-fields_text_example =
    parse_v4_from_header-fields_text Bytes time time signed (codes "AB") (codes "20230101") []
      (codes "s3") (codes "host;x-amz-date") (codes "0f") (codes "20230101")
      (codes "20230101T000000Z") refl (part (codes "AB") refl refl)
      (part (codes "20230101") refl refl) tt (part (codes "s3") refl refl) (value given refl refl)
      (value (codes "host;x-amz-date") refl refl) (value (codes "0f") refl refl) refl refl refl

abbrev bare : Request
bare = record signed { authorization = codes "AWS4-HMAC-SHA256 Signature=0f" }

abbrev resolve : Bytes → ℕ ⊎ ℕ
resolve id = inl (length id)

access_key-no_credential_example : access_key Bytes time time resolve bare ≡ Served.crashes
unfolding is_line is_empty span
access_key-no_credential_example =
    access_key-no_credential Bytes time time resolve bare (codes "0f") (codes "20230101T000000Z")
      refl (value (codes "0f") refl refl) refl refl

access_key-coded_example :
    access_key Bytes time time resolve (record signed { authorization = codes "AWS" })
    ≢ Served.error_response none
access_key-coded_example =
    access_key-coded Bytes time time resolve (record signed { authorization = codes "AWS" }) refl
