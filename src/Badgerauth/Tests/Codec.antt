-- ===== src/Badgerauth/Tests/Codec.antt =====
-- An encoding of records that keeps the promises of the protobuf runtime, for the witnesses: numbers
-- stand for themselves, and a field of bytes follows its length.
use gateway_mt.Prelude.{
  ℕ, ◌≡◌, refl, ap, sym, ◌∙◌, Bool, true, false, [], ◌∷◌, ◌++◌, length, take, drop, take-append,
  drop-append, ◌==◌, arith,
}
use gateway_mt.Prelude.Bytes.{Bytes, eq_bytes}
use gateway_mt.Prelude.Bytes.Order.{eq_bytes_refl, eq_bytes_sound}
use gateway_mt.Errs.{ok}
use gateway_mt.Badgerauth.Proto.{PbRecord, Proto, IsCodec}

-- a field of bytes before what follows it
unfoldable pub put_field : Bytes → Bytes → Bytes
put_field v rest = length v ∷ (v ++ rest)

unfoldable pub first_field : Bytes → Bytes
first_field [] = []
first_field (n ∷ rest) = take n rest

unfoldable pub after_field : Bytes → Bytes
after_field [] = []
after_field (n ∷ rest) = drop n rest

first_field-put_field : (v rest : Bytes) → first_field (put_field v rest) ≡ v
unfolding first_field put_field
first_field-put_field v rest = take-append (length v) v rest refl

after_field-put_field : (v rest : Bytes) → after_field (put_field v rest) ≡ rest
unfolding after_field put_field
after_field-put_field v rest = drop-append (length v) v rest refl

unfoldable pub flag : Bool → ℕ
flag true = 1
flag false = 0

flag-is_one : (x : Bool) → (flag x == 1) ≡ x
unfolding flag
flag-is_one true = refl
flag-is_one false = refl

unfoldable pub encode : PbRecord → Bytes
encode r =
    r.created_at_unix
    ∷ flag r.is_public
    ∷ r.expires_at_unix
    ∷ r.invalidated_at_unix
    ∷ r.state
    ∷ put_field r.satellite_address (
        put_field r.macaroon_head (
          put_field r.encrypted_secret_key
            (put_field r.encrypted_access_grant (put_field r.invalidation_reason []))))

abbrev pub no_record : PbRecord
no_record = record {
  created_at_unix = 0;
  is_public = false;
  satellite_address = [];
  macaroon_head = [];
  expires_at_unix = 0;
  encrypted_secret_key = [];
  encrypted_access_grant = [];
  invalidation_reason = [];
  invalidated_at_unix = 0;
  state = 0;
}

unfoldable pub decode : Bytes → PbRecord
decode (made ∷ public ∷ expires ∷ invalidated ∷ state ∷ fields) = record {
  created_at_unix = made;
  is_public = public == 1;
  satellite_address = first_field fields;
  macaroon_head = first_field (after_field fields);
  expires_at_unix = expires;
  encrypted_secret_key = first_field (after_field (after_field fields));
  encrypted_access_grant = first_field (after_field (after_field (after_field fields)));
  invalidation_reason = first_field (after_field (after_field (after_field (after_field fields))));
  invalidated_at_unix = invalidated;
  state = state;
}
decode _ = no_record

decode-encode : (r : PbRecord) → decode (encode r) ≡ r
unfolding decode encode
decode-encode r = simp (first_field-put_field, after_field-put_field, flag-is_one)

unfoldable pub codec : Proto
unfolding encode decode
codec = record {
  marshal = λ r. ok (encode r);
  unmarshal = λ v. ok (decode v);
  equal = λ r q. eq_bytes (encode r) (encode q);
}

pub codec-IsCodec : IsCodec codec
unfolding codec
codec-IsCodec = record {
  unmarshal-marshal = λ r v h.
      let same : encode r ≡ v = ground (arith, h) in ap ok (ap decode (sym same) ∙ decode-encode r);
  equal_iff = λ r q. (
    (λ h.
        sym (decode-encode r)
        ∙ ap decode (eq_bytes_sound (encode r) (encode q) h)
        ∙ decode-encode q),
    λ h. ap (λ x. eq_bytes (encode r) (encode x)) (sym h) ∙ eq_bytes_refl (encode r),
  );
}
