-- ===== src/Middleware/RoundTrip.antt =====
-- What the parsers of credentials.go find in a text that is put together from the parts.
use gateway_mt.Prelude.{
  ℕ, ◌≡◌, refl, sym, ap, ◌∙◌, inl, inr, false, not, ◌||◌, Option, some, List, [], ◌∷◌, ◌++◌, ◌==◌,
  arith, Bool-cases, Option-cases,
}
use mathlib.Core.Path.{subst}
use gateway_mt.Prelude.Bytes.{Bytes, eq_bytes}
use gateway_mt.Prelude.Bytes.Order.{eq_bytes_sound}
use gateway_mt.Prelude.Text.{codes}
use gateway_mt.Middleware.Splitting.{
  span, split, is_empty, Lacks, join, split-part, join-split, span-append, span-all,
}
use gateway_mt.Middleware.Errors.{parsed}
use gateway_mt.Middleware.Credentials.{
  slash, comma, equals, V4Credential, credential_parts, parse_v4_credential, field, field_after,
  skip_comma,
}

-- a part of a credential that may not be empty
abbrev pub IsPart : Bytes → Type 0
IsPart w = (is_empty w ≡ false) × Lacks (λ c. c == slash) w

-- the text of a credential
abbrev pub credential_text : Bytes → Bytes → Bytes → Bytes → Bytes
credential_text id date region service =
    id ++ (slash ∷ date ++ (slash ∷ region ++ (slash ∷ service ++ (slash ∷ codes "aws4_request"))))

split-credential_text :
    (id date region service : Bytes)
    → IsPart id
    → IsPart date
    → Lacks (λ c. c == slash) region
    → IsPart service
    → split slash (credential_text id date region service)
      ≡ id ∷ date ∷ region ∷ service ∷ codes "aws4_request" ∷ []
unfolding split
split-credential_text id date region service hi hd hr hs =
    rw
      (
        split-part slash id _ hi.1,
        split-part slash date _ hd.1,
        split-part slash region _ hr,
        split-part slash service _ hs.1,
      )
      refl

module _ (Time : Type 0) (parse_date parse_time : Bytes → Option Time) where
  -- A credential that is put together from its parts is read back into them, if its date can be parsed.
  pub parse_v4_credential-credential_text :
      (id date region service : Bytes) (d : Time)
      → IsPart id
      → IsPart date
      → Lacks (λ c. c == slash) region
      → IsPart service
      → parse_date date ≡ some d
      → parse_v4_credential Time parse_date parse_time (credential_text id date region service)
        ≡ parsed (record { access_key_id = id; date = d; region = region; service = service })
  unfolding parse_v4_credential credential_parts
  parse_v4_credential-credential_text id date region service d hi hd hr hs valid =
      rw
        (
          parse_v4_credential,
          split-credential_text id date region service hi hd hr hs,
          credential_parts,
          hi.0,
          hd.0,
          hs.0,
          valid,
        )
        refl

  credential_parts-some :
      (ws : List Bytes) (id date region service : Bytes)
      → credential_parts Time parse_date parse_time ws ≡ some (id, date, region, service)
      → ws ≡ id ∷ date ∷ region ∷ service ∷ codes "aws4_request" ∷ []
  unfolding credential_parts
  credential_parts-some (i ∷ d ∷ r ∷ s ∷ last ∷ []) id date region service h =
      elim (Bool-cases (eq_bytes last (codes "aws4_request"))) [
        | inl same ↦
            let e : last ≡ codes "aws4_request" = eq_bytes_sound last _ same in ground (arith, h)
        | inr other ↦ absurd (ground (arith, h))
      ]
  credential_parts-some [] id date region service h = absurd (let g = h in cc)
  credential_parts-some (a ∷ []) id date region service h = absurd (let g = h in cc)
  credential_parts-some (a ∷ b ∷ []) id date region service h = absurd (let g = h in cc)
  credential_parts-some (a ∷ b ∷ c ∷ []) id date region service h = absurd (let g = h in cc)
  credential_parts-some (a ∷ b ∷ c ∷ d ∷ []) id date region service h = absurd (let g = h in cc)
  credential_parts-some (a ∷ b ∷ c ∷ d ∷ e ∷ f ∷ ws) id date region service h =
      absurd (let g = h in cc)

  -- If ParseV4Credential accepts a text, then the text is the key, a date, the region, the service
  -- and the word aws4_request between slashes, and the date parses to that of the credential.
  pub parse_v4_credential-parsed :
      (text : Bytes) (c : V4Credential Time parse_date parse_time)
      → parse_v4_credential Time parse_date parse_time text ≡ parsed c
      → (date : Bytes) × (text ≡ credential_text c.access_key_id date c.region c.service)
        × (parse_date date ≡ some c.date)
  unfolding parse_v4_credential
  parse_v4_credential-parsed text c h =
      elim (Option-cases (credential_parts Time parse_date parse_time (split slash text))) [
        | inl none_found ↦ absurd (let g = rw (parse_v4_credential, none_found) at h in cc)
        | inr ((id, date, region, service), found) ↦ elim (Option-cases (parse_date date)) [
          | inl no_date ↦ absurd (let g = rw (parse_v4_credential, found, no_date) at h in cc)
          | inr (d, valid) ↦
              let made = rw (parse_v4_credential, found, valid) at h in
              let ws = credential_parts-some (split slash text) id date region service found in
              let same : text ≡ credential_text id date region service =
                sym (join-split slash text) ∙ ap (join slash) ws in
              let e : record { access_key_id = id; date = d; region = region; service = service }
                  ≡ c =
                (let g = made in cc) in
              subst
                (λ x.
                  (date : Bytes) × (text ≡ credential_text x.access_key_id date x.region x.service)
                  × (parse_date date ≡ some x.date))
                e (date, same, valid)
        ]
      ]

abbrev pub IsKey : Bytes → Type 0
IsKey k = (is_empty k ≡ false) × Lacks (λ x. not (not (x == comma || x == equals))) k

abbrev pub IsValue : Bytes → Type 0
IsValue v = (is_empty v ≡ false) × Lacks (λ x. not (not (x == comma))) v

module _ (Time : Type 0) (parse_date parse_time : Bytes → Option Time) where
  field_after-cons :
      (k v : Bytes) (c : ℕ) (s : Bytes)
      → is_empty k ≡ false
      → IsValue v
      → (c == 32) ≡ false
      → field_after Time parse_date parse_time k (equals ∷ v ++ (comma ∷ 32 ∷ c ∷ s))
        ≡ some (k, v, c ∷ s)
  unfolding field_after skip_comma span
  field_after-cons k v c s hk (hv, lv) hc =
      rw (span-append (λ x. not (x == comma)) v comma (32 ∷ c ∷ s) lv refl, hk, hv, hc) refl

  field_after-last :
      (k v : Bytes)
      → is_empty k ≡ false
      → IsValue v
      → field_after Time parse_date parse_time k (equals ∷ v) ≡ some (k, v, [])
  unfolding field_after skip_comma
  field_after-last k v hk (hv, lv) = rw (span-all (λ x. not (x == comma)) v lv, hk, hv) refl

  -- `Key=value`, followed by a comma and a space, or by nothing
  pub field-cons :
      (k v : Bytes) (c : ℕ) (s : Bytes)
      → IsKey k
      → IsValue v
      → (c == 32) ≡ false
      → field Time parse_date parse_time (k ++ (equals ∷ v ++ (comma ∷ 32 ∷ c ∷ s)))
        ≡ some (k, v, c ∷ s)
  unfolding field
  field-cons k v c s (hk, lk) hv hc =
      ap (λ q. field_after Time parse_date parse_time q.0 q.1)
        (span-append (λ x. not (x == comma || x == equals)) k equals _ lk refl)
      ∙ field_after-cons k v c s hk hv hc

  pub field-last :
      (k v : Bytes)
      → IsKey k
      → IsValue v
      → field Time parse_date parse_time (k ++ (equals ∷ v)) ≡ some (k, v, [])
  unfolding field
  field-last k v (hk, lk) hv =
      ap (λ q. field_after Time parse_date parse_time q.0 q.1)
        (span-append (λ x. not (x == comma || x == equals)) k equals _ lk refl)
      ∙ field_after-last k v hk hv
