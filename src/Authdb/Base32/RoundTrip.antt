-- ===== src/Authdb/Base32/RoundTrip.antt =====
-- What is encoded is decoded, for the lengths that leave no symbol unread.
use gateway_mt.Prelude.{
  ℕ, zero, suc, ◌+◌, ◌*◌, ◌/◌, ◌%◌, ◌<◌, ◌≡◌, refl, sym, ap, ◌∙◌, List, [], ◌∷◌, ◌++◌, ltb,
  if◌then◌else◌, arith, All, length, length-append, length-replicate, replicate, append_assoc,
}
use gateway_mt.Prelude.Bytes.{Bytes}
use gateway_mt.Errs.{ok}
use gateway_mt.Authdb.Base32.{
  bits_8, bits_5, value_5, all_bits, fives, eights, symbols, encode_lower, to_upper, strip_newlines,
  values, usable, decode_upper,
}

abbrev IsBit : ℕ → Type 0
IsBit n = n < 2

abbrev pub IsByte : ℕ → Type 0
IsByte n = n < 256

bits_5-value_5 :
    (a b c d e : ℕ)
    → IsBit a
    → IsBit b
    → IsBit c
    → IsBit d
    → IsBit e
    → bits_5 (value_5 a b c d e) ≡ a ∷ b ∷ c ∷ d ∷ e ∷ []
unfolding bits_5
bits_5-value_5 a b c d e ha hb hc hd he =
    let p1 : value_5 a b c d e / 16 % 2 ≡ a = omega arith in
    let p2 : value_5 a b c d e / 8 % 2 ≡ b = omega arith in
    let p3 : value_5 a b c d e / 4 % 2 ≡ c = omega arith in
    let p4 : value_5 a b c d e / 2 % 2 ≡ d = omega arith in
    let p5 : value_5 a b c d e % 2 ≡ e = omega arith in rw (p1, p2, p3, p4, p5) refl

eights-bits_8 : (n : ℕ) (r : List ℕ) → IsByte n → eights (bits_8 n ++ r) ≡ n ∷ eights r
unfolding eights bits_8
eights-bits_8 n r h = ap (λ x. x ∷ eights r) (omega arith)

bits_8-IsBit : (n : ℕ) → All IsBit (bits_8 n)
unfolding bits_8
bits_8-IsBit n = (
  omega arith,
  (
    omega arith,
    (omega arith, (omega arith, (omega arith, (omega arith, (omega arith, (omega arith, tt)))))),
  ),
)

-- The symbols spell the bits, with up to four zeros behind them.
all_bits-fives :
    (xs : List ℕ)
    → All IsBit xs
    → (z : ℕ) × (z < 5) × (all_bits bits_5 (fives xs) ≡ xs ++ replicate z 0)
unfolding all_bits fives
all_bits-fives [] h = (0, omega arith, refl)
all_bits-fives (a ∷ []) (ha, _) = (
  4,
  omega arith,
  rw (bits_5-value_5 a 0 0 0 0 ha (omega arith) (omega arith) (omega arith) (omega arith)) refl,
)
all_bits-fives (a ∷ b ∷ []) (ha, (hb, _)) = (
  3,
  omega arith,
  rw (bits_5-value_5 a b 0 0 0 ha hb (omega arith) (omega arith) (omega arith)) refl,
)
all_bits-fives (a ∷ b ∷ c ∷ []) (ha, (hb, (hc, _))) =
    (2, omega arith, rw (bits_5-value_5 a b c 0 0 ha hb hc (omega arith) (omega arith)) refl)
all_bits-fives (a ∷ b ∷ c ∷ d ∷ []) (ha, (hb, (hc, (hd, _)))) =
    (1, omega arith, rw (bits_5-value_5 a b c d 0 ha hb hc hd (omega arith)) refl)
all_bits-fives (a ∷ b ∷ c ∷ d ∷ e ∷ r) (ha, (hb, (hc, (hd, (he, hr))))) =
    let (z, small, same) = all_bits-fives r hr in
    (z, small, rw (bits_5-value_5 a b c d e ha hb hc hd he, same) refl)

eights_short : (zs : List ℕ) → length zs < 8 → eights zs ≡ []
unfolding eights
eights_short [] h = refl
eights_short (a ∷ []) h = refl
eights_short (a ∷ b ∷ []) h = refl
eights_short (a ∷ b ∷ c ∷ []) h = refl
eights_short (a ∷ b ∷ c ∷ d ∷ []) h = refl
eights_short (a ∷ b ∷ c ∷ d ∷ e ∷ []) h = refl
eights_short (a ∷ b ∷ c ∷ d ∷ e ∷ f ∷ []) h = refl
eights_short (a ∷ b ∷ c ∷ d ∷ e ∷ f ∷ g ∷ []) h = refl
eights_short (a ∷ b ∷ c ∷ d ∷ e ∷ f ∷ g ∷ i ∷ r) h = absurd (omega arith)

eights-all_bits :
    (bytes zs : List ℕ)
    → All IsByte bytes
    → length zs < 8
    → eights (all_bits bits_8 bytes ++ zs) ≡ bytes
unfolding all_bits
eights-all_bits [] zs h short = eights_short zs short
eights-all_bits (n ∷ bytes) zs (hn, h) short =
    rw
      (
        append_assoc (bits_8 n) (all_bits bits_8 bytes) zs,
        eights-bits_8 n (all_bits bits_8 bytes ++ zs) hn,
      )
      (ap (λ r. n ∷ r) (eights-all_bits bytes zs h short))

All-append : (P : ℕ → Type 0) (xs ys : List ℕ) → All P xs → All P ys → All P (xs ++ ys)
All-append P [] ys h q = q
All-append P (x ∷ xs) ys (hx, h) q = (hx, All-append P xs ys h q)

all_bits-IsBit : (bytes : List ℕ) → All IsBit (all_bits bits_8 bytes)
unfolding all_bits
all_bits-IsBit [] = tt
all_bits-IsBit (n ∷ bytes) =
    All-append IsBit (bits_8 n) (all_bits bits_8 bytes) (bits_8-IsBit n) (all_bits-IsBit bytes)

abbrev IsValue : ℕ → Type 0
IsValue v = v < 32

fives-IsValue : (xs : List ℕ) → All IsBit xs → All IsValue (fives xs)
unfolding fives
fives-IsValue [] h = tt
fives-IsValue (a ∷ []) (ha, _) = (omega arith, tt)
fives-IsValue (a ∷ b ∷ []) (ha, (hb, _)) = (omega arith, tt)
fives-IsValue (a ∷ b ∷ c ∷ []) (ha, (hb, (hc, _))) = (omega arith, tt)
fives-IsValue (a ∷ b ∷ c ∷ d ∷ []) (ha, (hb, (hc, (hd, _)))) = (omega arith, tt)
fives-IsValue (a ∷ b ∷ c ∷ d ∷ e ∷ r) (ha, (hb, (hc, (hd, (he, hr))))) =
    (omega arith, fives-IsValue r hr)

-- the upper case symbol of a value
abbrev upper_symbol : ℕ → ℕ
upper_symbol v = if ltb v 26 then v + 65 else v + 24

unfoldable upper_symbols : List ℕ → Bytes
upper_symbols [] = []
upper_symbols (v ∷ vs) = upper_symbol v ∷ upper_symbols vs

to_upper-symbols : (vs : List ℕ) → All IsValue vs → to_upper (symbols vs) ≡ upper_symbols vs
unfolding to_upper symbols upper_symbols
to_upper-symbols [] h = refl
to_upper-symbols (v ∷ []) (hv, h) = ground arith
to_upper-symbols (v ∷ w ∷ vs) (hv, h) = ground (arith, to_upper-symbols (w ∷ vs) h)

values-upper_symbols :
    (vs : List ℕ) → All IsValue vs → values (strip_newlines (upper_symbols vs)) ≡ ok vs
unfolding strip_newlines upper_symbols values
values-upper_symbols [] h = refl
values-upper_symbols (v ∷ vs) (hv, h) = ground (arith, values-upper_symbols vs h)

usable_all : (n : ℕ) (vs : List ℕ) → length vs ≡ n * 8 + 4 → usable vs ≡ vs
unfolding usable
usable_all n (a ∷ b ∷ c ∷ d ∷ []) h = refl
usable_all (suc n) (a ∷ b ∷ c ∷ d ∷ e ∷ f ∷ g ∷ i ∷ r) h =
    ap (λ s. a ∷ b ∷ c ∷ d ∷ e ∷ f ∷ g ∷ i ∷ s) (usable_all n r (omega arith))
usable_all zero (a ∷ b ∷ c ∷ d ∷ e ∷ f ∷ g ∷ i ∷ r) h = absurd (omega arith)
usable_all n [] h = absurd (omega arith)
usable_all n (a ∷ []) h = absurd (omega arith)
usable_all n (a ∷ b ∷ []) h = absurd (omega arith)
usable_all n (a ∷ b ∷ c ∷ []) h = absurd (omega arith)
usable_all n (a ∷ b ∷ c ∷ d ∷ e ∷ []) h = absurd (omega arith)
usable_all n (a ∷ b ∷ c ∷ d ∷ e ∷ f ∷ []) h = absurd (omega arith)
usable_all n (a ∷ b ∷ c ∷ d ∷ e ∷ f ∷ g ∷ []) h = absurd (omega arith)

length-all_bits_5 : (vs : List ℕ) → length (all_bits bits_5 vs) ≡ length vs * 5
unfolding all_bits bits_5
length-all_bits_5 [] = omega arith
length-all_bits_5 (v ∷ vs) = omega (arith, length-all_bits_5 vs)

length-all_bits_8 : (vs : List ℕ) → length (all_bits bits_8 vs) ≡ length vs * 8
unfolding all_bits bits_8
length-all_bits_8 [] = omega arith
length-all_bits_8 (v ∷ vs) = omega (arith, length-all_bits_8 vs)

length-symbols : (vs : List ℕ) → length (symbols vs) ≡ length vs
unfolding symbols
length-symbols [] = refl
length-symbols (v ∷ vs) = ap suc (length-symbols vs)

-- Seventeen bytes are printed as 28 symbols, which are read back.
pub decode_upper-encode_lower :
    (bytes : Bytes)
    → All IsByte bytes
    → length bytes ≡ 17
    → (length (encode_lower bytes) ≡ 28) × (decode_upper (encode_lower bytes) ≡ ok bytes)
unfolding encode_lower decode_upper
decode_upper-encode_lower bytes h size =
    let xs = all_bits bits_8 bytes in
    let vs = fives xs in
    let (z, small, spelled) = all_bits-fives xs (all_bits-IsBit bytes) in
    let lz : length (replicate {A = ℕ} z 0) ≡ z = length-replicate z 0 in
    let total : length vs * 5 ≡ length xs + length (replicate {A = ℕ} z 0) =
      sym (length-all_bits_5 vs) ∙ ap length spelled ∙ length-append xs (replicate z 0) in
    let lx = length-all_bits_8 bytes in
    let lv : length vs ≡ 28 = omega arith in
    let fine = fives-IsValue xs (all_bits-IsBit bytes) in
    let read : values (strip_newlines (to_upper (symbols vs))) ≡ ok vs =
      rw (to_upper-symbols vs fine) (values-upper_symbols vs fine) in
    (
      length-symbols vs ∙ lv,
      rw (decode_upper, read, usable_all 3 vs (omega arith), spelled)
          (ap ok (eights-all_bits bytes (replicate z 0) h (omega arith))),
    )
