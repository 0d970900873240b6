-- ===== src/Authdb/Base32.antt =====
-- base32.StdEncoding.WithPadding(base32.NoPadding) of Go's library, with strings.ToLower and
-- strings.ToUpper, as pkg/auth/authdb/db.go uses them for the printed form of keys.
pub mod RoundTrip
use gateway_mt.Prelude.{
  ℕ, ◌+◌, ◌*◌, ◌-◌, ◌/◌, ◌%◌, Bool, true, false, ◌&&◌, ◌||◌, Option, none, some, List, [], ◌∷◌,
  ◌++◌, ◌==◌, ltb, leb, if◌then◌else◌,
}
use gateway_mt.Prelude.Bytes.{Bytes}
use gateway_mt.Errs.{Result, ok, err, message}

-- the bits of a byte and of a symbol, the highest first
unfoldable pub bits_8 : ℕ → List ℕ
bits_8 n =
    n / 128 % 2
    ∷ n / 64 % 2
    ∷ n / 32 % 2
    ∷ n / 16 % 2
    ∷ n / 8 % 2
    ∷ n / 4 % 2
    ∷ n / 2 % 2
    ∷ n % 2
    ∷ []

unfoldable pub bits_5 : ℕ → List ℕ
bits_5 n = n / 16 % 2 ∷ n / 8 % 2 ∷ n / 4 % 2 ∷ n / 2 % 2 ∷ n % 2 ∷ []

abbrev pub value_5 : ℕ → ℕ → ℕ → ℕ → ℕ → ℕ
value_5 a b c d e = a * 16 + b * 8 + c * 4 + d * 2 + e

unfoldable pub all_bits : (ℕ → List ℕ) → List ℕ → List ℕ
all_bits f [] = []
all_bits f (n ∷ ns) = f n ++ all_bits f ns

-- groups of five bits; zeros fill up the last one
unfoldable pub fives : List ℕ → List ℕ
fives (a ∷ b ∷ c ∷ d ∷ e ∷ r) = value_5 a b c d e ∷ fives r
fives (a ∷ b ∷ c ∷ d ∷ []) = value_5 a b c d 0 ∷ []
fives (a ∷ b ∷ c ∷ []) = value_5 a b c 0 0 ∷ []
fives (a ∷ b ∷ []) = value_5 a b 0 0 0 ∷ []
fives (a ∷ []) = value_5 a 0 0 0 0 ∷ []
fives [] = []

-- groups of eight bits; what is left is dropped
unfoldable pub eights : List ℕ → List ℕ
eights (a ∷ b ∷ c ∷ d ∷ e ∷ f ∷ g ∷ h ∷ r) =
    (a * 128 + b * 64 + c * 32 + d * 16 + e * 8 + f * 4 + g * 2 + h) ∷ eights r
eights _ = []

-- the lower case symbol of a value below 32: a to z, and 2 to 7
abbrev pub symbol : ℕ → ℕ
symbol v = if ltb v 26 then v + 97 else v + 24

-- the value of an upper case symbol
abbrev pub symbol_value : ℕ → Option ℕ
symbol_value c =
    if leb 65 c && leb c 90
    then some (c - 65)
    else if leb 50 c && leb c 55
    then some (c - 24)
    else none

unfoldable pub symbols : List ℕ → Bytes
symbols [] = []
symbols (v ∷ vs) = symbol v ∷ symbols vs

-- ToLower of EncodeToString
unfoldable pub encode_lower : Bytes → Bytes
unfolding symbols fives all_bits bits_8
encode_lower bytes = symbols (fives (all_bits bits_8 bytes))

-- ToUpper. Of the letters beyond ASCII only ı (196 177) and ſ (197 191) have an upper case within it,
-- I and S; the others stay other than all symbols.
unfoldable pub to_upper : Bytes → Bytes
to_upper [] = []
to_upper (c ∷ []) = (if leb 97 c && leb c 122 then c - 32 else c) ∷ []
to_upper (c ∷ d ∷ s) =
    let rest = to_upper (d ∷ s) in
    let skipped = to_upper s in
    if c == 196 && d == 177
    then 73 ∷ skipped
    else if c == 197 && d == 191
    then 83 ∷ skipped
    else (if leb 97 c && leb c 122 then c - 32 else c) ∷ rest

-- DecodeString leaves line breaks out
unfoldable pub strip_newlines : Bytes → Bytes
strip_newlines [] = []
strip_newlines (c ∷ s) =
    let rest = strip_newlines s in if c == 10 || c == 13 then rest else c ∷ rest

unfoldable pub values : Bytes → Result (List ℕ)
values [] = ok []
values (c ∷ s) =
    let rest = values s in
    elim (symbol_value c) [
      | none ↦ err message
      | some v ↦ elim rest [ ok vs ↦ ok (v ∷ vs) | err e ↦ err e ]
    ]

-- A last group of one, three or six symbols is read but not decoded.
unfoldable pub usable : List ℕ → List ℕ
usable (a ∷ b ∷ c ∷ d ∷ e ∷ f ∷ g ∷ h ∷ r) = a ∷ b ∷ c ∷ d ∷ e ∷ f ∷ g ∷ h ∷ usable r
usable (a ∷ []) = []
usable (a ∷ b ∷ c ∷ []) = []
usable (a ∷ b ∷ c ∷ d ∷ e ∷ f ∷ []) = []
usable r = r

-- DecodeString of ToUpper
unfoldable pub decode_upper : Bytes → Result Bytes
unfolding to_upper strip_newlines values usable all_bits bits_5 eights
decode_upper s = elim (values (strip_newlines (to_upper s))) [
  | err e ↦ err e
  | ok vs ↦ ok (eights (all_bits bits_5 (usable vs)))
]
