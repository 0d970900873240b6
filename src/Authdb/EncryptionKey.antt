-- ===== src/Authdb/EncryptionKey.antt =====
-- pkg/auth/authdb/db.go: the keys that access grants are encrypted with, and their binary form.
use gateway_mt.Prelude.{
  ℕ, zero, suc, ◌≡◌, refl, ap, ◌∙◌, ◌++◌, [], ◌∷◌, length, take, drop, replicate, take_all,
  append-nil, All, ◌==◌, if◌then◌else◌, arith,
}
use gateway_mt.Prelude.Bytes.{Bytes}
use gateway_mt.Errs.{Result, ok, err, message, panic, ◌>>=◌}
use gateway_mt.Authdb.Base32.{encode_lower, decode_upper}
use gateway_mt.Authdb.Base32.RoundTrip.{decode_upper-encode_lower, IsByte}

-- encKeyVersionByte and secKeyVersionByte
abbrev pub enc_key_version_byte : ℕ
enc_key_version_byte = 77

abbrev pub sec_key_version_byte : ℕ
sec_key_version_byte = 78

-- Go's `copy` into an array from its start
unfoldable pub copy_into : Bytes → Bytes → Bytes
copy_into array v = take (length array) v ++ drop (length v) array

-- EncryptionKey.FromBinary, which overwrites `k`; it indexes its input without a check
unfoldable pub from_binary : Bytes → Bytes → Result Bytes
unfolding copy_into
from_binary k [] = err panic
from_binary k (version ∷ rest) =
    if version == enc_key_version_byte then ok (copy_into k rest) else err message

-- EncryptionKey.ToBinary
unfoldable pub to_binary : Bytes → Bytes
to_binary k = enc_key_version_byte ∷ k

-- SecretKey.ToBinary
unfoldable pub secret_to_binary : Bytes → Bytes
secret_to_binary s = sec_key_version_byte ∷ s

-- EncKeySizeEncoded
abbrev pub enc_key_size_encoded : ℕ
enc_key_size_encoded = 28

-- EncryptionKey.FromBase32
unfoldable pub from_base32 : Bytes → Bytes → Result Bytes
unfolding from_binary
from_base32 k encoded =
    if length encoded == enc_key_size_encoded
    then (decode_upper encoded >>= λ v. from_binary k v)
    else err message

-- ToBase32 of EncryptionKey and of SecretKey
unfoldable pub to_base32 : Bytes → Bytes
unfolding to_binary
to_base32 k = encode_lower (to_binary k)

unfoldable pub secret_to_base32 : Bytes → Bytes
unfolding secret_to_binary
secret_to_base32 s = encode_lower (secret_to_binary s)

-- EncryptionKey.ToStorjKey: 32 bytes, of which the key fills the first
unfoldable pub to_storj_key : Bytes → Bytes
unfolding copy_into
to_storj_key k = copy_into (replicate 32 0) k

drop_all : (n : ℕ) (xs : Bytes) → length xs ≡ n → drop n xs ≡ []
drop_all zero [] h = refl
drop_all zero (x ∷ xs) h = refl ∙ absurd (omega arith)
drop_all (suc n) [] h = refl
drop_all (suc n) (x ∷ xs) h = drop_all n xs (omega arith)

pub copy_into_all : (array v : Bytes) → length array ≡ length v → copy_into array v ≡ v
unfolding copy_into
copy_into_all array v h =
    rw (h, take_all (length v) v (omega arith), drop_all (length v) array h) (append-nil v)

-- FromBinary reads an encryption key back from what ToBinary makes of it, whatever the receiver of
-- the same length held, and it refuses the binary form of a secret key.
pub from_binary-to_binary :
    (receiver k : Bytes)
    → length receiver ≡ length k
    → (from_binary receiver (to_binary k) ≡ ok k)
      × (from_binary receiver (secret_to_binary k) ≡ err message)
unfolding from_binary to_binary secret_to_binary
from_binary-to_binary receiver k h = (ap ok (copy_into_all receiver k h), refl)

-- An encryption key of 16 bytes is read back by FromBase32 from what ToBase32 prints, whatever the
-- receiver of 16 bytes held.
pub from_base32-to_base32 :
    (receiver k : Bytes)
    → length receiver ≡ 16
    → length k ≡ 16
    → All IsByte k
    → from_base32 receiver (to_base32 k) ≡ ok k
unfolding to_base32 to_binary
from_base32-to_base32 receiver k hr hk bytes =
    let (size, read) = decode_upper-encode_lower (to_binary k) (omega arith, bytes) (omega arith) in
    unfold from_base32 from_binary in
    rw (size, read) (ap ok (copy_into_all receiver k (omega arith)))
