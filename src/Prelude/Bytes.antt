-- ===== src/Prelude/Bytes.antt =====
-- Byte strings: big-endian numbers (encoding/binary), byte-wise order (bytes.Compare) and prefixes.
pub mod Order
use mathlib.Core.Path.{◌≡⟨◌⟩◌, ◌∎}
use native.Mathlib.Nat.{pow-suc}
use gateway_mt.Prelude.Tests.{ltb, leb, ◌==◌, if◌then◌else◌}
use gateway_mt.Prelude.Lists.{length, length-append}
use Prim.Native.Nat.{ℕ, zero, suc, ◌+◌, ◌*◌, ◌/◌, ◌%◌, ◌^◌, ◌<◌}
use mathlib.Core.Path.{◌≡◌, refl, ap}
use mathlib.Core.Bool.{Bool, true, false, not, ◌&&◌, ◌||◌}
use mathlib.Core.List.{List, [], ◌∷◌, ◌++◌}
use native.Mathlib.Omega.{arith}

abbrev pub Bytes : Type 0
Bytes = List ℕ

-- bytes.Equal, and == on arrays of bytes
unfoldable pub eq_bytes : Bytes → Bytes → Bool
eq_bytes [] [] = true
eq_bytes (x ∷ xs) (y ∷ ys) = (x == y) && eq_bytes xs ys
eq_bytes _ _ = false

-- bytes.Compare(xs, ys) <= 0
unfoldable pub leb_bytes : Bytes → Bytes → Bool
leb_bytes [] ys = true
leb_bytes (x ∷ xs) [] = false
leb_bytes (x ∷ xs) (y ∷ ys) = ltb x y || ((x == y) && leb_bytes xs ys)

abbrev pub ltb_bytes : Bytes → Bytes → Bool
ltb_bytes xs ys = leb_bytes xs ys && not (eq_bytes xs ys)

-- bytes.HasPrefix(ys, xs)
unfoldable pub is_prefix : Bytes → Bytes → Bool
is_prefix [] ys = true
is_prefix (x ∷ xs) [] = false
is_prefix (x ∷ xs) (y ∷ ys) = (x == y) && is_prefix xs ys

-- The low `w` bytes of `n`, the most significant first: binary.BigEndian.PutUint32 and PutUint64.
unfoldable pub put_be : ℕ → ℕ → Bytes
put_be zero n = []
put_be (suc w) n = put_be w (n / 256) ++ (n % 256 ∷ [])

get_be_from : ℕ → Bytes → ℕ
get_be_from acc [] = acc
get_be_from acc (x ∷ xs) = get_be_from (acc * 256 + x) xs

-- binary.BigEndian.Uint32 and Uint64, by the length of the input
unfoldable pub get_be : Bytes → ℕ
unfolding get_be_from
get_be xs = get_be_from 0 xs

pub length-put_be : (w n : ℕ) → length (put_be w n) ≡ w
unfolding put_be
length-put_be zero n = refl
length-put_be (suc w) n =
    omega (arith, length-append (put_be w (n / 256)) (n % 256 ∷ []), length-put_be w (n / 256))

get_be_from-append :
    (acc : ℕ) (xs : Bytes) (b : ℕ) → get_be_from acc (xs ++ (b ∷ [])) ≡ get_be_from acc xs * 256 + b
unfolding get_be_from
get_be_from-append acc [] b = refl
get_be_from-append acc (x ∷ xs) b = get_be_from-append (acc * 256 + x) xs b

pub get_be-put_be : (w n : ℕ) → n < 256 ^ w → get_be (put_be w n) ≡ n
unfolding put_be get_be
get_be-put_be zero n h = omega arith
get_be-put_be (suc w) n h =
    let p : n < 256 * 256 ^ w = omega (arith, pow-suc 256 w) in
    get_be_from 0 (put_be w (n / 256) ++ (n % 256 ∷ []))
    ≡⟨ get_be_from-append 0 (put_be w (n / 256)) (n % 256) ⟩
      get_be (put_be w (n / 256)) * 256 + n % 256
    ≡⟨ ap (λ t. t * 256 + n % 256) (get_be-put_be w (n / 256) (omega arith)) ⟩
      n / 256 * 256 + n % 256
    ≡⟨ omega arith ⟩ n ∎
