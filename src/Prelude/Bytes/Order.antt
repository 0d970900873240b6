-- ===== src/Prelude/Bytes/Order.antt =====
-- Laws of the byte-wise order and of prefixes; big-endian numbers sort as the numbers do.
use gateway_mt.Prelude.Tests.{leb}
use gateway_mt.Prelude.Lists.{length}
use Prim.Native.Nat.{ℕ, zero, suc, ◌<◌, ◌/◌, ◌%◌, ◌^◌}
use mathlib.Core.Path.{◌≡◌, refl, sym, ◌∙◌}
use mathlib.Core.Bool.{true, false, not, ◌&&◌, ◌||◌}
use native.Mathlib.Nat.{pow-suc}
use mathlib.Core.List.{[], ◌∷◌, ◌++◌}
use mathlib.Core.Logic.{◌≢◌}
use native.Mathlib.Omega.{arith}
use gateway_mt.Prelude.Bytes.{
  Bytes, eq_bytes, leb_bytes, ltb_bytes, is_prefix, put_be, length-put_be,
}

pub eq_bytes_refl : (xs : Bytes) → eq_bytes xs xs ≡ true
unfolding eq_bytes
eq_bytes_refl [] = refl
eq_bytes_refl (x ∷ xs) = ground (arith, eq_bytes_refl xs)

pub eq_bytes_sound : (xs ys : Bytes) → eq_bytes xs ys ≡ true → xs ≡ ys
unfolding eq_bytes
eq_bytes_sound [] [] h = refl
eq_bytes_sound (x ∷ xs) (y ∷ ys) h = ground (arith, eq_bytes_sound xs ys)
eq_bytes_sound _ _ h = ground arith

-- Strings of different lengths differ.
pub eq_bytes_lengths : (xs ys : Bytes) → length xs ≢ length ys → eq_bytes xs ys ≡ false
unfolding eq_bytes
eq_bytes_lengths [] [] h = absurd (h refl)
eq_bytes_lengths [] (y ∷ ys) h = refl
eq_bytes_lengths (x ∷ xs) [] h = refl
eq_bytes_lengths (x ∷ xs) (y ∷ ys) h = ground (arith, eq_bytes_lengths xs ys (omega arith))

pub eq_bytes_ne : (xs ys : Bytes) → xs ≢ ys → eq_bytes xs ys ≡ false
eq_bytes_ne xs ys h = ground (arith, eq_bytes_sound xs ys)

-- A common prefix does not matter.
pub leb_bytes-append_left : (p xs ys : Bytes) → leb_bytes (p ++ xs) (p ++ ys) ≡ leb_bytes xs ys
unfolding leb_bytes
leb_bytes-append_left [] xs ys = refl
leb_bytes-append_left (x ∷ p) xs ys = ground (arith, leb_bytes-append_left p xs ys)

-- Nor does what follows the longer side.
pub leb_bytes-append_right :
    (xs ys zs : Bytes) → length xs ≡ length ys → leb_bytes xs (ys ++ zs) ≡ leb_bytes xs ys
unfolding leb_bytes
leb_bytes-append_right [] ys zs h = refl
leb_bytes-append_right (x ∷ xs) [] zs h = absurd (omega arith)
leb_bytes-append_right (x ∷ xs) (y ∷ ys) zs h = ground (arith, leb_bytes-append_right xs ys zs)

-- Of equally long heads, the order of the whole strings decides.
pub leb_bytes_heads :
    (xs ys us vs : Bytes)
    → length xs ≡ length ys
    → leb_bytes (xs ++ us) (ys ++ vs) ≡ true
    → leb_bytes xs ys ≡ true
unfolding leb_bytes
leb_bytes_heads [] ys us vs e h = refl
leb_bytes_heads (x ∷ xs) [] us vs e h = absurd (omega arith)
leb_bytes_heads (x ∷ xs) (y ∷ ys) us vs e h = ground (arith, leb_bytes_heads xs ys us vs)

pub is_prefix-append : (p xs : Bytes) → is_prefix p (p ++ xs) ≡ true
unfolding is_prefix
is_prefix-append [] xs = refl
is_prefix-append (x ∷ p) xs = ground (arith, is_prefix-append p xs)

pub is_prefix_left : (p q xs : Bytes) → is_prefix (p ++ q) xs ≡ true → is_prefix p xs ≡ true
unfolding is_prefix
is_prefix_left [] q xs h = refl
is_prefix_left (x ∷ p) q [] h = cc
is_prefix_left (x ∷ p) q (y ∷ xs) h = ground (arith, is_prefix_left p q xs)

pub is_prefix_cut : (p q xs : Bytes) → length p ≡ length q → is_prefix p (q ++ xs) ≡ true → p ≡ q
unfolding is_prefix
is_prefix_cut [] [] xs e h = refl
is_prefix_cut [] (y ∷ q) xs e h = absurd (omega arith)
is_prefix_cut (x ∷ p) [] xs e h = absurd (omega arith)
is_prefix_cut (x ∷ p) (y ∷ q) xs e h = ground (arith, is_prefix_cut p q xs)

leb_bytes-snoc :
    (xs ys : Bytes) (a b : ℕ)
    → length xs ≡ length ys
    → leb_bytes (xs ++ (a ∷ [])) (ys ++ (b ∷ []))
      ≡ (leb_bytes xs ys && (not (leb_bytes ys xs) || leb a b))
unfolding leb_bytes
leb_bytes-snoc [] [] a b e = ground arith
leb_bytes-snoc [] (y ∷ ys) a b e = absurd (omega arith)
leb_bytes-snoc (x ∷ xs) [] a b e = absurd (omega arith)
leb_bytes-snoc (x ∷ xs) (y ∷ ys) a b e = ground (arith, leb_bytes-snoc xs ys a b)

-- Big-endian numbers of one width sort as the numbers do.
pub leb_bytes-put_be :
    (w m n : ℕ) → m < 256 ^ w → n < 256 ^ w → leb_bytes (put_be w m) (put_be w n) ≡ leb m n
unfolding leb_bytes put_be
leb_bytes-put_be zero m n hm hn = ground arith
leb_bytes-put_be (suc w) m n hm hn =
    let am : m / 256 < 256 ^ w = omega (arith, pow-suc 256 w) in
    let an : n / 256 < 256 ^ w = omega (arith, pow-suc 256 w) in
    rw
      (leb_bytes-snoc (put_be w (m / 256)) (put_be w (n / 256)) (m % 256) (n % 256)
        (length-put_be w (m / 256) ∙ sym (length-put_be w (n / 256))))
      (rw
        (leb_bytes-put_be w (m / 256) (n / 256) am an, leb_bytes-put_be w (n / 256) (m / 256) an am)
        (ground arith))

pub leb_bytes_total : (xs ys : Bytes) → leb_bytes xs ys ≡ false → leb_bytes ys xs ≡ true
unfolding leb_bytes
leb_bytes_total [] ys h = cc
leb_bytes_total (x ∷ xs) [] h = refl
leb_bytes_total (x ∷ xs) (y ∷ ys) h = ground (arith, leb_bytes_total xs ys)

pub leb_bytes_antisym : (xs ys : Bytes) → leb_bytes xs ys ≡ true → leb_bytes ys xs ≡ true → xs ≡ ys
unfolding leb_bytes
leb_bytes_antisym [] [] h k = refl
leb_bytes_antisym [] (y ∷ ys) h k = cc
leb_bytes_antisym (x ∷ xs) [] h k = cc
leb_bytes_antisym (x ∷ xs) (y ∷ ys) h k = ground (arith, leb_bytes_antisym xs ys)

pub leb_bytes_trans :
    (xs ys zs : Bytes) → leb_bytes xs ys ≡ true → leb_bytes ys zs ≡ true → leb_bytes xs zs ≡ true
unfolding leb_bytes
leb_bytes_trans [] ys zs h k = refl
leb_bytes_trans (x ∷ xs) [] zs h k = cc
leb_bytes_trans (x ∷ xs) (y ∷ ys) [] h k = cc
leb_bytes_trans (x ∷ xs) (y ∷ ys) (z ∷ zs) h k = ground (arith, leb_bytes_trans xs ys zs)

pub ltb_bytes_trans :
    (xs ys zs : Bytes) → ltb_bytes xs ys ≡ true → ltb_bytes ys zs ≡ true → ltb_bytes xs zs ≡ true
ltb_bytes_trans xs ys zs h k = ground (
  arith,
  leb_bytes_trans xs ys zs,
  leb_bytes_antisym xs ys,
  eq_bytes_sound xs zs,
  eq_bytes_refl xs,
  leb_bytes_antisym ys xs,
)
