-- ===== src/Badger/Memory.antt =====
-- A small engine in memory that meets the promises: the newest write of a key shadows older ones.
-- The witnesses run on it.
use gateway_mt.Prelude.{
  ℕ, ◌≡◌, refl, Bool, true, false, ◌&&◌, List, [], ◌∷◌, arith, if◌then◌else◌, Bool-cases, inl, inr,
  ltb,
}
use mathlib.Core.Path.{subst, ap}
use gateway_mt.Prelude.Bytes.{Bytes, eq_bytes, leb_bytes, ltb_bytes, is_prefix}
use gateway_mt.Prelude.Bytes.Order.{eq_bytes_refl, eq_bytes_sound, leb_bytes_total, ltb_bytes_trans}
use gateway_mt.Errs.{Result, ok, err, badger, key_not_found, is_ok}
use gateway_mt.Badger.{Entry, Item, Badger, IsEngine, contains, IsAscending}

abbrev pub Table : Type 0
Table = List Entry

-- what has an expiry time below `now` has expired
unfoldable pub passed : ℕ → ℕ → Bool
passed now t = ltb 0 t && ltb t now

unfoldable pub read : ℕ → Bytes → Table → Result Item
read now k [] = err (badger key_not_found)
read now k (e ∷ t) =
    if eq_bytes e.key k
    then (if passed now e.expires_at then err (badger key_not_found) else ok (ok e.value))
    else read now k t

unfoldable pub write : Entry → Table → Result Table
write e t = ok (e ∷ t)

unfoldable pub without : Bytes → Table → Table
without k [] = []
without k (e ∷ t) = let rest = without k t in if eq_bytes k e.key then rest else e ∷ rest

unfoldable pub erase : Bytes → Table → Result Table
erase k t = ok (without k t)

unfoldable pub insert_key : Bytes → List Bytes → List Bytes
insert_key k [] = k ∷ []
insert_key k (x ∷ xs) =
    if eq_bytes k x then x ∷ xs else if leb_bytes k x then k ∷ x ∷ xs else x ∷ insert_key k xs

-- the keys of a table that pass a test, in order, each once
unfoldable pub keys : (Bytes → Bool) → Table → List Bytes
keys test [] = []
keys test (e ∷ t) = let rest = keys test t in if test e.key then insert_key e.key rest else rest

unfoldable pub scan : ℕ → Bytes → Bytes → Table → List Bytes
scan now p q t = keys (λ k. is_prefix p k && (leb_bytes q k && is_ok (read now k t))) t

abbrev pub memory : ℕ → Badger
memory now = record {
  State = Table;
  get = read now;
  set_entry = write;
  delete = erase;
  seek = scan now;
  is_expired = passed now;
}

read-without :
    (now : ℕ) (j k : Bytes) (t : Table)
    → read now k (without j t) ≡ (if eq_bytes j k then err (badger key_not_found) else read now k t)
unfolding read without
read-without now j k [] = ground arith
read-without now j k (e ∷ t) = ground (
  arith,
  read-without now j k t,
  eq_bytes_sound j e.key,
  eq_bytes_sound j k,
  eq_bytes_sound e.key k,
  eq_bytes_refl k,
)

contains-insert_key :
    (k x : Bytes) (xs : List Bytes)
    → contains (insert_key x xs) k ≡ (if eq_bytes x k then true else contains xs k)
unfolding insert_key
contains-insert_key k x [] = refl
contains-insert_key k x (y ∷ ys) = ground (arith, contains-insert_key k x ys, eq_bytes_sound x y)

-- What lies before the head of an ascending list lies before every key of it.
before_all :
    (x y : Bytes) (ys : List Bytes)
    → ltb_bytes x y ≡ true
    → IsAscending (y ∷ ys)
    → (z : Bytes) → contains (y ∷ ys) z ≡ true
    → ltb_bytes x z ≡ true
before_all x y ys h (first, _) z c = elim (Bool-cases (eq_bytes y z)) [
  | inl same ↦ subst (λ w. ltb_bytes x w ≡ true) (eq_bytes_sound y z same) h
  | inr other ↦ ltb_bytes_trans x y z h (first z (rw other at c))
]

insert_key-IsAscending :
    (x : Bytes) (xs : List Bytes) → IsAscending xs → IsAscending (insert_key x xs)
unfolding insert_key
insert_key-IsAscending x [] h = ((λ y e. cc), tt)
insert_key-IsAscending x (y ∷ ys) (first, rest) = elim (Bool-cases (eq_bytes x y)) [
  | inl same ↦ rw same (first, rest)
  | inr other ↦ elim (Bool-cases (leb_bytes x y)) [
    | inl below ↦ rw (other, below) (before_all x y ys (ground arith) (first, rest), (first, rest))
    | inr above ↦
        rw (other, above)
          (
            (λ z c. elim (Bool-cases (eq_bytes x z)) [
              | inl same ↦ ground (
                arith,
                leb_bytes_total x y,
                eq_bytes_sound x z,
                eq_bytes_sound y x,
                eq_bytes_refl x,
              )
              | inr differ ↦ first z (ground (arith, contains-insert_key z x ys))
            ]),
            insert_key-IsAscending x ys rest,
          )
  ]
]

keys-IsAscending : (test : Bytes → Bool) (t : Table) → IsAscending (keys test t)
unfolding keys
keys-IsAscending test [] = tt
keys-IsAscending test (e ∷ t) = elim (Bool-cases (test e.key)) [
  | inl h ↦ rw h (insert_key-IsAscending e.key (keys test t) (keys-IsAscending test t))
  | inr h ↦ rw h (keys-IsAscending test t)
]

-- whether a table mentions a key, expired or not
mentions : Table → Bytes → Bool
mentions [] k = false
mentions (e ∷ t) k = if eq_bytes e.key k then true else mentions t k

contains-keys :
    (test : Bytes → Bool) (k : Bytes) (t : Table)
    → contains (keys test t) k ≡ (mentions t k && test k)
unfolding keys mentions
contains-keys test k [] = refl
contains-keys test k (e ∷ t) = elim (Bool-cases (eq_bytes e.key k)) [
  | inl same ↦ rw same (
      let p = eq_bytes_sound e.key k same in
      ground
        (arith, ap test p, contains-keys test k t, contains-insert_key k e.key (keys test t), p))
  | inr other ↦
      rw other
        (ground (arith, contains-keys test k t, contains-insert_key k e.key (keys test t), other))
]

is_ok-read : (now : ℕ) (k : Bytes) (t : Table) → mentions t k ≡ false → is_ok (read now k t) ≡ false
unfolding read mentions
is_ok-read now k [] h = refl
is_ok-read now k (e ∷ t) h = ground (arith, is_ok-read now k t)

contains-scan :
    (now : ℕ) (p q k : Bytes) (t : Table)
    → contains (scan now p q t) k ≡ (is_prefix p k && (leb_bytes q k && is_ok (read now k t)))
unfolding scan
contains-scan now p q k t = ground (
  arith,
  contains-keys (λ j. is_prefix p j && (leb_bytes q j && is_ok (read now j t))) k t,
  is_ok-read now k t,
)

-- The engine in memory keeps every promise.
pub memory-IsEngine : (now : ℕ) → IsEngine (memory now)
unfolding scan
memory-IsEngine now = record {
  get-set_entry = λ e k s t h. unfold read write in ground arith;
  get-delete = λ j k s t h. unfold erase in ground (arith, read-without now j k s);
  contains-seek = λ p q k s. contains-scan now p q k s;
  seek-IsAscending = λ p q s. keys-IsAscending _ s;
  is_expired-zero = unfold passed in ground arith;
}
