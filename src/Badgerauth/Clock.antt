-- ===== src/Badgerauth/Clock.antt =====
-- pkg/auth/badgerauth/clock.go: the logical clock of a node in its own or another node's database.
use gateway_mt.Prelude.{
  ℕ, ◌+◌, ◌^◌, ◌%◌, ◌++◌, ◌≡◌, length, drop, ap, arith, ◌==◌, if◌then◌else◌, ◌<◌,
}
use gateway_mt.Prelude.Bytes.{Bytes, put_be, get_be, length-put_be, get_be-put_be}
use gateway_mt.Prelude.Text.{codes}
use gateway_mt.Errs.{Class, message, wrap, Result, ok, err, ◌>>=◌, wrapped, is, key_not_found}
use gateway_mt.Badger.{Item, Badger}

-- Clock is an uint64.
abbrev pub u64_mod : ℕ
u64_mod = 2 ^ 64

abbrev pub clock_prefix : Bytes
clock_prefix = codes "clock_value/"

-- Clock.SetBytes
unfoldable pub clock_of : Bytes → Result ℕ
clock_of v = if length v == 8 then ok (get_be v) else err (wrap Class.clock message)

-- Clock.Bytes
unfoldable pub clock_bytes : ℕ → Bytes
clock_bytes c = put_be 8 c

unfoldable pub make_clock_key : Bytes → Bytes
make_clock_key id = clock_prefix ++ id

module _ (b : Badger) where
  open b use {State, get, set_entry}

  unfoldable pub read_clock : Bytes → State → Result ℕ
  read_clock id s = do
    item ← wrapped Class.clock (get (make_clock_key id) s)
    wrapped Class.clock (item >>= clock_of)

  -- the value that advanceClock starts from: 0 where there is no clock yet
  unfoldable pub current_clock : Result Item → Result ℕ
  current_clock (ok item) = wrapped Class.clock (item >>= clock_of)
  current_clock (err e) = if is key_not_found e then ok 0 else err (wrap Class.clock e)

  -- `current++` wraps around at 2^64.
  unfoldable pub advance_clock : Bytes → State → Result (ℕ × State)
  advance_clock id s = do
    let key = make_clock_key id
    current ← current_clock (get key s)
    let next = (current + 1) % u64_mod
    t ←
        wrapped Class.clock
          (set_entry (record { key = key; value = clock_bytes next; expires_at = 0 }) s)
    ok (next, t)

  unfoldable pub ensure_clock : Bytes → State → Result State
  ensure_clock id s =
      let key = make_clock_key id in
      elim (get key s) [
        | ok item ↦ ok s
        | err e ↦
            if is key_not_found e
            then wrapped Class.clock
                (set_entry (record { key = key; value = clock_bytes 0; expires_at = 0 }) s)
            else err (wrap Class.clock e)
      ]

-- A clock below 2^64 is read back from its bytes.
pub clock_of-clock_bytes : (c : ℕ) → c < u64_mod → clock_of (clock_bytes c) ≡ ok c
unfolding clock_of clock_bytes
clock_of-clock_bytes c h =
    let e : length (put_be 8 c) ≡ 8 = length-put_be 8 c in ground (arith, e, get_be-put_be 8 c h)

pub length-make_clock_key : (id : Bytes) → length id ≡ 32 → length (make_clock_key id) ≡ 44
unfolding make_clock_key
length-make_clock_key id h = omega arith

pub make_clock_key_injective : (i j : Bytes) → make_clock_key i ≡ make_clock_key j → i ≡ j
unfolding make_clock_key
make_clock_key_injective i j h = ap (drop 12) h
