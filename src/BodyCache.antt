-- ===== src/BodyCache.antt =====
-- pkg/server/middleware/body_cache.go: a reader that keeps the start of a body, to be read again.
pub mod Rereading
mod Tests
use gateway_mt.Prelude.{
  ℕ, ◌+◌, ◌-◌, Bool, true, false, Option, none, some, List, [], ◌∷◌, ◌++◌, ◌==◌, ltb, length, take,
  drop, if◌then◌else◌,
}
use gateway_mt.Prelude.Bytes.{Bytes}
use gateway_mt.Errs.{Error}

-- `stream` is what is left to be read of the original body.
pub record BodyCache : Type 0 where
  pub stream : Bytes
  pub bytes : Bytes
  pub has_read_stream : Bool
  pub i : ℕ

-- NewBodyCache; `failed` says whether reading the body ends with an error other than io.EOF
unfoldable pub new_body_cache : Bytes → ℕ → Bool → Option BodyCache
new_body_cache body buffer_size failed =
    if failed
    then none
    else some (record {
      stream = drop buffer_size body;
      bytes = take buffer_size body;
      has_read_stream = false;
      i = 0;
    })

-- what a read of the stream gives: at most so many bytes of it, and an error
pub record StreamRead : Type 0 where
  pub size : ℕ
  pub failure : Option Error

-- the bytes that Read copies from the cache
unfoldable pub cached : ℕ → BodyCache → Bytes
cached asked r = if ltb r.i (length r.bytes) then take asked (drop r.i r.bytes) else []

-- the part of Read after the cache: `first` is what was copied from it
unfoldable pub read_stream : ℕ → StreamRead → Bytes → BodyCache → (Bytes × Option Error) × BodyCache
read_stream asked given first r =
    let second = take (asked - length first) (take given.size r.stream) in
    (
      (first ++ second, given.failure),
      record {
        stream = drop (length second) r.stream;
        bytes = r.bytes;
        has_read_stream = if ltb 0 (length second) then true else r.has_read_stream;
        i = r.i + length first + length second;
      },
    )

-- Read into a buffer of a length
unfoldable pub read : ℕ → StreamRead → BodyCache → (Bytes × Option Error) × BodyCache
unfolding cached read_stream
read asked given r =
    let first = cached asked r in
    if ltb (length first) asked
    then read_stream asked given first r
    else ((first, none), record r { i = r.i + length first })

-- io.SeekStart, io.SeekCurrent and io.SeekEnd, and other values
pub data Whence : Type 0 where
  seek_start seek_current seek_end invalid : Whence

pub data Offset : Type 0 where
  forward backward : ℕ → Offset

-- the position that an offset leads to from another, `none` below 0
unfoldable pub moved : ℕ → Offset → Option ℕ
moved from (forward n) = some (from + n)
moved from (backward n) = if ltb from n then none else some (from - n)

unfoldable pub move_to : Option ℕ → BodyCache → Option BodyCache
move_to none r = none
move_to (some n) r = some (record r { i = n })

-- Seek; `none` is an error
unfoldable pub seek : Offset → Whence → BodyCache → Option BodyCache
unfolding moved move_to
seek offset whence r = if r.has_read_stream then none else elim whence [
  | seek_start ↦ move_to (moved 0 offset) r
  | seek_current ↦ move_to (moved r.i offset) r
  | seek_end ↦ none
  | invalid ↦ none
]

-- Close, without the closing of the stream
abbrev pub close : BodyCache → BodyCache
close r = record r { bytes = [] }
