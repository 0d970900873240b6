-- ===== src/BodyCache/Tests.antt =====
-- A body of four bytes, of which the cache keeps three, read two bytes at a time.
use gateway_mt.Prelude.{ℕ, ◌≡◌, refl, false, none, some, List, [], ◌∷◌, ◌++◌}
use gateway_mt.Prelude.Bytes.{Bytes}
use gateway_mt.BodyCache.{BodyCache, new_body_cache, StreamRead, Whence, Offset, seek}
use gateway_mt.BodyCache.Rereading.{remaining, reads, seek-reads}

abbrev body : Bytes
body = 1 ∷ 2 ∷ 3 ∷ 4 ∷ []

abbrev cache : BodyCache
cache = record { stream = 4 ∷ []; bytes = 1 ∷ 2 ∷ 3 ∷ []; has_read_stream = false; i = 0 }

abbrev ops : List (ℕ × StreamRead)
ops = (2, record { size = 0; failure = none }) ∷ (1, record { size = 0; failure = none }) ∷ []

seek-reads_example :
    ((reads ops cache).0 ++ remaining (reads ops cache).1 ≡ body)
    × ((t : BodyCache)
        → seek (Offset.forward 0) Whence.seek_start (reads ops cache).1 ≡ some t
        → remaining t ≡ body)
unfolding new_body_cache
seek-reads_example = seek-reads body 3 ops cache refl
