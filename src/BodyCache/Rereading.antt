-- ===== src/BodyCache/Rereading.antt =====
-- What is read of a BodyCache (body_cache.go): the body, once, and after a Seek to the start from the start again.
use gateway_mt.Prelude.{
  ℕ, zero, suc, ◌+◌, ◌-◌, ◌<◌, ◌≤◌, ◌≡◌, refl, sym, ap, ◌∙◌, inl, inr, false, some, List, [], ◌∷◌,
  ◌++◌, append_assoc, ltb, length, take, drop, Bool-cases, arith,
}
use mathlib.Core.Path.{subst}
use gateway_mt.Prelude.Bytes.{Bytes}
use gateway_mt.BodyCache.{
  BodyCache, new_body_cache, StreamRead, cached, read_stream, read, Whence, Offset, moved, move_to,
  seek,
}

take-drop : (n : ℕ) (s : Bytes) → take n s ++ drop n s ≡ s
take-drop zero s = refl
take-drop (suc n) [] = refl
take-drop (suc n) (x ∷ s) = ap (λ t. x ∷ t) (take-drop n s)

-- What was taken, and what comes after as many bytes.
take-drop_taken : (n : ℕ) (s : Bytes) → take n s ++ drop (length (take n s)) s ≡ s
take-drop_taken zero s = refl
take-drop_taken (suc n) [] = refl
take-drop_taken (suc n) (x ∷ s) = ap (λ t. x ∷ t) (take-drop_taken n s)

drop_past : (n : ℕ) (s : Bytes) → length s ≤ n → drop n s ≡ []
drop_past zero [] h = refl
drop_past zero (x ∷ s) h = absurd (omega arith)
drop_past (suc n) [] h = refl
drop_past (suc n) (x ∷ s) h = drop_past n s (omega arith)

drop-drop : (n m : ℕ) (s : Bytes) → drop (n + m) s ≡ drop m (drop n s)
drop-drop zero m s = ap (λ k. drop k s) (omega arith)
drop-drop (suc n) m [] = drop_past (suc n + m) [] (omega arith) ∙ sym (drop_past m [] (omega arith))
drop-drop (suc n) m (x ∷ s) =
    let e : suc n + m ≡ suc (n + m) = omega arith in ap (λ k. drop k (x ∷ s)) e ∙ drop-drop n m s

-- Fewer bytes than asked are taken only of a shorter text.
take_short : (n : ℕ) (s : Bytes) → length (take n s) < n → take n s ≡ s
take_short zero s h = absurd (omega arith)
take_short (suc n) [] h = refl
take_short (suc n) (x ∷ s) h = ap (λ t. x ∷ t) (take_short n s (omega arith))

length-drop : (n : ℕ) (s : Bytes) → length s ≤ n + length (drop n s)
length-drop zero s = omega arith
length-drop (suc n) [] = omega arith
length-drop (suc n) (x ∷ s) = omega (arith, length-drop n s)

-- Of a text, what is given and what remains of it.
given-left : (n m : ℕ) (s : Bytes) → take n (take m s) ++ drop (length (take n (take m s))) s ≡ s
given-left zero m s = refl
given-left (suc n) zero s = refl
given-left (suc n) (suc m) [] = refl
given-left (suc n) (suc m) (x ∷ s) = ap (λ t. x ∷ t) (given-left n m s)

-- what is left to be read
abbrev pub remaining : BodyCache → Bytes
remaining r = drop r.i r.bytes ++ r.stream

-- Fewer bytes than asked are copied from the cache only if they are the last ones.
cached-short :
    (asked : ℕ) (r : BodyCache)
    → length (cached asked r) < asked
    → cached asked r ≡ drop r.i r.bytes
unfolding cached
cached-short asked r h = elim (Bool-cases (ltb r.i (length r.bytes))) [
  | inl inside ↦
      rw (cached, inside)
        (take_short asked (drop r.i r.bytes) (let g = rw (cached, inside) at h in g))
  | inr past ↦ rw (cached, past) (sym (drop_past r.i r.bytes (ground arith)))
]

cached-left :
    (asked : ℕ) (r : BodyCache)
    → cached asked r ++ drop (length (cached asked r)) (drop r.i r.bytes) ≡ drop r.i r.bytes
unfolding cached
cached-left asked r = elim (Bool-cases (ltb r.i (length r.bytes))) [
  | inl inside ↦ rw (cached, inside) (take-drop_taken asked (drop r.i r.bytes))
  | inr past ↦ rw (cached, past) refl
]

read_stream-remaining :
    (asked : ℕ) (given : StreamRead) (r : BodyCache)
    → length (cached asked r) < asked
    → (read_stream asked given (cached asked r) r).0.0
        ++ remaining (read_stream asked given (cached asked r) r).1
      ≡ remaining r
unfolding read_stream
read_stream-remaining asked given r short =
    let first = cached asked r in
    let second = take (asked - length first) (take given.size r.stream) in
    let whole : first ≡ drop r.i r.bytes = cached-short asked r short in
    let longer : length r.bytes ≤ r.i + length first = rw whole (length-drop r.i r.bytes) in
    let past : drop (r.i + length first + length second) r.bytes ≡ [] =
      drop_past (r.i + length first + length second) r.bytes (omega arith) in
    let left = given-left (asked - length first) given.size r.stream in
    ap (λ (t : Bytes). (first ++ second) ++ (t ++ drop (length second) r.stream)) past
    ∙ append_assoc first second (drop (length second) r.stream)
    ∙ ap (λ (t : Bytes). first ++ t) left
    ∙ ap (λ (t : Bytes). t ++ r.stream) whole

read-remaining :
    (asked : ℕ) (given : StreamRead) (r : BodyCache)
    → (read asked given r).0.0 ++ remaining (read asked given r).1 ≡ remaining r
unfolding read
read-remaining asked given r = elim (Bool-cases (ltb (length (cached asked r)) asked)) [
  | inr enough ↦
      rw (read, enough)
        (ap (λ (t : Bytes). cached asked r ++ (t ++ r.stream))
            (drop-drop r.i (length (cached asked r)) r.bytes)
          ∙ sym (
              append_assoc (cached asked r) (drop (length (cached asked r)) (drop r.i r.bytes))
                r.stream)
          ∙ ap (λ (t : Bytes). t ++ r.stream) (cached-left asked r))
  | inl short ↦ rw (read, short) (read_stream-remaining asked given r (ground arith))
]

-- reads of a reader, one after the other, with what they give together
unfoldable pub reads : List (ℕ × StreamRead) → BodyCache → Bytes × BodyCache
unfolding read
reads [] r = ([], r)
reads ((asked, given) ∷ rest) r =
    let one = read asked given r in let more = reads rest one.1 in (one.0.0 ++ more.0, more.1)

-- The cache holds the start of a body, and the rest of it is in the stream unless that was read.
record IsStart (body : Bytes) (r : BodyCache) : Type 0 where
  whole : r.has_read_stream ≡ false → r.bytes ++ r.stream ≡ body

read-IsStart :
    (body : Bytes) (asked : ℕ) (given : StreamRead) (r : BodyCache)
    → IsStart body r
    → IsStart body (read asked given r).1
unfolding read read_stream
read-IsStart body asked given r old = elim (Bool-cases (ltb (length (cached asked r)) asked)) [
  | inr enough ↦ rw (read, enough) (record { whole = old.whole })
  | inl short ↦
      let second = take (asked - length (cached asked r)) (take given.size r.stream) in
      elim (Bool-cases (ltb 0 (length second))) [
        | inl some_read ↦
            rw (read, short, read_stream)
              (record { whole = λ h. absurd (ground (arith, h, some_read)) })
        | inr none_read ↦
            let zero_long : length second ≡ 0 = ground arith in
            rw (read, short, read_stream)
              (record {
                whole = λ h.
                    ap (λ k. r.bytes ++ drop k r.stream) zero_long
                    ∙ old.whole (ground (arith, h, none_read));
              })
      ]
]

reads-lem :
    (body : Bytes) (ops : List (ℕ × StreamRead)) (r : BodyCache)
    → IsStart body r
    → ((reads ops r).0 ++ remaining (reads ops r).1 ≡ remaining r) × IsStart body (reads ops r).1
unfolding reads
reads-lem body [] r old = (refl, old)
reads-lem body ((asked, given) ∷ ops) r old =
    let (rest, kept) =
      reads-lem body ops (read asked given r).1 (read-IsStart body asked given r old) in
    (
      append_assoc (read asked given r).0.0 (reads ops (read asked given r).1).0
            (remaining (reads ops (read asked given r).1).1)
          ∙ ap (λ (t : Bytes). (read asked given r).0.0 ++ t) rest
          ∙ read-remaining asked given r,
      kept,
    )

-- Of a reader that NewBodyCache made of a body that can be read: what any reads give, one after
-- the other, and what is then left to be read make up the body, and if a Seek to the start
-- succeeds after them, the whole body is left to be read.
pub seek-reads :
    (body : Bytes) (size : ℕ) (ops : List (ℕ × StreamRead)) (r : BodyCache)
    → new_body_cache body size false ≡ some r
    → ((reads ops r).0 ++ remaining (reads ops r).1 ≡ body)
      × ((t : BodyCache)
          → seek (Offset.forward 0) Whence.seek_start (reads ops r).1 ≡ some t
          → remaining t ≡ body)
unfolding new_body_cache seek moved move_to
seek-reads body size ops r made =
    let start : BodyCache = record {
      stream = drop size body;
      bytes = take size body;
      has_read_stream = false;
      i = 0;
    } in
    let same : start ≡ r = (let g = made in cc) in
    let (read_all, kept) =
      reads-lem body ops r
        (subst (IsStart body) same (record { whole = λ h. take-drop size body })) in
    (
      read_all ∙ ap remaining (sym same) ∙ take-drop size body,
      λ t sought. elim (Bool-cases (reads ops r).1.has_read_stream) [
        | inl was_read ↦ absurd (let g = rw (seek, was_read) at sought in cc)
        | inr not_read ↦
            let g = rw (seek, not_read) at sought in
            let at : record (reads ops r).1 { i = 0 } ≡ t = (let f = g in cc) in
            ap remaining (sym at) ∙ kept.whole not_read
      ],
    )
