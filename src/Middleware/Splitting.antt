-- ===== src/Middleware/Splitting.antt =====
-- What credentials.go uses of package strings and of regular expressions over byte classes: the longest
-- run of bytes of a class, and the parts between the occurrences of a byte.
use gateway_mt.Prelude.{
  ℕ, ◌≡◌, refl, sym, ap, ◌∙◌, Bool, true, false, not, ◌&&◌, and-true, Option, none, some, List, [],
  ◌∷◌, ◌++◌, ◌==◌, ==_iff, if◌then◌else◌, Bool-cases, inl, inr, arith,
}
use gateway_mt.Prelude.Bytes.{Bytes}

-- [...]* from the start: the longest run of bytes of a class, and what follows it
unfoldable pub span : (ℕ → Bool) → Bytes → Bytes × Bytes
span is_in [] = ([], [])
span is_in (c ∷ s) =
    let rest = span is_in s in if is_in c then (c ∷ rest.0, rest.1) else ([], c ∷ s)

abbrev push : ℕ → List Bytes → List Bytes
push c [] = (c ∷ []) ∷ []
push c (w ∷ ws) = (c ∷ w) ∷ ws

-- strings.Split at a single byte
unfoldable pub split : ℕ → Bytes → List Bytes
split c [] = [] ∷ []
split c (x ∷ s) = let rest = split c s in if x == c then [] ∷ rest else push x rest

-- strings.HasPrefix and what follows the prefix
unfoldable pub strip_prefix : Bytes → Bytes → Option Bytes
strip_prefix [] s = some s
strip_prefix (p ∷ ps) [] = none
strip_prefix (p ∷ ps) (c ∷ s) = let rest = strip_prefix ps s in if p == c then rest else none

unfoldable pub is_empty : Bytes → Bool
is_empty [] = true
is_empty (c ∷ s) = false

-- whether no byte of a text is in a class
abbrev pub Lacks : (ℕ → Bool) → Bytes → Type 0
Lacks is_in [] = Unit {0}
Lacks is_in (c ∷ s) = (is_in c ≡ false) × Lacks is_in s

-- the parts with a byte between each two
abbrev pub join : ℕ → List Bytes → Bytes
join c [] = []
join c (w ∷ []) = w
join c (w ∷ v ∷ ws) = w ++ (c ∷ join c (v ∷ ws))

pub split-part :
    (c : ℕ) (w s : Bytes) → Lacks (λ x. x == c) w → split c (w ++ (c ∷ s)) ≡ w ∷ split c s
unfolding split
split-part c [] s h = rw ((==_iff c c).1 refl) refl
split-part c (x ∷ w) s (h, hs) = rw (h, split-part c w s hs) refl

pub split-last : (c : ℕ) (w : Bytes) → Lacks (λ x. x == c) w → split c w ≡ w ∷ []
unfolding split
split-last c [] h = refl
split-last c (x ∷ w) (h, hs) = rw (h, split-last c w hs) refl

join-push : (c x : ℕ) (ws : List Bytes) → join c (push x ws) ≡ x ∷ join c ws
join-push c x [] = refl
join-push c x (w ∷ []) = refl
join-push c x (w ∷ v ∷ ws) = refl

-- what `split` gives has a first part
join-cons : (c : ℕ) (x : ℕ) (s : Bytes) → join c ([] ∷ split x s) ≡ c ∷ join c (split x s)
unfolding split
join-cons c x [] = refl
join-cons c x (y ∷ s) = ground arith

pub join-split : (c : ℕ) (s : Bytes) → join c (split c s) ≡ s
unfolding split
join-split c [] = refl
join-split c (x ∷ s) = elim (Bool-cases (x == c)) [
  | inl at ↦
      let same : x ≡ c = (==_iff x c).0 at in
      rw at (join-cons c c s ∙ ap (λ t. c ∷ t) (join-split c s) ∙ ap (λ y. y ∷ s) (sym same))
  | inr past ↦ rw past (join-push c x (split c s) ∙ ap (λ t. x ∷ t) (join-split c s))
]

-- A run of bytes of a class ends where the class ends.
pub span-append :
    (is_in : ℕ → Bool) (w : Bytes) (c : ℕ) (s : Bytes)
    → Lacks (λ x. not (is_in x)) w
    → is_in c ≡ false
    → span is_in (w ++ (c ∷ s)) ≡ (w, c ∷ s)
unfolding span
span-append is_in [] c s h out = rw out refl
span-append is_in (x ∷ w) c s (h, hs) out = rw (span-append is_in w c s hs out) (ground arith)

pub span-all :
    (is_in : ℕ → Bool) (w : Bytes) → Lacks (λ x. not (is_in x)) w → span is_in w ≡ (w, [])
unfolding span
span-all is_in [] h = refl
span-all is_in (x ∷ w) (h, hs) = rw (span-all is_in w hs) (ground arith)

pub strip_prefix-append : (p s : Bytes) → strip_prefix p (p ++ s) ≡ some s
unfolding strip_prefix
strip_prefix-append [] s = refl
strip_prefix-append (x ∷ p) s = rw ((==_iff x x).1 refl) (strip_prefix-append p s)

abbrev pub lacks : (ℕ → Bool) → Bytes → Bool
lacks is_in [] = true
lacks is_in (c ∷ s) = not (is_in c) && lacks is_in s

pub lacks-Lacks : (is_in : ℕ → Bool) (s : Bytes) → lacks is_in s ≡ true → Lacks is_in s
lacks-Lacks is_in [] h = tt
lacks-Lacks is_in (c ∷ s) h =
    let (a, b) = and-true (not (is_in c)) (lacks is_in s) h in (ground arith, lacks-Lacks is_in s b)
