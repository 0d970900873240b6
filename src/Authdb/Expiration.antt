-- ===== src/Authdb/Expiration.antt =====
-- pkg/auth/authdb/db.go: apiKeyExpiration, the earliest expiry among the caveats of an API key. How a
-- macaroon and a caveat are parsed is a parameter (storj.io/common/macaroon).
use gateway_mt.Prelude.{
  ◌≡◌, refl, sym, ap, ◌∙◌, ◌⊎◌, inl, inr, Bool, true, false, not, ◌&&◌, ◌||◌, Option, none, some,
  List, [], ◌∷◌, ltb, if◌then◌else◌, arith, Bool-cases, All,
}
use mathlib.Core.Path.{subst}
use gateway_mt.Prelude.Bytes.{Bytes}
use gateway_mt.Prelude.Int64.{lt_i64}
use gateway_mt.Errs.{Result, ok, ◌>>=◌, >>=-eq-ok}
use gateway_mt.Authdb.Record.{Time}

-- Time.After
unfoldable pub after : Time → Time → Bool
after t u = lt_i64 u.unix t.unix || (not (lt_i64 t.unix u.unix) && ltb u.nanosecond t.nanosecond)

-- the assignment in the loop: a caveat without NotAfter changes nothing, an earlier one is kept
unfoldable pub earlier : Option Time → Option Time → Option Time
earlier expiration none = expiration
earlier none (some t) = some t
earlier (some e) (some t) = if after e t then some t else some e

-- the macaroon's caveats in their binary form, and the NotAfter of a caveat
pub record Macaroons : Type 0 where
  pub caveats : Bytes → Result (List Bytes)
  pub not_after : Bytes → Result (Option Time)

module _ (m : Macaroons) where
  -- the loop of apiKeyExpiration
  unfoldable pub earliest : Option Time → List Bytes → Result (Option Time)
  unfolding earlier
  earliest expiration [] = ok expiration
  earliest expiration (c ∷ cs) = do t ← m.not_after c; earliest (earlier expiration t) cs

  -- apiKeyExpiration
  unfoldable pub api_key_expiration : Bytes → Result (Option Time)
  unfolding earliest
  api_key_expiration api_key = do cs ← m.caveats api_key; earliest none cs

  -- an expiry is one of those of the caveats
  abbrev pub IsOneOf : Time → List Bytes → Type 0
  IsOneOf e [] = ⊥
  IsOneOf e (c ∷ cs) = (m.not_after c ≡ ok (some e)) ⊎ IsOneOf e cs

-- if the second expiry is a time, the first is one that is not later
abbrev pub IsNotLater : Option Time → Option Time → Type 0
IsNotLater e none = Unit
IsNotLater none (some t) = ⊥
IsNotLater (some e) (some t) = after e t ≡ false

not_after_trans : (a b c : Time) → after a b ≡ false → after b c ≡ false → after a c ≡ false
unfolding after
not_after_trans a b c h q = ground arith

not_after_total : (a b : Time) → after a b ≡ true → after b a ≡ false
unfolding after
not_after_total a b h = ground arith

-- What is not later than the earlier of two expiries is later than neither.
IsNotLater-earlier :
    (e a t : Option Time) → IsNotLater e (earlier a t) → IsNotLater e a × IsNotLater e t
unfolding earlier
IsNotLater-earlier e a none h = (h, tt)
IsNotLater-earlier e none (some t) h = (tt, h)
IsNotLater-earlier none (some a) (some t) h = absurd (elim (Bool-cases (after a t)) [
  | inl is ↦ let g : ⊥ = rw is at h in g
  | inr is ↦ let g : ⊥ = rw is at h in g
])
IsNotLater-earlier (some e) (some a) (some t) h = elim (Bool-cases (after a t)) [
  | inl is ↦
      let g : after e t ≡ false = rw is at h in
      (not_after_trans e t a g (not_after_total a t is), g)
  | inr is ↦ let g : after e a ≡ false = rw is at h in (g, not_after_trans e a t g is)
]

earlier-IsOneOf :
    (a t : Option Time) → (earlier a t ≡ a) ⊎ ((x : Time) × (earlier a t ≡ some x) × (t ≡ some x))
unfolding earlier
earlier-IsOneOf a none = inl refl
earlier-IsOneOf none (some t) = inr (t, refl, refl)
earlier-IsOneOf (some a) (some t) = elim (Bool-cases (after a t)) [
  | inl is ↦ inr (t, rw is, refl)
  | inr is ↦ inl (rw is)
]

IsNotLater-refl : (e : Option Time) → IsNotLater e e
unfolding after
IsNotLater-refl none = tt
IsNotLater-refl (some e) = ground arith

module _ (m : Macaroons) where
  -- what the loop returns from an expiry found so far
  record IsEarliestOf (start e : Option Time) (cs : List Bytes) : Type 0 where
    below_start : IsNotLater e start
    below : All (λ c. (t : Option Time) × (m.not_after c ≡ ok t) × IsNotLater e t) cs
    one_of : (e ≡ start) ⊎ ((x : Time) × (e ≡ some x) × IsOneOf m x cs)

  earliest-IsEarliestOf :
      (start e : Option Time) (cs : List Bytes)
      → earliest m start cs ≡ ok e
      → IsEarliestOf start e cs
  unfolding earliest
  earliest-IsEarliestOf start e [] h =
      let same : start ≡ e = cc in
      record {
        below_start = subst (λ x. IsNotLater e x) (sym same) (IsNotLater-refl e);
        below = tt;
        one_of = inl (sym same);
      }
  earliest-IsEarliestOf start e (c ∷ cs) h =
      let (t, read, h1) = >>=-eq-ok (m.not_after c) _ h in
      let i = earliest-IsEarliestOf (earlier start t) e cs h1 in
      let (s, q) = IsNotLater-earlier e start t i.below_start in
      record {
        below_start = s;
        below = ((t, read, q), i.below);
        one_of = elim i.one_of [
          | inl same ↦ elim (earlier-IsOneOf start t) [
            | inl kept ↦ inl (same ∙ kept)
            | inr (x, new, is) ↦ inr (x, same ∙ new, inl (read ∙ ap ok is))
          ]
          | inr (x, is, later) ↦ inr (x, is, inr later)
        ];
      }

  -- If apiKeyExpiration succeeds, its answer is the earliest expiry of the macaroon's caveats: it
  -- is none or the expiry of one of the caveats, and a caveat that has an expiry has one that is
  -- not before it.
  pub api_key_expiration_lem :
      (api_key : Bytes) (e : Option Time)
      → api_key_expiration m api_key ≡ ok e
      → (cs : List Bytes) × (m.caveats api_key ≡ ok cs)
        × All (λ c. (t : Option Time) × (m.not_after c ≡ ok t) × IsNotLater e t) cs
        × ((e ≡ none) ⊎ ((x : Time) × (e ≡ some x) × IsOneOf m x cs))
  unfolding api_key_expiration
  api_key_expiration_lem api_key e h =
      let (cs, read, h1) = >>=-eq-ok (m.caveats api_key) _ h in
      let i = earliest-IsEarliestOf none e cs h1 in (cs, read, i.below, i.one_of)
