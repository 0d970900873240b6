-- ===== src/HttpAuth/Mux.antt =====
-- pkg/auth/httpauth/mux.go: handlers that dispatch on the method and on the parts of the path.
use gateway_mt.Prelude.{ℕ, suc, Option, none, some, [], ◌∷◌, ◌==◌, take, drop, if◌then◌else◌}
use gateway_mt.Prelude.Bytes.{Bytes}
use gateway_mt.Prelude.Text.{codes}
use gateway_mt.Prelude.Dict
use gateway_mt.Prelude.Dict.{Dict}

-- what a handler reads of a request: `argument` is the part of the path that was captured, and the
-- rest is passed on
pub record Target : Type 0 where
  pub method : Bytes
  pub path : Bytes
  pub argument : Bytes

-- strings.IndexByte; `none` is -1
unfoldable pub index_byte : ℕ → Bytes → Option ℕ
index_byte c [] = none
index_byte c (x ∷ s) =
    let rest = index_byte c s in
    if x == c then some 0 else elim rest [ none ↦ none | some i ↦ some (suc i) ]

-- the byte of '/'
abbrev pub slash : ℕ
slash = 47

-- trim
unfoldable pub trim : Bytes → Bytes
trim [] = []
trim (c ∷ path) = if c == slash then path else c ∷ path

-- shift
unfoldable pub shift : Bytes → Bytes × Bytes
unfolding index_byte trim
shift path = elim (index_byte slash (trim path)) [
  | none ↦ (path, [])
  | some i ↦ (take (suc i) path, drop (suc i) path)
]

-- `R` is what a handler answers.
module _ {ℓ} {R : Type ℓ} where
  -- Method.ServeHTTP, with the answer to other methods
  unfoldable pub method : R → Dict (Target → R) → Target → R
  method not_allowed handlers t = elim (Dict.lookup t.method handlers) [
    | some h ↦ h t
    | none ↦ not_allowed
  ]

  -- Dir.ServeHTTP, with the answer if no handler is found
  unfoldable pub dir : R → Dict (Target → R) → Target → R
  unfolding shift
  dir not_found handlers t =
      let parts = shift t.path in
      elim (Dict.lookup parts.0 handlers) [
        | some h ↦ h (record t { path = parts.1 })
        | none ↦ elim (Dict.lookup (codes "*") handlers) [ some h ↦ h t | none ↦ not_found ]
      ]

  -- the test of Arg.Capture on the part that it takes
  unfoldable pub captured : R → (Target → R) → Target → Bytes × Bytes → R
  unfolding trim
  captured not_found h t ([], rest) = not_found
  captured not_found h t (c ∷ part, rest) = h (record t { path = rest; argument = trim (c ∷ part) })

  -- Arg.Capture
  unfoldable pub capture : R → (Target → R) → Target → R
  unfolding shift captured
  capture not_found h t = captured not_found h t (shift t.path)
