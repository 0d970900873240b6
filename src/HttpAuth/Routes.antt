-- ===== src/HttpAuth/Routes.antt =====
-- Which handler a path leads to (mux.go and New of resources.go).
use gateway_mt.Prelude.{ℕ, zero, suc, ◌≡◌, refl, ap, ◌++◌, none, [], ◌∷◌, take, drop}
use gateway_mt.Prelude.Bytes.{Bytes, eq_bytes}
use gateway_mt.Prelude.Text.{codes}
use gateway_mt.Prelude.Dict
use gateway_mt.Authdb.Kv.{Kv}
use gateway_mt.Authdb.Database.{Libraries}
use gateway_mt.HttpAuth.Mux.{index_byte, slash, trim, shift, method, dir, captured, capture}
use gateway_mt.HttpAuth.Resources.{
  Settings, Request, State, get_access, get_bucket, new_access, handler,
}

-- what shift takes off, together with what it leaves, is the path
take-drop : (n : ℕ) (xs : Bytes) → take n xs ++ drop n xs ≡ xs
take-drop zero xs = refl
take-drop (suc n) [] = refl
take-drop (suc n) (x ∷ xs) = ap (λ r. x ∷ r) (take-drop n xs)

module _ (l : Libraries) (kv : Kv) (settings : Settings) where
  -- Where a path of a request leads.
  pub handler-get_access :
      (r : Request kv) (s : State kv) (id earlier : Bytes)
      → index_byte slash id ≡ none
      → handler l kv settings r s
          (record { method = codes "GET"; path = codes "/v1/access/" ++ id; argument = earlier })
        ≡ get_access l kv settings id r s
  unfolding handler method dir capture captured shift trim Dict.lookup eq_bytes index_byte
  handler-get_access r s id earlier h = rw (h, capture, h) refl

  pub handler-new_access :
      (r : Request kv) (s : State kv) (earlier : Bytes)
      → handler l kv settings r s
          (record { method = codes "POST"; path = codes "/v1/access"; argument = earlier })
        ≡ new_access l kv settings r s
  unfolding handler method dir shift trim Dict.lookup eq_bytes index_byte
  handler-new_access r s earlier = refl

  pub handler-get_bucket :
      (r : Request kv) (s : State kv) (earlier : Bytes)
      → handler l kv settings r s
          (record { method = codes "GET"; path = codes "/v1/bucket"; argument = earlier })
        ≡ get_bucket l kv settings r s
  unfolding handler method dir shift trim Dict.lookup eq_bytes index_byte
  handler-get_bucket r s earlier = refl
