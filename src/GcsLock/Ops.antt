-- ===== src/GcsLock/Ops.antt =====
-- pkg/gcslock/gcsops/gcsops.go: what the client makes of the statuses of answers, and the lists that it
-- combines. The service itself, with the HTTP client, is a parameter.
use gateway_mt.Prelude.{ℕ, ◌⊎◌, inl, inr, Option, none, some, List, [], ◌∷◌, ◌==◌, if◌then◌else◌}
use gateway_mt.Prelude.Bytes.{Bytes, ltb_bytes}
use gateway_mt.Errs.{Error, message, Result, ok, err}

-- ErrNotFound, ErrPreconditionFailed, and the other errors that Error.Wrap makes
pub data OpsError : Type 0 where
  not_found precondition_failed : OpsError
  other : Error → OpsError

-- the answer of Do: an error, or a status
abbrev pub Answer : Type 0
Answer = Result ℕ

-- Delete
unfoldable pub delete_result : Answer → Option OpsError
delete_result (err e) = some (other e)
delete_result (ok status) =
    if status == 204
    then none
    else if status == 404
    then some not_found
    else if status == 412
    then some precondition_failed
    else some (other message)

-- Upload
unfoldable pub upload_result : Answer → Option OpsError
upload_result (err e) = some (other e)
upload_result (ok status) =
    if status == 200
    then none
    else if status == 412
    then some precondition_failed
    else some (other message)

-- Stat and Download: with what they return for an answer of 200
unfoldable pub stat_result {ℓ} : {A : Type ℓ} → Result (ℕ × A) → A ⊎ OpsError
stat_result (err e) = inr (other e)
stat_result (ok (status, a)) =
    if status == 200 then inl a else if status == 404 then inr not_found else inr (other message)

-- the loop of combineLists over what is left of the two lists, `i` prefixes and `j` items
unfoldable pub combine_lists : List Bytes → List Bytes → List Bytes
combine_lists [] items = items
combine_lists (p ∷ prefixes) [] = p ∷ prefixes
combine_lists (p ∷ prefixes) (i ∷ items) =
    let left = combine_lists prefixes (i ∷ items) in
    let right = combine_lists (p ∷ prefixes) items in if ltb_bytes p i then p ∷ left else i ∷ right
