-- ===== src/Errs.antt =====
-- Errors as values: the classes of github.com/zeebo/errs that the code declares, its sentinel errors
-- and the errors of BadgerDB, wrapped in the order in which the code wraps them. The text of a
-- message is not kept. A call that may fail returns a `Result`.
use gateway_mt.Prelude.{◌≡◌, refl, ◌⊎◌, inl, inr, Bool, true, false, ◌||◌}

-- the errors of BadgerDB that the code tells apart; `other` is any other failure of the engine
pub data BadgerError : Type 0 where
  key_not_found conflict invalid_key banned_key empty_key other : BadgerError

-- badgerauth.Error, ProtoError, ErrDBStartedWithDifferentNodeID, ClockError, ReplicationLogError,
-- NodeIDError, DialError; authdb.KeyHashError, Invalid, NotFound, ErrAccessGrant; nodelist.Error
pub data Class : Type 0 where
  badgerauth proto wrong_node_id clock replication_log node_id dial : Class
  key_hash invalid not_found access_grant node_list : Class

pub data Error : Type 0 where
  message : Error
  badger : BadgerError → Error
  panic : Error
  key_already_exists operation_not_supported key_already_exists_records_not_equal : Error
  canceled : Error
  wrap : Class → Error → Error
  combine : Error → Error → Error

pub data Result {ℓ} (A : Type ℓ) : Type ℓ where
  ok : A → Result A
  err : Error → Result A

-- Class.Wrap, which leaves a nil error nil
abbrev pub wrapped {ℓ} : {A : Type ℓ} → Class → Result A → Result A
wrapped c (ok a) = ok a
wrapped c (err e) = err (wrap c e)

abbrev pub is_ok {ℓ} : {A : Type ℓ} → Result A → Bool
is_ok (ok a) = true
is_ok (err e) = false

-- what Go writes as an early return on an error
infixl 5 ◌>>=◌
abbrev pub ◌>>=◌ {ℓ κ} : {S : Type ℓ} {T : Type κ} → Result S → (S → Result T) → Result T
err e >>= next = err e
ok s >>= next = next s

infixl 5 ◌>>◌
abbrev pub ◌>>◌ {ℓ κ} : {S : Type ℓ} {T : Type κ} → Result S → Result T → Result T
first >> next = first >>= λ s. next

abbrev eq_class : Class → Class → Bool
eq_class badgerauth badgerauth = true
eq_class proto proto = true
eq_class wrong_node_id wrong_node_id = true
eq_class clock clock = true
eq_class replication_log replication_log = true
eq_class node_id node_id = true
eq_class dial dial = true
eq_class key_hash key_hash = true
eq_class invalid invalid = true
eq_class not_found not_found = true
eq_class access_grant access_grant = true
eq_class node_list node_list = true
eq_class _ _ = false

abbrev pub eq_badger : BadgerError → BadgerError → Bool
eq_badger key_not_found key_not_found = true
eq_badger conflict conflict = true
eq_badger invalid_key invalid_key = true
eq_badger banned_key banned_key = true
eq_badger empty_key empty_key = true
eq_badger other other = true
eq_badger _ _ = false

-- Class.Has: the error or one that it wraps has the class
abbrev pub has : Class → Error → Bool
has c (wrap d e) = eq_class c d || has c e
has c (combine e f) = has c e || has c f
has c key_already_exists = eq_class c badgerauth
has c operation_not_supported = eq_class c badgerauth
has c key_already_exists_records_not_equal = eq_class c badgerauth
has c _ = false

-- errs.Is for an error of the engine
abbrev pub is : BadgerError → Error → Bool
is b (badger d) = eq_badger b d
is b (wrap d e) = is b e
is b (combine e f) = is b e || is b f
is b _ = false

-- Inversion of a successful bind, for proofs where the parts stay shut.
pub >>=-eq-ok {ℓ κ} :
    {S : Type ℓ} {T : Type κ} (first : Result S) (next : S → Result T) {t : T}
    → (first >>= next) ≡ ok t
    → (s : S) × (first ≡ ok s) × (next s ≡ ok t)
>>=-eq-ok (err e) next done = cc
>>=-eq-ok (ok s) next done = (s, refl, done)

pub wrapped-eq-ok {ℓ} :
    {A : Type ℓ} (c : Class) (m : Result A) {a : A} → wrapped c m ≡ ok a → m ≡ ok a
wrapped-eq-ok c (ok a) h = h
wrapped-eq-ok c (err e) h = cc

pub Result-cases {ℓ} :
    {A : Type ℓ} (m : Result A) → ((a : A) × (m ≡ ok a)) ⊎ ((e : Error) × (m ≡ err e))
Result-cases (ok a) = inl (a, refl)
Result-cases (err e) = inr (e, refl)
