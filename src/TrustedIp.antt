-- ===== src/TrustedIp.antt =====
-- pkg/trustedip/trustedip.go: which proxies are trusted, and the address of a client behind them.
pub mod Parsing
mod Tests
use gateway_mt.Prelude.{
  ℕ, suc, ◌-◌, ◌+◌, Bool, true, false, Option, none, some, List, [], ◌∷◌, ◌==◌, leb, length, take,
  drop, if◌then◌else◌,
}
use gateway_mt.Prelude.Bytes.{Bytes, eq_bytes}
use gateway_mt.Prelude.Dict
use gateway_mt.Prelude.Dict.{Dict}
use gateway_mt.Errs.{Result, ok, err, panic, ◌>>=◌}

-- List; `ips` is the set of the trusted addresses
pub record TrustedList : Type 0 where
  pub ips : Dict (Unit {0})
  pub untrust_all : Bool

-- NewListUntrustAll, NewListTrustAll and NewList
abbrev pub new_list_untrust_all : TrustedList
new_list_untrust_all = record { ips = []; untrust_all = true }

abbrev pub new_list_trust_all : TrustedList
new_list_trust_all = record { ips = []; untrust_all = false }

unfoldable pub add_all : List Bytes → Dict (Unit {0}) → Dict (Unit {0})
add_all [] ips = ips
add_all (ip ∷ rest) ips = add_all rest (Dict.insert ip tt ips)

unfoldable pub new_list : List Bytes → TrustedList
unfolding add_all
new_list ips = record { ips = add_all ips []; untrust_all = false }

abbrev is_some : Option (Unit {0}) → Bool
is_some none = false
is_some (some u) = true

-- IsTrusted
unfoldable pub is_trusted : TrustedList → Bytes → Bool
is_trusted l ip =
    if l.untrust_all
    then false
    else if length l.ips == 0
    then true
    else is_some (Dict.lookup ip l.ips)

-- the bytes of ':', '[', ',' and '"'
abbrev pub colon : ℕ
colon = 58

abbrev pub bracket : ℕ
bracket = 91

abbrev pub comma : ℕ
comma = 44

abbrev pub quote : ℕ
quote = 34

-- strings.LastIndex of a byte; `none` is -1
unfoldable pub last_index : ℕ → Bytes → Option ℕ
last_index c [] = none
last_index c (x ∷ s) = elim (last_index c s) [
  | some i ↦ some (suc i)
  | none ↦ if x == c then some 0 else none
]

-- strings.Count of a byte
unfoldable pub count_byte : ℕ → Bytes → ℕ
count_byte c [] = 0
count_byte c (x ∷ s) = let rest = count_byte c s in if x == c then suc rest else rest

-- addr[i:j] for i ≤ j ≤ len(addr)
unfoldable pub slice : ℕ → ℕ → Bytes → Bytes
slice i j s = drop i (take j s)

-- the branch of stripPort for an address that starts with a bracket
unfoldable pub strip_bracketed : Bytes → Bytes
unfolding slice
strip_bracketed addr = elim (last_index colon addr) [
  | none ↦ addr
  | some i ↦ if leb i 1 then addr else slice 1 (i - 1) addr
]

-- the branch of stripPort for an address with one colon
unfoldable pub strip_single : Bytes → Bytes
unfolding slice
strip_single addr = elim (last_index colon addr) [ none ↦ addr | some i ↦ slice 0 i addr ]

-- stripPort
unfoldable pub strip_port : Bytes → Bytes
unfolding strip_bracketed strip_single
strip_port [] = []
strip_port (c ∷ s) =
    if c == bracket
    then strip_bracketed (c ∷ s)
    else if count_byte colon (c ∷ s) == 1
    then strip_single (c ∷ s)
    else c ∷ s

-- strings.Trim with a cutset of one byte
unfoldable pub trim_left : ℕ → Bytes → Bytes
trim_left c [] = []
trim_left c (x ∷ s) = let rest = trim_left c s in if x == c then rest else x ∷ s

unfoldable pub trim_right : ℕ → Bytes → Bytes
trim_right c [] = []
trim_right c (x ∷ s) = elim (trim_right c s) [
  | [] ↦ if x == c then [] else x ∷ []
  | y ∷ rest ↦ x ∷ y ∷ rest
]

unfoldable pub trim : ℕ → Bytes → Bytes
unfolding trim_left trim_right
trim c s = trim_right c (trim_left c s)

-- what stands before the first comma: the first part of strings.SplitN
unfoldable pub before_comma : Bytes → Bytes
before_comma [] = []
before_comma (x ∷ s) = let rest = before_comma s in if x == comma then [] else x ∷ rest

-- what is left of the host in a Forwarded header: brackets are cut off; an empty host is indexed
-- and a lone bracket is sliced without a check
unfoldable pub unbracketed : Bytes → Result Bytes
unfolding slice
unbracketed [] = err panic
unbracketed (c ∷ []) = if c == bracket then err panic else ok (c ∷ [])
unbracketed (c ∷ d ∷ s) =
    if c == bracket then ok (slice 1 (suc (length s)) (c ∷ d ∷ s)) else ok (c ∷ d ∷ s)

-- the request's remote address, its three headers (empty if missing), and what the regular
-- expression finds in the header Forwarded
pub record Request : Type 0 where
  pub remote_addr : Bytes
  pub forwarded : Option Bytes
  pub x_forwarded_for : Bytes
  pub x_real_ip : Bytes

-- the part of GetIPFromHeaders behind the header Forwarded
unfoldable pub from_other_headers : Request → Option Bytes
unfolding before_comma
from_other_headers r = elim r.x_forwarded_for [
  | c ∷ s ↦ some (before_comma (c ∷ s))
  | [] ↦ elim r.x_real_ip [ c ∷ s ↦ some (c ∷ s) | [] ↦ none ]
]

-- GetIPFromHeaders
unfoldable pub get_ip_from_headers : Request → Result (Option Bytes)
unfolding trim strip_port unbracketed from_other_headers
get_ip_from_headers r = elim r.forwarded [
  | none ↦ ok (from_other_headers r)
  | some value ↦ unbracketed (strip_port (trim quote value)) >>= λ ip. ok (some ip)
]

-- GetClientIP
unfoldable pub get_client_ip : TrustedList → Request → Result Bytes
unfolding is_trusted strip_port get_ip_from_headers
get_client_ip l r =
    let addr = strip_port r.remote_addr in
    let found = get_ip_from_headers r in
    if is_trusted l addr
    then (found >>= λ ip. elim ip [ none ↦ ok addr | some value ↦ ok value ])
    else ok addr
