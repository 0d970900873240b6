-- ===== src/TrustedIp/Parsing.antt =====
-- Addresses with ports (trustedip.go: stripPort), and whose headers are believed.
use gateway_mt.Prelude.{
  ℕ, suc, ◌≡◌, refl, ap, ◌∙◌, ◌++◌, true, false, none, some, List, [], ◌∷◌, length, take,
  take-append, ◌==◌, ◌<◌, ◌+◌, if◌then◌else◌, arith,
}
use gateway_mt.Prelude.Bytes.{Bytes}
use gateway_mt.Prelude.Dict
use gateway_mt.Prelude.Dict.{Dict, lookup-insert}
use gateway_mt.Badger.{contains}
use gateway_mt.TrustedIp.{
  new_list, add_all, is_trusted, colon, bracket, last_index, count_byte, slice, strip_port,
  strip_single,
}

last_index-none : (c : ℕ) (s : Bytes) → count_byte c s ≡ 0 → last_index c s ≡ none
unfolding last_index count_byte
last_index-none c [] h = refl
last_index-none c (x ∷ s) h = rw (last_index-none c s (ground arith)) (ground arith)

last_index-append :
    (c : ℕ) (host port : Bytes)
    → count_byte c port ≡ 0
    → last_index c (host ++ c ∷ port) ≡ some (length host)
unfolding last_index
last_index-append c [] port h = rw (last_index-none c port h) (ground arith)
last_index-append c (x ∷ host) port h = rw (last_index-append c host port h) refl

count_byte-append : (c : ℕ) (s t : Bytes) → count_byte c (s ++ t) ≡ count_byte c s + count_byte c t
unfolding count_byte
count_byte-append c [] t = omega arith
count_byte-append c (x ∷ s) t = ground (arith, count_byte-append c s t)

-- For a host of at least one byte, without colons and not starting with a bracket, and a port
-- without colons, stripPort gives the host from the host and the port joined by a colon, and from
-- the host alone.
pub strip_port-join :
    (c : ℕ) (host port : Bytes)
    → count_byte colon (c ∷ host) ≡ 0
    → count_byte colon port ≡ 0
    → (c == bracket) ≡ false
    → (strip_port (c ∷ (host ++ colon ∷ port)) ≡ c ∷ host) × (strip_port (c ∷ host) ≡ c ∷ host)
unfolding strip_port strip_single slice
strip_port-join c host port h q n =
    let one : count_byte colon (colon ∷ port) ≡ 1 = unfold count_byte in ap suc q in
    let n1 : count_byte colon (c ∷ (host ++ colon ∷ port)) ≡ 1 =
      omega (arith, count_byte-append colon (c ∷ host) (colon ∷ port)) in
    let at : last_index colon (c ∷ (host ++ colon ∷ port)) ≡ some (suc (length host)) =
      last_index-append colon (c ∷ host) port q in
    let cut : take (suc (length host)) (c ∷ (host ++ colon ∷ port)) ≡ c ∷ host =
      take-append (suc (length host)) (c ∷ host) (colon ∷ port) refl in
    (rw (n, n1, strip_single, at) cut, rw (n, h) refl)

lookup-add_all :
    (ips : List Bytes) (found : Dict (Unit {0})) (ip : Bytes)
    → Dict.lookup ip (add_all ips found)
      ≡ (if contains ips ip then some tt else Dict.lookup ip found)
unfolding add_all
lookup-add_all [] found ip = refl
lookup-add_all (x ∷ ips) found ip =
    lookup-add_all ips (Dict.insert x tt found) ip ∙ rw (lookup-insert x ip tt found) (ground arith)

length-insert : (ip : Bytes) (found : Dict (Unit {0})) → 0 < length (Dict.insert ip tt found)
unfolding Dict.insert
length-insert ip [] = omega arith
length-insert ip ((j, u) ∷ m) = ground arith

length-add_all :
    (ips : List Bytes) (found : Dict (Unit {0})) → 0 < length found → 0 < length (add_all ips found)
unfolding add_all
length-add_all [] found h = h
length-add_all (x ∷ ips) found h =
    length-add_all ips (Dict.insert x tt found) (length-insert x found)

-- A list made by NewList trusts exactly the addresses that it was made from, but every address if
-- it was made from none.
pub is_trusted-new_list :
    (ips : List Bytes) (ip : Bytes)
    → is_trusted (new_list ips) ip ≡ (if length ips == 0 then true else contains ips ip)
unfolding is_trusted new_list Dict.lookup
is_trusted-new_list [] ip = unfold add_all in refl
is_trusted-new_list (x ∷ ips) ip =
    let pos : 0 < length (add_all (x ∷ ips) []) =
      unfold add_all in length-add_all ips (Dict.insert x tt []) (length-insert x []) in
    ground (arith, lookup-add_all (x ∷ ips) [] ip)
