-- ===== src/Badgerauth/Records/Steps.antt =====
-- The writes that a successful InsertRecord has made, one after the other.
use gateway_mt.Prelude.{ℕ, ◌+◌, ◌%◌, ◌≡◌, inl, inr, arith}
use mathlib.Core.Path.{subst}
use gateway_mt.Prelude.Bytes.{Bytes}
use gateway_mt.Errs.{Result-cases, Result, ok}
use gateway_mt.Badger.{Entry, Badger}
use gateway_mt.Badgerauth.Clock.{u64_mod, make_clock_key, clock_bytes, current_clock, advance_clock}
use gateway_mt.Badgerauth.Proto.{PbRecord, Proto}
use gateway_mt.Badgerauth.Records.{both, check_duplicate, main_entry, rlog_entry, insert_record}

-- the entry that advanceClock writes
abbrev pub clock_entry : Bytes → ℕ → Entry
clock_entry node c = record { key = make_clock_key node; value = clock_bytes c; expires_at = 0 }

pub both-eq-ok {ℓ} :
    {S : Type ℓ} (m n : S → Result S) (s : S) {u : S}
    → both m n s ≡ ok u
    → (t : S) × (m s ≡ ok t) × (n t ≡ ok u)
unfolding both
both-eq-ok m n s h = ground arith

module _ (b : Badger) where
  pub advance_clock_steps :
      (node : Bytes) (s : b.State) (c : ℕ) (t : b.State)
      → advance_clock b node s ≡ ok (c, t)
      → (old : ℕ) × (current_clock b (b.get (make_clock_key node) s) ≡ ok old)
        × (c ≡ (old + 1) % u64_mod)
        × (b.set_entry (clock_entry node c) s ≡ ok t)
  unfolding advance_clock
  advance_clock_steps node s c t h = ground arith

pub record Steps (b : Badger) (p : Proto) (node key_hash : Bytes) (r : PbRecord) (s t : b.State)
    : Type 0 where
  pub marshaled : Bytes
  pub clock : ℕ
  pub after_clock : b.State
  pub after_main : b.State
  pub state_created : r.state ≡ 0
  pub checked : check_duplicate b p r (b.get key_hash s) ≡ ok tt
  pub encoded : p.marshal r ≡ ok marshaled
  pub clock_read : current_clock b (b.get (make_clock_key node) s) ≡ ok clock
  pub clock_written : b.set_entry (clock_entry node ((clock + 1) % u64_mod)) s ≡ ok after_clock
  pub main_written : b.set_entry (main_entry key_hash marshaled r) after_clock ≡ ok after_main
  pub log_written :
      b.set_entry (rlog_entry node ((clock + 1) % u64_mod) key_hash r) after_main ≡ ok t

module _ (b : Badger) (p : Proto) where
  pub insert_record-Steps :
      (node key_hash : Bytes) (r : PbRecord) (s t : b.State)
      → insert_record b p node key_hash r s ≡ ok t
      → Steps b p node key_hash r s t
  unfolding insert_record
  insert_record-Steps node key_hash r s t h =
      let checked : check_duplicate b p r (b.get key_hash s) ≡ ok tt = ground arith in
      let (v, enc) = let q : (v : Bytes) × (p.marshal r ≡ ok v) = ground arith in q in
      let (c, u, adv) =
        let q : (c : ℕ) × (u : b.State) × (advance_clock b node s ≡ ok (c, u)) =
          elim (Result-cases (advance_clock b node s)) [
            | inl (cu, e) ↦ (cu.0, cu.1, e)
            | inr (e, failed) ↦ absurd (ground arith)
          ] in
        q in
      let written : both (b.set_entry (main_entry key_hash v r))
            (b.set_entry (rlog_entry node c key_hash r)) u
          ≡ ok t =
        ground arith in
      let (w, main, rlog) =
        both-eq-ok (b.set_entry (main_entry key_hash v r))
          (b.set_entry (rlog_entry node c key_hash r)) u written in
      let (old, read, next, wrote) = advance_clock_steps b node s c u adv in
      record {
        marshaled = v;
        clock = old;
        after_clock = u;
        after_main = w;
        state_created = ground arith;
        checked = checked;
        encoded = enc;
        clock_read = read;
        clock_written =
            subst (λ k. b.set_entry (clock_entry node k) s ≡ ok u) {x = c} {y = (old + 1) % u64_mod}
              next wrote;
        main_written = main;
        log_written =
            subst (λ k. b.set_entry (rlog_entry node k key_hash r) w ≡ ok t) {x = c}
              {y = (old + 1) % u64_mod} next rlog;
      }
