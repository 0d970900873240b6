-- ===== src/Badgerauth/CatchUp.antt =====
-- Replication between two databases, end to end: what findResponseEntries ships and
-- insertResponseEntries takes over.
use gateway_mt.Prelude.{
  ℕ, suc, ◌+◌, ◌<◌, ◌≡◌, refl, sym, ap, ◌∙◌, inl, inr, List, [], ◌∷◌, length, All, arith,
}
use mathlib.Core.Path.{subst}
use gateway_mt.Prelude.Bytes.{Bytes}
use gateway_mt.Errs.{Class, ok}
use gateway_mt.Badger.{Badger, IsEngine}
use gateway_mt.Authdb.KeyHash
use gateway_mt.Badgerauth.NodeId.{fill_32_exact}
use gateway_mt.Badgerauth.Clock.{u64_mod}
use gateway_mt.Badgerauth.LogEntry.{LogEntry, IsSized}
use gateway_mt.Badgerauth.Proto.{Proto, IsCodec}
use gateway_mt.Badgerauth.Records.{
  ResponseEntry, lookup_record, find_response_entries, insert_response_entries,
}
use gateway_mt.Badgerauth.Consistent.{IsConsistent}
use gateway_mt.Badgerauth.Delta.{Among, Answers, IsMissing, IsDelta, find_response_entries-IsDelta}
use gateway_mt.Badgerauth.Response.{HasClock, IsFresh, insert_response_entries-IsReplicated}

module _ (b : Badger) (p : Proto) where
  length-Answers :
      (s : b.State) (es : List LogEntry) (out : List ResponseEntry)
      → Answers b p s es out
      → length es ≡ length out
  length-Answers s [] [] h = refl
  length-Answers s [] (a ∷ out) h = absurd h
  length-Answers s (e ∷ es) [] h = absurd h
  length-Answers s (e ∷ es) (a ∷ out) (_, _, _, h) = ap suc (length-Answers s es out h)

  -- each entry that was answered is stored as the answering side has it
  answered :
      (s t : b.State) (es : List LogEntry) (out : List ResponseEntry) (e : LogEntry)
      → IsSized e
      → Answers b p s es out
      → All
          (λ a.
            (k : Bytes)
            → KeyHash.set_bytes a.encryption_key_hash ≡ ok k
            → lookup_record b p k t ≡ ok a.entry_record)
          out
      → Among e es
      → lookup_record b p e.key_hash t ≡ lookup_record b p e.key_hash s
  unfolding KeyHash.set_bytes
  answered s t (x ∷ es) (a ∷ out) e z (_, same, found, h) (here, stored) (inl is) =
      let hash : a.encryption_key_hash ≡ e.key_hash = same ∙ ap (λ (y : LogEntry). y.key_hash) is in
      let read = here e.key_hash (rw hash (fill_32_exact Class.key_hash e.key_hash z.key_size)) in
      read
      ∙ sym (subst (λ (y : LogEntry). lookup_record b p y.key_hash s ≡ ok a.entry_record) is found)
  answered s t (x ∷ es) (a ∷ out) e z (_, _, _, h) (_, stored) (inr later) =
      answered s t es out e z h stored later
  answered s t [] out e z h stored among = absurd among
  answered s t (x ∷ es) [] e z h stored among = absurd h

-- Take two consistent databases, where the asking one's clocks leave room for the answer and the
-- requested clock is below 2^64 - 1. If findResponseEntries of the other one answers with fewer
-- entries than the limit, none of them expired or under a key hash that looks like a key of the
-- log, and the asking one inserts that answer, then every record that the other one's log names
-- for the node after the requested clock is found in the asking one as it is found in the other.
pub pull_catches_up :
    (b : Badger) (p : Proto)
    → IsEngine b
    → IsCodec p
    → (there here after : b.State) (limit : ℕ) (node : Bytes) (clock : ℕ) → IsConsistent b p there
    → IsConsistent b p here
    → length node ≡ 32
    → clock + 1 < u64_mod
    → (out : List ResponseEntry) → find_response_entries b p limit node clock there ≡ ok out
    → length out < limit
    → All (IsFresh b p) out
    → ((id : Bytes) (c : ℕ) → length id ≡ 32 → HasClock b here id c → c + length out < u64_mod)
    → insert_response_entries b p out here ≡ ok after
    → (e : LogEntry) → IsMissing b p there node clock e
    → lookup_record b p e.key_hash after ≡ lookup_record b p e.key_hash there
pull_catches_up b p engine codec there here after limit node clock good good' hn below out answer
      short fresh bound done e m =
    let (out', answer', delta) =
      find_response_entries-IsDelta b p engine there good limit node clock hn below in
    let same : out' ≡ out = cc in
    let d : IsDelta b p there limit node clock out =
      subst (IsDelta b p there limit node clock) same delta in
    let r =
      insert_response_entries-IsReplicated b p engine codec out here after good' fresh bound done in
    elim (d.complete e m) [
      | inl among ↦ answered b p there after d.entries out e m.sized d.answers r.stored among
      | inr (full, _) ↦ absurd (omega (arith, length-Answers b p there d.entries out d.answers))
    ]
