-- ===== src/Badgerauth/LogEntry/Order.antt =====
-- Log entries of one node sort by their clocks, which is what findResponseEntries seeks by.
use gateway_mt.Prelude.{ℕ, ◌<◌, ◌≤◌, ◌++◌, ◌≡◌, sym, ◌∙◌, true, length, leb, leb→le, arith}
use mathlib.Core.Path.{subst}
use gateway_mt.Prelude.Bytes.{Bytes, leb_bytes, is_prefix, put_be, length-put_be}
use gateway_mt.Prelude.Bytes.Order.{
  leb_bytes-append_left, leb_bytes-append_right, leb_bytes_heads, leb_bytes-put_be,
  is_prefix-append, is_prefix_left, is_prefix_cut,
}
use gateway_mt.Badgerauth.Clock.{u64_mod}
use gateway_mt.Badgerauth.LogEntry.{
  LogEntry, IsSized, separator, log_prefix, entry_bytes, make_iteration_start_key,
}

-- what follows the clock, and what follows the id, in an entry's key
abbrev after_clock : LogEntry → Bytes
after_clock e = separator ++ (e.key_hash ++ (separator ++ put_be 4 e.state))

abbrev after_id : LogEntry → Bytes
after_id e = separator ++ (put_be 8 e.clock ++ after_clock e)

-- For a log entry whose fields have the sizes of their types and a clock below 2^64, the start key
-- of the entry's node and the clock is at or before the entry's key in byte order exactly if the
-- clock is at most the entry's.
pub leb_bytes-start_key :
    (e : LogEntry) (c : ℕ)
    → IsSized e
    → c < u64_mod
    → leb_bytes (make_iteration_start_key e.id c) (entry_bytes e) ≡ leb c e.clock
unfolding make_iteration_start_key entry_bytes
leb_bytes-start_key e c z h =
    leb_bytes-append_left log_prefix _ _
    ∙ leb_bytes-append_left e.id _ _
    ∙ leb_bytes-append_left separator _ _
    ∙ leb_bytes-append_right (put_be 8 c) (put_be 8 e.clock) (after_clock e)
        (length-put_be 8 c ∙ sym (length-put_be 8 e.clock))
    ∙ leb_bytes-put_be 8 c e.clock h z.clock_size

-- Of two entries of one node the first in key order has no later clock.
pub clock_le_of_leb_bytes :
    (e f : LogEntry)
    → IsSized e
    → IsSized f
    → e.id ≡ f.id
    → leb_bytes (entry_bytes e) (entry_bytes f) ≡ true
    → e.clock ≤ f.clock
unfolding entry_bytes
clock_le_of_leb_bytes e f ze zf same h =
    let h1 = sym (leb_bytes-append_left log_prefix _ _) ∙ h in
    let h2 = subst (λ i. leb_bytes (i ++ after_id e) (f.id ++ after_id f) ≡ true) same h1 in
    let h3 = sym (leb_bytes-append_left f.id _ _) ∙ h2 in
    let h4 = sym (leb_bytes-append_left separator _ _) ∙ h3 in
    let h5 =
      leb_bytes_heads (put_be 8 e.clock) (put_be 8 f.clock) (after_clock e) (after_clock f)
        (length-put_be 8 e.clock ∙ sym (length-put_be 8 f.clock)) h4 in
    leb→le e.clock f.clock
      (sym (leb_bytes-put_be 8 e.clock f.clock ze.clock_size zf.clock_size) ∙ h5)

-- The prefix of a node's part of the log is carried by that node's entries only.
pub id_of_prefix :
    (node : Bytes) (e : LogEntry)
    → length node ≡ 32
    → IsSized e
    → is_prefix (log_prefix ++ node) (entry_bytes e) ≡ true
    → e.id ≡ node
unfolding entry_bytes is_prefix
id_of_prefix node e hn z h = sym (is_prefix_cut node e.id _ (omega (arith, z.id_size)) h)

pub is_prefix-entry_bytes : (e : LogEntry) → is_prefix (log_prefix ++ e.id) (entry_bytes e) ≡ true
unfolding entry_bytes is_prefix
is_prefix-entry_bytes e = is_prefix-append e.id _

pub is_prefix-log_entry : (e : LogEntry) → is_prefix log_prefix (entry_bytes e) ≡ true
is_prefix-log_entry e = is_prefix_left log_prefix e.id (entry_bytes e) (is_prefix-entry_bytes e)
