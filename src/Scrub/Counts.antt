-- ===== src/Scrub/Counts.antt =====
-- integrity.go: the counters of a scrub's report.
use fsrecon.Prelude.{
  ℕ, suc, ◌+◌, ◌%◌, ◌^◌, ◌≡◌, subst, arith, Bool, true, false, ◌&&◌, Map, Option, none, some, List,
  [], ◌∷◌, length, length-append, ok, Result-cases, Bool-cases, inl, inr,
}
use fsrecon.State.{FileState, file_type_eq, file_type_regular}
use fsrecon.Scanner.{Entry, state_from_entry}
use fsrecon.Config.{Config}
use fsrecon.Diff
use fsrecon.Scrub.{
  Checked, checked, check_error, Stage, Scan, new_scan, corrupt_event, report_corrupt,
  fingerprint_fits, judge, judge_answer, scrub_entry, scrub_entries,
}

-- `n` files were found to be healthy, and each other one has its event.
pub record IsCounted {W : Type 0} (n : ℕ) (s : Scan W) : Type 0 where
  pub scanned : s.report.scanned ≡ (n + length s.all_events) % 2 ^ 64
  pub healthy : s.report.healthy ≡ n % 2 ^ 64
  pub corrupt : s.report.corrupt ≡ length s.all_events % 2 ^ 64

module _ {W E : Type 0} (config : Config W E) (stage : Stage W E)
    (check : FileState → W → Checked E) where
  judge-IsCounted :
      (state : FileState) (valid : Bool) (n : ℕ) (s u : Scan W)
      → IsCounted n s
      → judge config stage check state valid s ≡ ok u
      → (m : ℕ) × IsCounted m u
  unfolding judge report_corrupt
  judge-IsCounted state true n s u c h = (
    suc n,
    record {
      scanned = ground (arith, c.scanned);
      healthy = ground (arith, c.healthy);
      corrupt = ground (arith, c.corrupt);
    },
  )
  judge-IsCounted state false n s u c h =
      let more = length-append s.all_events (corrupt_event state ∷ []) in
      (
        n,
        record {
          scanned = ground (arith, c.scanned, more);
          healthy = ground (arith, c.healthy);
          corrupt = ground (arith, c.corrupt, more);
        },
      )

  judge_answer-IsCounted :
      (expected : Option (Map Diff.Expected)) (state : FileState) (x : Checked E) (n : ℕ)
      (s u : Scan W)
      → IsCounted n s
      → judge_answer config stage check expected state x s ≡ ok u
      → (m : ℕ) × IsCounted m u
  judge_answer-IsCounted expected state (check_error e) n s u c h = absurd (ground arith)
  judge_answer-IsCounted expected state (checked valid fingerprint) n s u c h =
      judge-IsCounted state (valid && fingerprint_fits expected state.path fingerprint) n s u c h

  scrub_entry-IsCounted :
      (expected : Option (Map Diff.Expected)) (entry : Entry) (n : ℕ) (s u : Scan W)
      → IsCounted n s
      → scrub_entry config stage check expected entry s ≡ ok u
      → (m : ℕ) × IsCounted m u
  unfolding scrub_entry
  scrub_entry-IsCounted expected entry n s u c h =
      let state = state_from_entry entry in
      elim (Bool-cases (file_type_eq state.file_type file_type_regular)) [
        | inl r ↦ judge_answer-IsCounted expected state (check state s.world) n s u c (ground arith)
        | inr r ↦ (n, subst (IsCounted n) (ground arith) c)
      ]

  counts_of :
      (expected : Option (Map Diff.Expected)) (entries : List Entry) (fault : Option E) (n : ℕ)
      (s u : Scan W)
      → IsCounted n s
      → scrub_entries config stage check expected entries fault s ≡ ok u
      → (m : ℕ) × IsCounted m u
  unfolding scrub_entries
  counts_of expected [] none n s u c h = (n, subst (IsCounted n) (ground arith) c)
  counts_of expected [] (some e) n s u c h = absurd (ground arith)
  counts_of expected (entry ∷ entries) fault n s u c h =
      elim (Result-cases (scrub_entry config stage check expected entry s)) [
        | inl (v, e) ↦
            let (m, d) = scrub_entry-IsCounted expected entry n s v c e in
            counts_of expected entries fault m v u d (ground arith)
        | inr (x, v, e) ↦ absurd (ground arith)
      ]

  -- When a scan for a scrub goes through, the scanned files are the healthy and the corrupt ones,
  -- and each corrupt one has its event; the counts wrap around at 2 ^ 64.
  pub scrub_entries-counts :
      (expected : Option (Map Diff.Expected)) (entries : List Entry) (fault : Option E)
      (generation : ℕ) (w : W) (u : Scan W)
      → scrub_entries config stage check expected entries fault (new_scan generation w) ≡ ok u
      → (u.report.scanned ≡ (u.report.healthy + u.report.corrupt) % 2 ^ 64)
        × (u.report.corrupt ≡ length u.all_events % 2 ^ 64)
  scrub_entries-counts expected entries fault generation w u h =
      let (n, c) =
        counts_of expected entries fault 0 (new_scan generation w) u
          (record { scanned = omega arith; healthy = omega arith; corrupt = omega arith }) h in
      (omega (arith, c.scanned, c.healthy, c.corrupt), c.corrupt)
