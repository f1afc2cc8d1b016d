-- ===== src/Usage/Log.antt =====
-- What the probe has logged and counted after a number of records.
use cpa_plugin_commandcode.Base.{
  ℕ, suc, ◌+◌, Bytes, Bool, true, false, Option, some, List, [], ◌∷◌, ◌++◌, is_empty, if◌then◌else◌,
  bytes_eq, bytes_eq-eq, append_assoc, append-nil, ◌≡◌, refl, sym, ap, ◌∙◌, arith, Bool-cases, inl,
  inr,
}
use cpa_plugin_commandcode.Base.Dict.{Dict, lookup, insert, lookup-insert}
use cpa_plugin_commandcode.Config.{or_else}
use cpa_plugin_commandcode.Usage.{
  UsageRecord, Probe, append_line, record_line, record_usage, handle_usage,
}

-- A call of `HandleUsage`: the time, whether the file can be opened, and the record.
pub record Usage : Type 0 where
  pub now : Bytes
  pub opens : Bool
  pub entry : UsageRecord

-- The probe after some calls, the first one first.
unfoldable pub record_all : List Usage → Option Probe → Option Probe
record_all [] p = p
record_all (u ∷ us) p = record_all us (handle_usage u.now u.opens u.entry p)

-- The lines of the calls for which the file could be opened.
abbrev pub lines_of : List Usage → Bytes
lines_of [] = []
lines_of (u ∷ us) =
    let rest = lines_of us in if u.opens then record_line u.now u.entry ++ rest else rest

-- How many records are about a model.
abbrev pub count_model : Bytes → List Usage → ℕ
count_model m [] = 0
count_model m (u ∷ us) =
    let rest = count_model m us in if bytes_eq u.entry.model m then suc rest else rest

-- How often a model was seen.
abbrev pub seen_count : Bytes → Dict ℕ → ℕ
seen_count m seen = or_else (lookup m seen) 0

-- The probe logs these lines behind its file and counts these records, at the same path.
pub record Logs (before : Probe) (text : Bytes) (us : List Usage) (after : Probe) : Type 0 where
  pub same_path : after.path ≡ before.path
  pub logged : after.file ≡ before.file ++ text
  pub counted : (m : Bytes) → seen_count m after.seen ≡ seen_count m before.seen + count_model m us

-- One call on an armed probe.
abbrev after_usage : Usage → Probe → Probe
after_usage u p =
    append_line u.opens (record_line u.now u.entry)
      (record p { seen = insert u.entry.model (suc (seen_count u.entry.model p.seen)) p.seen })

record_usage-armed :
    (u : Usage) (p : Probe)
    → is_empty p.path ≡ false
    → record_usage u.now u.opens u.entry (some p) ≡ some (after_usage u p)
unfolding record_usage
record_usage-armed u p armed = rw armed

after_usage-Logs :
    (u : Usage) (p : Probe)
    → ((after_usage u p).path ≡ p.path)
      × ((after_usage u p).file ≡ p.file ++ (if u.opens then record_line u.now u.entry else []))
      × ((after_usage u p).seen
          ≡ insert u.entry.model (suc (seen_count u.entry.model p.seen)) p.seen)
unfolding append_line
after_usage-Logs u p = elim (Bool-cases u.opens) [
  | inl open_ ↦ rw open_ (refl, refl, refl)
  | inr shut ↦ rw shut (refl, sym (append-nil p.file), refl)
]

seen_count-insert :
    (k m : Bytes) (n : ℕ) (seen : Dict ℕ)
    → seen_count m (insert k n seen) ≡ (if bytes_eq k m then n else seen_count m seen)
seen_count-insert k m n seen = rw (lookup-insert k m n seen) (if-or_else (bytes_eq k m))
  where
    if-or_else :
        (b : Bool)
        → or_else (if b then some n else lookup m seen) 0 ≡ (if b then n else seen_count m seen)
    if-or_else true = refl
    if-or_else false = refl

if-append : (b : Bool) (l r : Bytes) → (if b then l else []) ++ r ≡ (if b then l ++ r else r)
if-append true l r = refl
if-append false l r = refl

-- A record counts for its own model only.
insert-count :
    (u : Usage) (us : List Usage) (m : Bytes) (seen : Dict ℕ)
    → seen_count m (insert u.entry.model (suc (seen_count u.entry.model seen)) seen)
        + count_model m us
      ≡ seen_count m seen + count_model m (u ∷ us)
insert-count u us m seen = elim (Bool-cases (bytes_eq u.entry.model m)) [
  | inl same ↦
      let k = bytes_eq-eq u.entry.model m same in
      rw (seen_count-insert u.entry.model m (suc (seen_count u.entry.model seen)) seen, same, k)
        (omega arith)
  | inr other ↦
      rw (seen_count-insert u.entry.model m (suc (seen_count u.entry.model seen)) seen, other) refl
]

-- On a probe with a path, every call counts its record under its model, and logs one line for each
-- call for which the file can be opened, in the order of the calls.
pub record_all-Logs :
    (us : List Usage) (p : Probe)
    → is_empty p.path ≡ false
    → (q : Probe) × (record_all us (some p) ≡ some q) × Logs p (lines_of us) us q
unfolding record_all
record_all-Logs [] p armed = (
  p,
  refl,
  record { same_path = refl; logged = sym (append-nil p.file); counted = λ m. omega arith },
)
record_all-Logs (u ∷ us) p armed =
    let p' = after_usage u p in
    let (path, file, seen) = after_usage-Logs u p in
    let (q, ran, logs) = record_all-Logs us p' (rw path armed) in
    let line = if u.opens then record_line u.now u.entry else [] in
    (
      q,
      rw (record_usage-armed u p armed) ran,
      record {
        same_path = logs.same_path ∙ path;
        logged =
            logs.logged
            ∙ ap (λ f. f ++ lines_of us) file
            ∙ append_assoc p.file line (lines_of us)
            ∙ ap (λ l. p.file ++ l) (if-append u.opens (record_line u.now u.entry) (lines_of us));
        counted = λ m.
            logs.counted m
            ∙ ap (λ s. seen_count m s + count_model m us) seen
            ∙ insert-count u us m p.seen;
      },
    )
