-- ===== src/Storage/Retention.antt =====
-- `enforce_retention` of src/storage/mod.rs. A set of application ids is walked in its ascending
-- order. The instant of a key's microseconds is a parameter, since the time library bounds it; an
-- instant before the library's first one, at which the source panics, is left out.
use lo_ra_db.Prelude.{
  ℕ, ◌*◌, ◌≡◌, refl, Bool, true, false, not, Option, none, some, List, [], ◌∷◌, map, filter, max,
  All, ok, err, ◌==◌, if◌then◌else◌, is_none, leb, sym, ap, All-map, ◌∙◌, ◌&&◌, Option-cases, inl,
  inr, arith,
}
use lo_ra_db.Prelude.Int.{ℤ, pos, int_ord, ◌-ℤ◌}
use lo_ra_db.Prelude.Order.{le}
use lo_ra_db.Prelude.Assoc
use lo_ra_db.Model.Text.{Text, text_ord}
use lo_ra_db.Model.Frames.{DateTime}
use lo_ra_db.Engine.Codec.{Formats}
use lo_ra_db.Engine.SsTable.{AppIds}
use lo_ra_db.Engine.SsTable.Reader.{application_ids}
use lo_ra_db.Engine.Compaction.{Table}
use lo_ra_db.Storage.{StorageEngine, sstable_path, delete_files}
use lo_ra_db.Storage.Policies.{RetentionPolicy, RetentionPolicies}

-- The longer one of the period so far and a further one.
abbrev pub longest : Option ℕ → ℕ → ℕ
longest none days = days
longest (some current) days = max current days

-- The loop over the application ids, with the period so far: an application's own period or the
-- global one, and the longest of all; an application with "never" ends it without a period.
unfoldable pub retention_of : RetentionPolicies → AppIds → Option ℕ → Option ℕ
retention_of p [] so_far = so_far
retention_of p ((app_id, _) ∷ ids) so_far = elim (Assoc.get app_id p.applications) [
  | some policy ↦ elim policy.days [
    | none ↦ none
    | some days ↦ retention_of p ids (some (longest so_far days))
  ]
  | none ↦ elim p.global_days [
    | none ↦ retention_of p ids so_far
    | some days ↦ retention_of p ids (some (longest so_far days))
  ]
]

-- `now - Duration::days(days)`, in nanoseconds.
abbrev pub cutoff : DateTime → ℕ → ℤ
cutoff now days = now.nanos -ℤ pos (days * 86400000000000)

unfoldable pub is_past : DateTime → ℤ → Option ℕ → Bool
is_past now max_time none = false
is_past now max_time (some days) = not (le (cutoff now days) max_time)

abbrev is_empty {ℓ} : {A : Type ℓ} → List A → Bool
is_empty [] = true
is_empty (a ∷ l) = false

abbrev any_id : List ℕ → ℕ → Bool
any_id [] id = false
any_id (i ∷ ids) id = if i == id then true else any_id ids id

module _ (x : Formats) (from_timestamp_micros : ℤ → Option DateTime) where
  -- One round of the loop over the tables: the table with its cache, and if it is to be deleted.
  unfoldable pub check_table : DateTime → RetentionPolicies → Table → Table × Bool
  unfolding retention_of is_past
  check_table now p t = elim (from_timestamp_micros t.reader.metadata.max_key.timestamp) [
    | none ↦ (t, false)
    | some max_time ↦ elim p.applications [
      | [] ↦ (t, is_past now max_time.nanos p.global_days)
      | ◌∷◌ a l ↦ elim (application_ids x t.file t.reader) [
        | err why ↦ (t, false)
        | ok (app_ids, reader) ↦
            (record t { reader = reader }, is_past now max_time.nanos (retention_of p app_ids none))
      ]
    ]
  ]

  -- The loop: the tables, and the ids of those to delete.
  unfoldable pub check_tables : DateTime → RetentionPolicies → List Table → List Table × List ℕ
  unfolding check_table
  check_tables now p [] = ([], [])
  check_tables now p (t ∷ tables) =
      let (t', past) = check_table now p t in
      let (rest, ids) = check_tables now p tables in
      (t' ∷ rest, if past then t'.reader.id ∷ ids else ids)

  unfoldable pub enforce_retention : DateTime → RetentionPolicies → StorageEngine → StorageEngine
  unfolding check_tables
  enforce_retention now p e =
      if is_none p.global_days && is_empty p.applications
      then e
      else let (tables, ids) = check_tables now p e.sstables in
        record e {
          sstables = filter (λ t. not (any_id ids t.reader.id)) tables;
          files = delete_files (map sstable_path ids) e.files;
        }

module _ (p : RetentionPolicies) (app_id : Text) (u : Unit {0}) (ids : AppIds)
    (so_far : Option ℕ) where
  step_never :
      (policy : RetentionPolicy)
      → Assoc.get app_id p.applications ≡ some policy
      → policy.days ≡ none
      → retention_of p ((app_id, u) ∷ ids) so_far ≡ none
  unfolding retention_of
  step_never policy q r = rw (q, r, retention_of) refl

  step_own :
      (policy : RetentionPolicy) (days : ℕ)
      → Assoc.get app_id p.applications ≡ some policy
      → policy.days ≡ some days
      → retention_of p ((app_id, u) ∷ ids) so_far ≡ retention_of p ids (some (longest so_far days))
  unfolding retention_of
  step_own policy days q r = rw (q, r, retention_of) refl

  step_unset :
      Assoc.get app_id p.applications ≡ none
      → p.global_days ≡ none
      → retention_of p ((app_id, u) ∷ ids) so_far ≡ retention_of p ids so_far
  unfolding retention_of
  step_unset q r = rw (q, r, retention_of) refl

  step_global :
      (days : ℕ)
      → Assoc.get app_id p.applications ≡ none
      → p.global_days ≡ some days
      → retention_of p ((app_id, u) ∷ ids) so_far ≡ retention_of p ids (some (longest so_far days))
  unfolding retention_of
  step_global days q r = rw (q, r, retention_of) refl

-- The period of the application, if there is one, is at most the given one, and it is no "never".
unfoldable pub within : RetentionPolicies → ℕ → Text → Bool
within p days app_id = elim (Assoc.get app_id p.applications) [
  | some policy ↦ elim policy.days [ none ↦ false | some own ↦ leb own days ]
  | none ↦ elim p.global_days [ none ↦ true | some own ↦ leb own days ]
]

no_more :
    (p : RetentionPolicies) (so_far : Option ℕ) (days : ℕ)
    → retention_of p [] so_far ≡ some days
    → longest so_far days ≡ days
unfolding retention_of
no_more p none days h = cc
no_more p (some current) days h = ground (arith, h)

-- The period that the loop ends with is at least every period it met, and it met no "never".
pub retention_of-within :
    (p : RetentionPolicies) (ids : AppIds) (so_far : Option ℕ) (days : ℕ)
    → retention_of p ids so_far ≡ some days
    → (longest so_far days ≡ days) × All (λ a. within p days a.0 ≡ true) ids
unfolding within
retention_of-within p [] so_far days h = (no_more p so_far days h, tt)
retention_of-within p ((a, u) ∷ ids) so_far days h =
    elim (Option-cases (Assoc.get a p.applications)) [
      | inl q ↦ elim (Option-cases p.global_days) [
        | inl r ↦
            let (low, all) =
              retention_of-within p ids so_far days (sym (step_unset p a u ids so_far q r) ∙ h) in
            (low, (rw (q, r, within) refl, all))
        | inr (n, r) ↦
            let (low, all) =
              retention_of-within p ids (some (longest so_far n)) days
                (sym (step_global p a u ids so_far n q r) ∙ h) in
            (ground (arith, low), (rw (q, r, within) (ground (arith, low)), all))
      ]
      | inr (policy, q) ↦ elim (Option-cases policy.days) [
        | inl r ↦ cc (sym (step_never p a u ids so_far policy q r) ∙ h)
        | inr (n, r) ↦
            let (low, all) =
              retention_of-within p ids (some (longest so_far n)) days
                (sym (step_own p a u ids so_far policy n q r) ∙ h) in
            (ground (arith, low), (rw (q, r, within) (ground (arith, low)), all))
      ]
    ]

past_mono :
    (now : DateTime) (max_time : ℤ) (own days : ℕ)
    → leb own days ≡ true
    → is_past now max_time (some days) ≡ true
    → is_past now max_time (some own) ≡ true
unfolding is_past ◌-ℤ◌
past_mono now max_time own days h t = ground arith

-- The table's newest time is past the application's own period, or past the global one where the
-- application has no policy; where there is neither, nothing is asked.
unfoldable pub past_period : RetentionPolicies → DateTime → ℤ → Text → Bool
past_period p now max_time app_id = elim (Assoc.get app_id p.applications) [
  | some policy ↦ is_past now max_time policy.days
  | none ↦ elim p.global_days [ none ↦ true | some own ↦ is_past now max_time (some own) ]
]

past_within :
    (p : RetentionPolicies) (now : DateTime) (max_time : ℤ) (days : ℕ) (app_id : Text)
    → is_past now max_time (some days) ≡ true
    → within p days app_id ≡ true
    → past_period p now max_time app_id ≡ true
unfolding within past_period is_past
past_within p now max_time days app_id t h = grind (arith, past_mono now max_time)

-- Where the decision of `enforce_retention` on a table with these application ids, and with an
-- application policy set, is to delete it, its newest time is past the period of every application
-- that has one, its own or the global one, and no application has an explicit "never".
pub retention_of-past_period :
    (p : RetentionPolicies) (now : DateTime) (max_time : ℤ) (ids : AppIds)
    → is_past now max_time (retention_of p ids none) ≡ true
    → All (λ a. past_period p now max_time a.0 ≡ true) ids
unfolding is_past
retention_of-past_period p now max_time ids h = elim (Option-cases (retention_of p ids none)) [
  | inl q ↦ cc (ap (is_past now max_time) q, h)
  | inr (days, q) ↦
      let past : is_past now max_time (some days) ≡ true = sym (ap (is_past now max_time) q) ∙ h in
      All-map (λ a w. past_within p now max_time days a.0 past w) ids
        (retention_of-within p ids none days q).1
]
