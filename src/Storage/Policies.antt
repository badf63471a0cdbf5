-- ===== src/Storage/Policies.antt =====
-- src/storage/retention_manager.rs: the policies in memory. The map of the source has no order; here
-- it ascends by application. The reading and writing of the JSON file are left out, but for which
-- policies `new` and `from_env` start with: the decoded file is an argument.
use lo_ra_db.Prelude.{
  ℕ, ◌≡◌, ◌≢◌, refl, Bool, Option, none, some, List, [], ◌∷◌, map, is_some, Option-cases, inl, inr,
}
use lo_ra_db.Prelude.Assoc
use lo_ra_db.Model.Text.{Text, text_ord}
use lo_ra_db.Model.Frames.{DateTime}

-- `days = none` keeps forever.
pub record RetentionPolicy : Type 0 where
  pub days : Option ℕ
  pub created_at : DateTime
  pub updated_at : DateTime

pub record RetentionPolicies : Type 0 where
  pub global_days : Option ℕ
  pub applications : List (Text × RetentionPolicy)
  pub check_interval_hours : ℕ

unfoldable pub default : RetentionPolicies
default = record { global_days = none; applications = []; check_interval_hours = 24 }

-- `new`: what the file decodes to, and the default where there is no file or it does not decode.
unfoldable pub load : Option RetentionPolicies → RetentionPolicies
load none = default
load (some policies) = policies

unfoldable pub policy_now : DateTime → Option ℕ → RetentionPolicy
policy_now now days = record { days = days; created_at = now; updated_at = now }

-- The applications of the environment, collected into the map.
unfoldable pub collect :
    DateTime
    → List (Text × Option ℕ)
    → List (Text × RetentionPolicy)
    → List (Text × RetentionPolicy)
unfolding policy_now
collect now [] applications = applications
collect now ((app_id, days) ∷ apps) applications =
    collect now apps (Assoc.insert app_id (policy_now now days) applications)

-- `from_env`: an existing file, decoded or not, goes before the environment.
unfoldable pub from_env :
    DateTime
    → Option (Option RetentionPolicies)
    → Option ℕ
    → List (Text × Option ℕ)
    → ℕ
    → RetentionPolicies
unfolding load collect
from_env now (some file) retention_days retention_apps check_interval_hours = load file
from_env now none retention_days retention_apps check_interval_hours = record {
  global_days = retention_days;
  applications = collect now retention_apps [];
  check_interval_hours = check_interval_hours;
}

unfoldable pub set_global : Option ℕ → RetentionPolicies → RetentionPolicies
set_global days p = record p { global_days = days }

unfoldable pub get_application : Text → RetentionPolicies → Option RetentionPolicy
get_application app_id p = Assoc.get app_id p.applications

-- An existing policy keeps its time of creation.
unfoldable pub set_application : DateTime → Text → Option ℕ → RetentionPolicies → RetentionPolicies
unfolding policy_now
set_application now app_id days p = elim (Assoc.get app_id p.applications) [
  | some existing ↦ record p {
    applications =
        Assoc.insert app_id (record existing { days = days; updated_at = now }) p.applications;
  }
  | none ↦ record p { applications = Assoc.insert app_id (policy_now now days) p.applications }
]

unfoldable pub remove_application : Text → RetentionPolicies → RetentionPolicies × Bool
remove_application app_id p = (
  record p { applications = Assoc.remove app_id p.applications },
  is_some (Assoc.get app_id p.applications),
)

unfoldable pub set_check_interval_hours : ℕ → RetentionPolicies → RetentionPolicies
set_check_interval_hours hours p = record p { check_interval_hours = hours }

unfoldable pub to_storage_config : RetentionPolicies → Option ℕ × List (Text × Option ℕ) × ℕ
to_storage_config p =
    (p.global_days, map (λ e. (e.0, e.1.days)) p.applications, p.check_interval_hours)

-- The period for the application: its own, or the global one.
unfoldable pub period : Text → RetentionPolicies → Option ℕ
period app_id p = elim (Assoc.get app_id p.applications) [
  | some policy ↦ policy.days
  | none ↦ p.global_days
]

period-insert :
    (app_id other : Text) (policy : RetentionPolicy) (p : RetentionPolicies)
    → Assoc.IsSorted p.applications
    → app_id ≢ other
    → (period app_id (record p { applications = Assoc.insert app_id policy p.applications })
        ≡ policy.days)
      × (period other (record p { applications = Assoc.insert app_id policy p.applications })
          ≡ period other p)
unfolding period
period-insert app_id other policy p s h = (
  rw (Assoc.get-insert_self app_id policy p.applications, period) refl,
  rw (Assoc.get-insert_ne app_id other policy p.applications s h, period) refl,
)

period-set :
    (now : DateTime) (app_id other : Text) (days : Option ℕ) (p : RetentionPolicies)
    → Assoc.IsSorted p.applications
    → app_id ≢ other
    → (period app_id (set_application now app_id days p) ≡ days)
      × (period other (set_application now app_id days p) ≡ period other p)
unfolding set_application
period-set now app_id other days p s h = elim (Option-cases (Assoc.get app_id p.applications)) [
  | inl q ↦ rw (q, set_application) (period-insert app_id other (policy_now now days) p s h)
  | inr (existing, q) ↦
      rw (q, set_application)
        (period-insert app_id other (record existing { days = days; updated_at = now }) p s h)
]

-- Setting the period of an application gives it that period, removing it again gives it the global
-- one, and neither changes the period of another application.
pub period-set_application :
    (now : DateTime) (app_id other : Text) (days : Option ℕ) (p : RetentionPolicies)
    → Assoc.IsSorted p.applications
    → app_id ≢ other
    → (period app_id (set_application now app_id days p) ≡ days)
      × (period other (set_application now app_id days p) ≡ period other p)
      × (period app_id (remove_application app_id p).0 ≡ p.global_days)
      × (period other (remove_application app_id p).0 ≡ period other p)
unfolding remove_application period
period-set_application now app_id other days p s h =
    let (own, kept) = period-set now app_id other days p s h in
    (
      own,
      kept,
      rw (Assoc.get-remove_self app_id p.applications s, period) refl,
      rw (Assoc.get-remove_ne app_id other p.applications s h, period) refl,
    )
