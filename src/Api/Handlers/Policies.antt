-- ===== src/Api/Handlers/Policies.antt =====
-- The handlers of src/api/handlers.rs for retention policies.
use lo_ra_db.Prelude.{ℕ, Option, none, some, List, map, Result, ok, err, if◌then◌else◌}
use lo_ra_db.Model.Text.{Text}
use lo_ra_db.Model.Lorawan.{LoraDbError}
use lo_ra_db.Model.Frames.{DateTime}
use lo_ra_db.Storage.Policies
use lo_ra_db.Storage.Policies.{RetentionPolicy, RetentionPolicies}
use lo_ra_db.Api.Handlers.{max_app_id_length, validate_string_length}

pub record ApplicationRetentionPolicy : Type 0 where
  pub application_id : Text
  pub days : Option ℕ
  pub created_at : Text
  pub updated_at : Text

pub record RetentionPolicyListResponse : Type 0 where
  pub global_days : Option ℕ
  pub check_interval_hours : ℕ
  pub applications : List ApplicationRetentionPolicy

module _ (to_rfc3339 : DateTime → Text) where
  unfoldable pub policy_response : Text → RetentionPolicy → ApplicationRetentionPolicy
  policy_response app_id policy = record {
    application_id = app_id;
    days = policy.days;
    created_at = to_rfc3339 policy.created_at;
    updated_at = to_rfc3339 policy.updated_at;
  }

  unfoldable pub list_retention_policies : RetentionPolicies → RetentionPolicyListResponse
  unfolding policy_response
  list_retention_policies p = record {
    global_days = p.global_days;
    check_interval_hours = p.check_interval_hours;
    applications = map (λ e. policy_response e.0 e.1) p.applications;
  }

  unfoldable pub get_application_retention :
      Text → RetentionPolicies → Result LoraDbError ApplicationRetentionPolicy
  get_application_retention app_id p = elim (validate_string_length app_id max_app_id_length) [
    | err e ↦ err e
    | ok _ ↦ elim (Policies.get_application app_id p) [
      | some policy ↦ ok (policy_response app_id policy)
      | none ↦ err LoraDbError.storage_error
    ]
  ]

unfoldable pub set_application_retention :
    DateTime
    → Text
    → Option ℕ
    → RetentionPolicies
    → Result LoraDbError (Unit {0}) × RetentionPolicies
set_application_retention now app_id days p =
    elim (validate_string_length app_id max_app_id_length) [
      | err e ↦ (err e, p)
      | ok _ ↦ (ok tt, Policies.set_application now app_id days p)
    ]

unfoldable pub delete_application_retention :
    Text → RetentionPolicies → Result LoraDbError (Unit {0}) × RetentionPolicies
delete_application_retention app_id p = elim (validate_string_length app_id max_app_id_length) [
  | err e ↦ (err e, p)
  | ok _ ↦
      let (after, removed) = Policies.remove_application app_id p in
      if removed then (ok tt, after) else (err LoraDbError.storage_error, after)
]
