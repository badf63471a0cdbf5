-- ===== src/Tests/Queries.antt =====
-- Runs of the query executor and of the retention policies.
use lo_ra_db.Prelude.{◌≡◌, ◌≢◌, refl, true, Option, none, some, [], ◌∷◌, arith, All, ok}
use lo_ra_db.Prelude.Int.{ℤ, pos, ◌-ℤ◌}
use lo_ra_db.Prelude.Order.{cmp_list}
use lo_ra_db.Prelude.Assoc
use lo_ra_db.Model.Text.{Text, text, text_ord}
use lo_ra_db.Model.Lorawan
use lo_ra_db.Model.Lorawan.{DevEui, LoraDbError}
use lo_ra_db.Model.Json.{Value}
use lo_ra_db.Model.Frames.{Frame, DateTime}
use lo_ra_db.Engine.Memtable
use lo_ra_db.Engine.SsTable.{AppIds}
use lo_ra_db.Engine.Wal.{open_wal}
use lo_ra_db.Storage
use lo_ra_db.Storage.{StorageEngine}
use lo_ra_db.Storage.Policies.{
  RetentionPolicies, set_application, remove_application, period, period-set_application,
}
use lo_ra_db.Storage.Retention.{retention_of, is_past, past_period, retention_of-past_period}
use lo_ra_db.Query.Dsl.{SelectClause, FilterClause, Query}
use lo_ra_db.Tests.Formats.{accept_at}

abbrev pub eui : DevEui
eui = record { as_str = text "0123456789abcdef" }

abbrev frame : Frame
frame = accept_at eui.as_str 5000

abbrev pub engine : StorageEngine
engine = record {
  wal = open_wal [];
  memtable = record {
    entries = (record { dev_eui = eui.as_str; timestamp = pos 5; sequence = 0 }, frame) ∷ [];
    size_bytes = 50;
    sequence = 1;
  };
  sstables = [];
  compaction_manager = record { threshold = 3; next_sstable_id = 1 };
  device_registry = [];
  files = [];
  memtable_size_mb = 64;
  compaction_threshold = 3;
}

abbrev some_query : Query
some_query = record {
  select = SelectClause.join;
  from_dev_eui = eui.as_str;
  filter_clause = some (FilterClause.since (record { nanos = pos 1000 }));
  limit = some 5;
}

abbrev pub to_value : Frame → Option Value
to_value f = none

abbrev pub from_str : Text → Option Value
from_str s = none

abbrev pub noon : DateTime
noon = record { nanos = pos 90000 }

pub eui-valid : Lorawan.new eui.as_str ≡ ok eui
unfolding Lorawan.new
eui-valid = refl

-- A subtraction within its bounds.
abbrev minus : DateTime → ℤ → Option DateTime
minus t d = some (record { nanos = t.nanos -ℤ d })

abbrev policies : RetentionPolicies
policies = record {
  global_days = some 2;
  applications = (text "a", record { days = some 1; created_at = noon; updated_at = noon }) ∷ [];
  check_interval_hours = 24;
}

abbrev two_apps : AppIds
two_apps = (text "a", tt) ∷ (text "b", tt) ∷ []

abbrev later : DateTime
later = record { nanos = pos 300000000000000 }

two_apps-past : is_past later (pos 5000) (retention_of policies two_apps none) ≡ true
unfolding is_past retention_of Assoc.get ◌-ℤ◌ cmp_list
two_apps-past = refl

retention_of-past_period_example :
    All (λ a. past_period policies later (pos 5000) a.0 ≡ true) two_apps
retention_of-past_period_example =
    retention_of-past_period policies later (pos 5000) two_apps two_apps-past

policies-IsSorted : Assoc.IsSorted policies.applications
policies-IsSorted = (tt, tt)

other_app : text "c" ≢ text "a"
other_app = ground arith

period-set_application_example :
    (period (text "c") (set_application later (text "c") (some 9) policies) ≡ some 9)
    × (period (text "a") (set_application later (text "c") (some 9) policies)
        ≡ period (text "a") policies)
    × (period (text "c") (remove_application (text "c") policies).0 ≡ policies.global_days)
    × (period (text "a") (remove_application (text "c") policies).0 ≡ period (text "a") policies)
period-set_application_example =
    period-set_application later (text "c") (text "a") (some 9) policies policies-IsSorted other_app
