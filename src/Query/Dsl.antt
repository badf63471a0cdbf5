-- ===== src/Query/Dsl.antt =====
-- src/query/dsl.rs. A duration is its number of nanoseconds, and the clock is an argument.
use lo_ra_db.Model.Lorawan.{Failure, panic}
use lo_ra_db.Prelude.{Result, ok, err, ℕ, Option, none, some, List}
use lo_ra_db.Prelude.Int.{ℤ}
use lo_ra_db.Model.Text.{Text}
use lo_ra_db.Model.Json.{Value}
use lo_ra_db.Model.Frames.{DateTime}

pub data SelectClause : Type 0 where
  all uplink downlink join status : SelectClause
  fields : List Text → SelectClause

pub data FilterClause : Type 0 where
  between : DateTime → DateTime → FilterClause
  since : DateTime → FilterClause
  last : ℤ → FilterClause

pub record Query : Type 0 where
  pub select : SelectClause
  pub from_dev_eui : Text
  pub filter_clause : Option FilterClause
  pub limit : Option ℕ

-- `minus` is the time library's subtraction of a duration, which panics where it is `none`.
unfoldable pub time_range :
    (DateTime → ℤ → Option DateTime)
    → DateTime
    → Query
    → Result Failure (Option DateTime × Option DateTime)
time_range minus now q = elim q.filter_clause [
  | none ↦ ok (none, none)
  | some clause ↦ elim clause [
    | between start stop ↦ ok (some start, some stop)
    | since start ↦ ok (some start, none)
    | last duration ↦ elim (minus now duration) [
      | none ↦ err panic
      | some start ↦ ok (some start, none)
    ]
  ]
]

pub record QueryResult : Type 0 where
  pub dev_eui : Text
  pub total_frames : ℕ
  pub frames : List Value
