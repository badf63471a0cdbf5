-- ===== src/Query/Executor.antt =====
-- `QueryExecutor` of src/query/executor.rs, on the storage engine. The conversion of a frame to JSON
-- and the reading of a text as JSON are parameters.
use lo_ra_db.Prelude.{
  ℕ, Bool, true, false, Option, none, some, List, map, filter, length, take, min, Result, ok, err,
  ◌>>=◌, unwrap_or,
}
use lo_ra_db.Prelude.Int.{ℤ}
use lo_ra_db.Model.Text.{Text}
use lo_ra_db.Model.Lorawan
use lo_ra_db.Model.Lorawan.{LoraDbError, Failure, error, lift}
use lo_ra_db.Model.Json.{Value, object, end}
use lo_ra_db.Model.Frames.{Frame, uplink, downlink, join_request, join_accept, status, DateTime}
use lo_ra_db.Engine.Codec.{Formats}
use lo_ra_db.Storage
use lo_ra_db.Storage.{StorageEngine}
use lo_ra_db.Query.Dsl.{SelectClause, Query, QueryResult, time_range}
use lo_ra_db.Query.Project.{project_fields, unwrap_frame_variant, unwrap_decoded_payload}

abbrev pub max_query_results : ℕ
max_query_results = 10000

abbrev is_uplink : Frame → Bool
is_uplink f = elim f [ uplink _ ↦ true | _ ↦ false ]

abbrev is_downlink : Frame → Bool
is_downlink f = elim f [ downlink _ ↦ true | _ ↦ false ]

abbrev is_join : Frame → Bool
is_join f = elim f [ join_request _ ↦ true | join_accept _ ↦ true | _ ↦ false ]

abbrev is_status : Frame → Bool
is_status f = elim f [ status _ ↦ true | _ ↦ false ]

unfoldable pub filter_frames : SelectClause → List Frame → List Frame
filter_frames SelectClause.all frames = frames
filter_frames SelectClause.uplink frames = filter is_uplink frames
filter_frames SelectClause.downlink frames = filter is_downlink frames
filter_frames SelectClause.join frames = filter is_join frames
filter_frames SelectClause.status frames = filter is_status frames
filter_frames (SelectClause.fields ks) frames = frames

abbrev pub effective_limit : Option ℕ → ℕ
effective_limit limit = min (unwrap_or limit max_query_results) max_query_results

abbrev as_execution_error {ℓ} : {A : Type ℓ} → Result LoraDbError A → Result LoraDbError A
as_execution_error (ok a) = ok a
as_execution_error (err e) = err LoraDbError.query_execution_error

module _ (x : Formats) (to_value : Frame → Option Value) (from_str : Text → Option Value)
    (minus : DateTime → ℤ → Option DateTime) where
  -- The JSON of one frame; a frame without one is an empty object.
  unfoldable pub json_of : SelectClause → Frame → Value
  json_of select frame =
      project_fields
        (unwrap_decoded_payload from_str
          (unwrap_frame_variant (unwrap_or (to_value frame) (object end))))
        select

  -- The limit cuts the frames before the select clause is applied.
  unfoldable pub execute : DateTime → StorageEngine → Query → Result Failure QueryResult
  unfolding json_of filter_frames
  execute now e q = elim q.filter_clause [
    | none ↦ err (error LoraDbError.query_execution_error)
    | some _ ↦ do
      dev_eui ← lift (as_execution_error (Lorawan.new q.from_dev_eui))
      (start_time, end_time) ← time_range minus now q
      frames ← lift (Storage.query x e dev_eui start_time end_time)
      let json_frames =
          map (json_of q.select) (filter_frames q.select (take (effective_limit q.limit) frames))
      ok (record {
        dev_eui = q.from_dev_eui;
        total_frames = length json_frames;
        frames = json_frames;
      })
  ]
