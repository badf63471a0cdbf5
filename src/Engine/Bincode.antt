-- ===== src/Engine/Bincode.antt =====
-- The serialiser of frames (the crate bincode), as a parameter. A failure is `none`.
use lo_ra_db.Prelude.{ℕ, Option, List}
use lo_ra_db.Model.Frames.{Frame}

pub record Bincode : Type 0 where
  -- `serialized_size(frame).ok()`
  pub serialized_size : Frame → Option ℕ
  -- `serialize(frame)` and `deserialize::<Frame>(bytes)`
  pub serialize : Frame → Option (List ℕ)
  pub deserialize : List ℕ → Option Frame
