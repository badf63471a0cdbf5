-- ===== src/Engine/Wal/Truncate.antt =====
-- `truncate` and the opening of an empty directory give the empty log.
use lo_ra_db.Prelude.{
  ℕ, zero, suc, ◌+◌, ◌^◌, ◌<◌, ◌≤◌, ◌≡◌, refl, sym, ◌∙◌, ap, none, List, [], ◌++◌, arith, All,
  dec_lt, ℕ_discrete, ok,
}
use lo_ra_db.Prelude.Order.{nat_ord}
use lo_ra_db.Prelude.Assoc
use lo_ra_db.Model.Frames.{Frame}
use lo_ra_db.Engine.Bincode.{Bincode}
use lo_ra_db.Engine.Bytes.{Bytes}
use lo_ra_db.Engine.Wal.Replay.{
  IsLog, append_all, Serializes, replay-append_all, frames_of, frames_of-log, replay_segments-suc,
  absent_segments,
}
use lo_ra_db.Engine.Wal.{
  WriteAheadLog, replay, replay_segments, open_wal, open_segment, truncate, remove_segments,
}

abbrev Segments : Type 0
Segments = List (ℕ × Bytes)

remove_segments-IsSorted :
    (num count : ℕ) (s : Segments) → Assoc.IsSorted s → Assoc.IsSorted (remove_segments num count s)
unfolding remove_segments
remove_segments-IsSorted num zero s h = h
remove_segments-IsSorted num (suc count) s h =
    remove_segments-IsSorted (suc num) count (Assoc.remove num s) (Assoc.remove-IsSorted num s h)

-- A segment that is missing stays missing, and those of the range are removed.
get-remove_segments-none :
    (n num count : ℕ) (s : Segments)
    → Assoc.IsSorted s
    → Assoc.get n s ≡ none
    → Assoc.get n (remove_segments num count s) ≡ none
unfolding remove_segments
get-remove_segments-none n num zero s h e = e
get-remove_segments-none n num (suc count) s h e =
    get-remove_segments-none n (suc num) count (Assoc.remove num s) (Assoc.remove-IsSorted num s h)
      (elim (ℕ_discrete num n) [
        | yes p ↦ rw (← p) (Assoc.get-remove_self num s h)
        | no p ↦ Assoc.get-remove_ne num n s h p ∙ e
      ])

get-remove_segments :
    (n num count : ℕ) (s : Segments)
    → Assoc.IsSorted s
    → num ≤ n
    → n < num + count
    → Assoc.get n (remove_segments num count s) ≡ none
unfolding remove_segments
get-remove_segments n num zero s h lo hi = absurd (omega arith)
get-remove_segments n num (suc count) s h lo hi = elim (ℕ_discrete num n) [
  | yes p ↦
      get-remove_segments-none n (suc num) count (Assoc.remove num s)
        (Assoc.remove-IsSorted num s h) (rw (← p) (Assoc.get-remove_self num s h))
  | no p ↦
      get-remove_segments n (suc num) count (Assoc.remove num s) (Assoc.remove-IsSorted num s h)
        (omega arith) (omega arith)
]

module _ (bincode : Bincode) (crc32 : Bytes → ℕ) (word : (b : Bytes) → crc32 b < 2 ^ 32) where
  -- A directory without segments, in which segment 0 is created.
  fresh-IsLog :
      (s : Segments) (n : ℕ)
      → Assoc.IsSorted s
      → ((k : ℕ) → Assoc.get k s ≡ none)
      → IsLog bincode crc32 word
          (record { segments = open_segment 0 s; current_segment = 0; segment_number = n })
          []
  unfolding open_segment
  fresh-IsLog s n h empty =
      rw (empty 0, open_segment)
        (record {
          sorted = Assoc.insert-IsSorted 0 [] s h;
          bounded = omega arith;
          holds = Assoc.get-insert_self 0 [] s;
          written = tt;
          is_last = λ k p. Assoc.get-insert_ne 0 k [] s h (λ e. omega arith) ∙ empty k;
        })

  pub truncate-IsLog :
      (wal : WriteAheadLog) (l : List (Bytes × Frame))
      → IsLog bincode crc32 word wal l
      → IsLog bincode crc32 word (truncate wal) []
  unfolding truncate
  truncate-IsLog wal l h =
      let n = suc wal.segment_number in
      fresh-IsLog (remove_segments 0 n wal.segments) wal.segment_number
        (remove_segments-IsSorted 0 n wal.segments h.sorted)
        (λ k. elim (dec_lt k n) [
          | yes p ↦ get-remove_segments k 0 n wal.segments h.sorted (omega arith) (omega arith)
          | no p ↦
              get-remove_segments-none k 0 n wal.segments h.sorted
                (h.is_last k (omega (arith, h.bounded)))
        ])

  pub open_wal-IsLog : IsLog bincode crc32 word (open_wal []) []
  unfolding open_wal
  open_wal-IsLog = fresh-IsLog [] 0 tt (λ k. unfold Assoc.get in refl)

  -- An empty log on segment 0 replays to nothing.
  pub replay_fresh :
      (wal : WriteAheadLog)
      → IsLog bincode crc32 word wal []
      → wal.current_segment ≡ 0
      → replay bincode crc32 wal ≡ []
  unfolding replay
  replay_fresh wal h z =
      replay_segments-suc bincode crc32 word wal.segments 0 wal.segment_number
      ∙ ap
          (λ o.
            frames_of bincode crc32 word o
            ++ replay_segments bincode crc32 wal.segments 1 wal.segment_number)
          (ap (λ n. Assoc.get n wal.segments) (sym z) ∙ h.holds)
      ∙ ap (λ x. x ++ replay_segments bincode crc32 wal.segments 1 wal.segment_number)
          (frames_of-log bincode crc32 word [] tt)
      ∙ absent_segments bincode crc32 word wal.segments 1 wal.segment_number
          (λ n k. h.is_last n (omega arith))

  pub current-truncate : (wal : WriteAheadLog) → (truncate wal).current_segment ≡ 0
  unfolding truncate
  current-truncate wal = refl

  pub append_all_empty :
      (wal : WriteAheadLog) (fs : List Frame)
      → IsLog bincode crc32 word wal []
      → wal.current_segment ≡ 0
      → All (Serializes bincode crc32 word) fs
      → (wal' : WriteAheadLog) × (append_all bincode crc32 word wal fs ≡ ok wal')
        × (replay bincode crc32 wal' ≡ fs)
  append_all_empty wal fs h z s =
      let (wal', done, same) = replay-append_all bincode crc32 word fs wal [] h s in
      (wal', done, same ∙ ap (λ x. x ++ fs) (replay_fresh wal h z))

  -- After `truncate` of a log in order, whose open segment holds whole entries only and is the last
  -- one, appending frames that serialise to less than 4 GiB and read back as they were succeeds, and the
  -- replay returns exactly these frames, in order, and nothing from before the `truncate`. The
  -- checksum is assumed to be a 32-bit word.
  pub replay-truncate :
      (wal : WriteAheadLog) (l : List (Bytes × Frame)) (fs : List Frame)
      → IsLog bincode crc32 word wal l
      → All (Serializes bincode crc32 word) fs
      → (wal' : WriteAheadLog) × (append_all bincode crc32 word (truncate wal) fs ≡ ok wal')
        × (replay bincode crc32 wal' ≡ fs)
  replay-truncate wal l fs h s =
      append_all_empty (truncate wal) fs (truncate-IsLog wal l h) (current-truncate wal) s
