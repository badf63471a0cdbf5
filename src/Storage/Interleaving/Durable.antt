-- ===== src/Storage/Interleaving/Durable.antt =====
-- What the log keeps while the writers and the flush of src/storage/mod.rs are under way.
use mathlib.Core.List.{Memᴰ}
use mathlib.Core.List.Memᴰ
use lo_ra_db.Prelude.{
  ◌<◌, ◌^◌, ◌^◌, ◌≡◌, ◌≢◌, refl, sym, ◌∙◌, ap, subst, some, List, [], ◌∷◌, ◌++◌, length, ok, err,
  arith, All, All-map, Option-cases, Bool-cases, inl, inr, ltb, ◌-◌,
}
use lo_ra_db.Prelude.Assoc
use lo_ra_db.Model.Lorawan.{LoraDbError}
use lo_ra_db.Model.Frames.{Frame, DateTime, dev_eui, timestamp}
use lo_ra_db.Engine.Codec.{Formats, FormatLaws}
use lo_ra_db.Engine.Bytes.{Bytes}
use lo_ra_db.Engine.Memtable
use lo_ra_db.Engine.Memtable.Keys.{key_ord, new_key}
use lo_ra_db.Engine.Wal.{WriteAheadLog, append, replay}
use lo_ra_db.Engine.Wal.Log.{Holds}
use lo_ra_db.Engine.Wal.Replay.{IsLog, appended, append-appended, appended-IsLog, replay-appended}
use lo_ra_db.Storage.Interleaving.{
  Phase, System, Step, Steps, logged_engine, stored_engine, log, store, allocate, create, push,
  clear, truncate, start, later,
}

module _ (x : Formats) (law : FormatLaws x) where
  -- A log that takes a frame has serialised it.
  append_serialized :
      (wal wal' : WriteAheadLog) (f : Frame)
      → append x.bincode x.crc32 wal f ≡ ok wal'
      → (p : Bytes) × (x.bincode.serialize f ≡ some p) × (length p < 2 ^ 32)
  unfolding append
  append_serialized wal wal' f h = elim (Option-cases (x.bincode.serialize f)) [
    | inl e ↦
        let bad : append x.bincode x.crc32 wal f ≡ err LoraDbError.bincode_error =
          rw (e, append) refl in
        cc (h, bad)
    | inr (p, e) ↦ elim (Bool-cases (ltb (2 ^ 32 - 1) (length p))) [
      | inl long ↦
          let bad : append x.bincode x.crc32 wal f ≡ err LoraDbError.wal_error =
            rw (e, append, long) refl in
          cc (h, bad)
      | inr short ↦ (p, e, ground (arith, short))
    ]
  ]

  -- The open segment holds whole entries only, and is the last one.
  abbrev pub Logged : WriteAheadLog → Type 0
  Logged wal = (l : List (Bytes × Frame)) × IsLog x.bincode x.crc32 law.word wal l

  -- The log replays to a list that has what the serialised frame is read back as.
  abbrev pub Replayed : WriteAheadLog → Frame → Type 0
  Replayed wal f =
      (p : Bytes) × (g : Frame) × (x.bincode.serialize f ≡ some p)
      × (x.bincode.deserialize p ≡ some g)
      × Memᴰ g (replay x.bincode x.crc32 wal)

  pub append-replay :
      (wal wal' : WriteAheadLog) (f : Frame)
      → Logged wal
      → append x.bincode x.crc32 wal f ≡ ok wal'
      → Logged wal'
        × ((p : Bytes) × (g : Frame) × (x.bincode.serialize f ≡ some p)
            × (x.bincode.deserialize p ≡ some g)
            × (replay x.bincode x.crc32 wal' ≡ replay x.bincode x.crc32 wal ++ g ∷ []))
  append-replay wal wal' f (l, i) h =
      let (p, e, short) = append_serialized wal wal' f h in
      let (g, reads) = law.frame_decodes f p e in
      let new : Holds x.bincode x.crc32 law.word p g = record { short = short; decodes = reads } in
      let same : appended x.bincode x.crc32 law.word wal l p ≡ wal' =
        cc (h, append-appended x.bincode x.crc32 law.word wal l f p i e short) in
      (
        (
          l ++ (p, g) ∷ [],
          subst (λ w. IsLog x.bincode x.crc32 law.word w (l ++ (p, g) ∷ [])) same
              (appended-IsLog x.bincode x.crc32 law.word wal l g p i new),
        ),
        (
          p,
          g,
          e,
          reads,
          ap (replay x.bincode x.crc32) (sym same)
              ∙ replay-appended x.bincode x.crc32 law.word wal l g p i new,
        ),
      )

  -- The log is in order, and its replay has, for every frame of the memtable and of the writers, what
  -- the serialised frame is read back as.
  pub record IsDurable (s : System) : Type 0 where
    pub in_order : Logged s.engine.wal
    pub stored : All (λ e. Replayed s.engine.wal e.1) s.engine.memtable.entries
    pub waiting : All (Replayed s.engine.wal) s.logged

  Replayed-append :
      (wal wal' : WriteAheadLog) (f g : Frame)
      → replay x.bincode x.crc32 wal' ≡ replay x.bincode x.crc32 wal ++ f ∷ []
      → Replayed wal g
      → Replayed wal' g
  Replayed-append wal wal' f g h (p, k, e, d, m) = (p, k, e, d, rw h (Memᴰ.append_left (f ∷ []) m))

  log-IsDurable :
      (now : DateTime) (s : System) (f : Frame) (wal : WriteAheadLog)
      → append x.bincode x.crc32 s.engine.wal f ≡ ok wal
      → IsDurable s
      → IsDurable (record {
        engine = logged_engine now f wal s.engine;
        logged = f ∷ s.logged;
        phase = s.phase;
      })
  log-IsDurable now s f wal h d =
      let (in_order, (p, g, e, reads, same)) = append-replay s.engine.wal wal f d.in_order h in
      record {
        in_order = in_order;
        stored =
            All-map (λ e. Replayed-append s.engine.wal wal g e.1 same) s.engine.memtable.entries
              d.stored;
        waiting = (
          (
            p,
            g,
            e,
            reads,
            rw same (Memᴰ.append_right (replay x.bincode x.crc32 s.engine.wal) (Memᴰ.head refl)),
          ),
          All-map (λ h. Replayed-append s.engine.wal wal g h same) s.logged d.waiting,
        );
      }

  All-middle {ℓ κ} :
      {A : Type ℓ} (P : A → Type κ) (k : List A) (a : A) (l : List A)
      → All P (k ++ a ∷ l)
      → P a × All P (k ++ l)
  All-middle P [] a l h = h
  All-middle P (b ∷ k) a l h = let (p, q) = All-middle P k a l h.1 in (p, (h.0, q))

  store-IsDurable :
      (s : System) (f : Frame) (before behind : List Frame)
      → s.logged ≡ before ++ f ∷ behind
      → IsDurable s
      → IsDurable (record {
        engine = stored_engine x f s.engine;
        logged = before ++ behind;
        phase = s.phase;
      })
  unfolding Memtable.insert
  store-IsDurable s f before behind h d =
      let (here, rest) =
        All-middle (Replayed s.engine.wal) before f behind
          (subst (All (Replayed s.engine.wal)) h d.waiting) in
      record {
        in_order = d.in_order;
        stored =
            Assoc.All-insert (λ e. Replayed s.engine.wal e.1)
              (new_key (dev_eui f) (timestamp f) s.engine.memtable.sequence) f
              s.engine.memtable.entries here d.stored;
        waiting = rest;
      }

  Step-IsDurable :
      (now : DateTime) (s t : System)
      → Step x now s t
      → t.phase ≢ Phase.finished
      → IsDurable s
      → IsDurable t
  unfolding Memtable.clear
  Step-IsDurable now s t (log f wal h) n d = log-IsDurable now s f wal h d
  Step-IsDurable now s t (store f before behind h) n d = store-IsDurable s f before behind h d
  Step-IsDurable now s t (allocate h) n d = record {
    in_order = d.in_order;
    stored = d.stored;
    waiting = d.waiting;
  }
  Step-IsDurable now s t (create id file meta h g) n d = record {
    in_order = d.in_order;
    stored = d.stored;
    waiting = d.waiting;
  }
  Step-IsDurable now s t (push id reader h g) n d = record {
    in_order = d.in_order;
    stored = d.stored;
    waiting = d.waiting;
  }
  Step-IsDurable now s t (clear h) n d = record {
    in_order = d.in_order;
    stored = tt;
    waiting = d.waiting;
  }
  Step-IsDurable now s t (truncate h) n d = absurd (n refl)

  -- A flush that is finished stays so.
  unfinished :
      (now : DateTime) (s t : System)
      → Step x now s t
      → t.phase ≢ Phase.finished
      → s.phase ≢ Phase.finished
  unfinished now s t (log f wal h) n e = n e
  unfinished now s t (store f before behind h) n e = n e
  unfinished now s t (allocate h) n e = cc (h, e)
  unfinished now s t (create id file meta h g) n e = cc (h, e)
  unfinished now s t (push id reader h g) n e = cc (h, e)
  unfinished now s t (clear h) n e = cc (h, e)
  unfinished now s t (truncate h) n e = cc (h, e)

  -- However the steps of the writers and of the flush are interleaved, until the flush truncates the
  -- log, its open segment holds whole entries only and is the last one, and its replay has, for every
  -- frame of the memtable and every frame that a writer has logged and not yet inserted, what the
  -- serialised frame is read back as, where all this held at the start. A serialised frame is assumed
  -- to be readable, and the checksum to be a 32-bit word.
  pub Steps-IsDurable :
      (now : DateTime) (s t : System)
      → IsDurable s
      → Steps x now s t
      → t.phase ≢ Phase.finished
      → IsDurable t
  Steps-IsDurable now s t d (start) n = d
  Steps-IsDurable now s t d (later {t = m} run step) n =
      Step-IsDurable now m t step n (Steps-IsDurable now s m d run (unfinished now m t step n))
