-- ===== src/Engine/Memtable/Delete.antt =====
-- `delete_device` removes exactly the frames of the device, and accounts for their bytes.
use lo_ra_db.Prelude.{
  ℕ, suc, ◌+◌, ◌-◌, ◌^◌, ◌<◌, ◌≡◌, refl, sym, ◌∙◌, ap, Bool, not, ◌&&◌, none, some, List, [], ◌∷◌,
  map, length, filter, All, arith, Bool-cases, Option-cases, inl, inr, All-filter, length-filter-le,
}
use lo_ra_db.Prelude.Order.{le, ◌≺◌}
use lo_ra_db.Prelude.Assoc
use lo_ra_db.Model.Lorawan.{DevEui}
use lo_ra_db.Model.Frames.{Frame, dev_eui, timestamp}
use lo_ra_db.Engine.Bincode.{Bincode}
use lo_ra_db.Engine.Memtable.{Memtable, insert, delete_keys, delete_device, frame_size}
use lo_ra_db.Engine.Memtable.Keys.{MemtableKey, key_ord, cmp_key, range_start, range_end, new_key}
use lo_ra_db.Engine.Memtable.Scan.{matches, IsValid, IsEntry, frames, entry_test, range_entries}

abbrev Entries : Type 0
Entries = List (MemtableKey × Frame)

-- The bytes that the memtable counts for its entries.
unfoldable pub total_size : Bincode → Entries → ℕ
total_size bincode [] = 0
total_size bincode (e ∷ l) = frame_size bincode e.0 e.1 + total_size bincode l

module _ (bincode : Bincode) (k : MemtableKey) (keys : List MemtableKey) (l : Entries)
    (c b : ℕ) where
  delete_keys-found :
      (f : Frame)
      → Assoc.get k l ≡ some f
      → delete_keys bincode (k ∷ keys) l c b
        ≡ delete_keys bincode keys (Assoc.remove k l) (c + 1) (b + frame_size bincode k f)
  unfolding delete_keys
  delete_keys-found f h = rw (h, delete_keys)

  delete_keys-missing :
      Assoc.get k l ≡ none → delete_keys bincode (k ∷ keys) l c b ≡ delete_keys bincode keys l c b
  unfolding delete_keys
  delete_keys-missing h = rw (h, delete_keys)

-- The loop passes over an entry whose key is below all keys that it removes.
delete_keys-below :
    (bincode : Bincode) (keys : List MemtableKey) (k : MemtableKey) (f : Frame) (l : Entries)
    (c b : ℕ)
    → All (λ j. k ≺ j) keys
    → delete_keys bincode keys ((k, f) ∷ l) c b
      ≡ (let (l', c', b') = delete_keys bincode keys l c b in ((k, f) ∷ l', c', b'))
unfolding delete_keys
delete_keys-below bincode [] k f l c b h = refl
delete_keys-below bincode (j ∷ keys) k f l c b h = elim (Option-cases (Assoc.get j l)) [
  | inl e ↦
      rw
        (
          delete_keys-missing bincode j keys ((k, f) ∷ l) c b (Assoc.get_past j k f l h.0 ∙ e),
          delete_keys-missing bincode j keys l c b e,
        )
        (delete_keys-below bincode keys k f l c b h.1)
  | inr (g, e) ↦
      rw
        (
          delete_keys-found bincode j keys ((k, f) ∷ l) c b g (Assoc.get_past j k f l h.0 ∙ e),
          delete_keys-found bincode j keys l c b g e,
          Assoc.remove_past j k f l h.0,
        )
        (delete_keys-below bincode keys k f (Assoc.remove j l) (c + 1) (b + frame_size bincode j g)
          h.1)
]

-- Removing the keys of the entries that satisfy a test leaves the other entries.
delete_keys-filter :
    (bincode : Bincode) (p : MemtableKey × Frame → Bool) (l : Entries) (c b : ℕ)
    → Assoc.IsSorted l
    → delete_keys bincode (map (λ e. e.0) (filter p l)) l c b
      ≡ (filter (λ e. not (p e)) l, c + length (filter p l), b + total_size bincode (filter p l))
unfolding total_size delete_keys
delete_keys-filter bincode p [] c b h = ground arith
delete_keys-filter bincode p ((k, f) ∷ l) c b h = elim (Bool-cases (p (k, f))) [
  | inl e ↦ rw e (
      delete_keys-found bincode k (map (λ x. x.0) (filter p l)) ((k, f) ∷ l) c b f
        (Assoc.get_head k f l)
      ∙ rw (Assoc.remove_head k f l)
          (delete_keys-filter bincode p l (c + 1) (b + frame_size bincode k f) h.1 ∙ ground arith))
  | inr e ↦ rw e (
      delete_keys-below bincode (map (λ x. x.0) (filter p l)) k f l c b
        (Assoc.All-keys k (filter p l) (Assoc.Above-filter k p l h.0))
      ∙ rw (delete_keys-filter bincode p l c b h.1) refl)
]

others_entries :
    (eui : DevEui) (n : ℕ) (l : Entries)
    → n < 2 ^ 64
    → All (IsEntry n) l
    → map
        (λ x. x.1)
        (filter (λ x. not (le (range_start eui none) x.0 && le x.0 (range_end eui none))) l)
      ≡ filter (λ f. not (matches eui none none f)) (map (λ x. x.1) l)
others_entries eui n [] room h = refl
others_entries eui n ((k, f) ∷ l) room h =
    let test = entry_test eui none none k f h.0 room in
    ground (arith, test, others_entries eui n l room h.1)

length-map {ℓ κ} : {A : Type ℓ} {B : Type κ} (f : A → B) (l : List A) → length (map f l) ≡ length l
length-map f [] = refl
length-map f (x ∷ l) = ap suc (length-map f l)

abbrev in_range : DevEui → MemtableKey × Frame → Bool
in_range eui e = le (range_start eui none) e.0 && le e.0 (range_end eui none)

-- `delete_device` on a valid memtable as one equation.
delete_device-eq :
    (bincode : Bincode) (m : Memtable) (eui : DevEui)
    → IsValid m
    → delete_device bincode m eui ≡ (
      record m {
        entries = filter (λ e. not (in_range eui e)) m.entries;
        size_bytes = m.size_bytes - total_size bincode (filter (in_range eui) m.entries);
      },
      length (filter (in_range eui) m.entries),
    )
unfolding delete_device
delete_device-eq bincode m eui v =
    rw (delete_keys-filter bincode (in_range eui) m.entries 0 0 v.sorted) (ground arith)

-- On a valid memtable, `delete_device` keeps exactly the frames of the other devices, in their
-- order, and returns how many frames of the device there were; the memtable stays valid.
pub delete_device-frames :
    (bincode : Bincode) (m : Memtable) (eui : DevEui)
    → IsValid m
    → (frames (delete_device bincode m eui).0
        ≡ filter (λ f. not (matches eui none none f)) (frames m))
      × ((delete_device bincode m eui).1 ≡ length (filter (matches eui none none) (frames m)))
      × IsValid (delete_device bincode m eui).0
unfolding frames
delete_device-frames bincode m eui v = rw (delete_device-eq bincode m eui v) (
  others_entries eui m.sequence m.entries v.room v.keyed,
  sym (length-map (λ (e : MemtableKey × Frame). e.1) (filter (in_range eui) m.entries))
      ∙ ap length (range_entries eui none none m.sequence m.entries v.room v.keyed),
  record {
    sorted = Assoc.filter-IsSorted (λ e. not (in_range eui e)) m.entries v.sorted;
    keyed = All-filter (IsEntry m.sequence) (λ e. not (in_range eui e)) m.entries v.keyed;
    counted = omega (
      arith,
      v.counted,
      length-filter-le (λ (e : MemtableKey × Frame). not (in_range eui e)) m.entries,
    );
    room = v.room;
  },
)

-- The byte counter is the sum over the entries.
abbrev pub IsAccounted : Bincode → Memtable → Type 0
IsAccounted bincode m = m.size_bytes ≡ total_size bincode m.entries

total_size-filter :
    (bincode : Bincode) (p : MemtableKey × Frame → Bool) (l : Entries)
    → total_size bincode l
      ≡ total_size bincode (filter p l) + total_size bincode (filter (λ e. not (p e)) l)
unfolding total_size
total_size-filter bincode p [] = omega arith
total_size-filter bincode p (e ∷ l) = ground (arith, total_size-filter bincode p l)

total_size-insert :
    (bincode : Bincode) (k : MemtableKey) (f : Frame) (l : Entries)
    → All (IsEntry k.sequence) l
    → total_size bincode (Assoc.insert k f l) ≡ frame_size bincode k f + total_size bincode l
unfolding total_size Assoc.insert cmp_key
total_size-insert bincode k f [] h = refl
total_size-insert bincode k f ((j, g) ∷ l) h =
    ground (arith, total_size-insert bincode k f l h.1, h.0.numbered)

-- The byte counter stays the sum of the sizes of the entries through `delete_device`, and through
-- an `insert` after which the sum still fits 64 bits.
pub size_bytes-IsAccounted :
    (bincode : Bincode) (m : Memtable) (f : Frame) (eui : DevEui)
    → IsValid m
    → IsAccounted bincode m
    → total_size bincode (insert bincode m f).entries < 2 ^ 64
    → IsAccounted bincode (insert bincode m f) × IsAccounted bincode (delete_device bincode m eui).0
unfolding insert
size_bytes-IsAccounted bincode m f eui v a room =
    let key = new_key (dev_eui f) (timestamp f) m.sequence in
    let more = total_size-insert bincode key f m.entries (unfold new_key in v.keyed) in
    (
      omega (arith, more, a),
      rw (delete_device-eq bincode m eui v)
          (omega (arith, a, total_size-filter bincode (in_range eui) m.entries)),
    )
