-- ===== src/Metadata/Devices/Upserts.antt =====
-- store.go: the devices after an update of the inventory.
use go_xidized.Prelude.{
  ◌≡◌, refl, ap, ap₂, ◌∙◌, Bool, Text, text_eq, text_eq_iff, List, [], ◌∷◌, map, some, Bool-cases,
  ◌⊎◌, inl, inr, arith, if◌then◌else◌,
}
use go_xidized.Types.{Target}
use go_xidized.Types.Errors.{GoError, Result, ok, err}
use go_xidized.Metadata.{plainly, Database, statement, select, find_row}
use go_xidized.Metadata.Statements.{each_after, transaction-IsWhole}
use go_xidized.Metadata.Devices.{
  DeviceRow, Codec, device_row, put_row, upsert, upsert_devices, scan_target, scanned, get_device,
}

abbrev has_id : Text → DeviceRow → Bool
has_id id r = text_eq r.id id

-- The last device of the list with the id, or else what was there.
abbrev pub newest : {A : Type 0} → (Target → A) → Text → List Target → A → A
newest f id [] old = old
newest f id (d ∷ ds) old = newest f id ds (if text_eq d.id id then f d else old)

newest_map :
    {A B : Type 0} (f : Target → A) (g : A → B) (h : Target → B) (id : Text) (ds : List Target)
    (old : A)
    → ((d : Target) → g (f d) ≡ h d)
    → g (newest f id ds old) ≡ newest h id ds (g old)
newest_map f g h id [] old e = refl
newest_map f g h id (d ∷ ds) old e = elim (Bool-cases (text_eq d.id id)) [
  | inl here ↦ rw here (newest_map f g h id ds (f d) e ∙ ap (newest h id ds) (e d))
  | inr apart ↦ rw apart (newest_map f g h id ds old e)
]

module _ (j : Codec) where
  -- A row that is put is found under its id, and no other row is touched.
  find_row-put_row :
      (row : DeviceRow) (id : Text) (rows : List DeviceRow)
      → find_row (has_id id) (put_row j row rows)
        ≡ (if text_eq row.id id then some row else find_row (has_id id) rows)
  unfolding put_row
  find_row-put_row row id [] = refl
  find_row-put_row row id (r ∷ rows) = ground (
    arith,
    text_eq_iff r.id row.id,
    text_eq_iff row.id id,
    text_eq_iff r.id id,
    find_row-put_row row id rows,
  )

  find_row-upserts :
      (ds : List Target) (id : Text) (rows : List DeviceRow)
      → find_row (has_id id) (each_after (map (λ d. plainly (upsert j d)) ds) rows)
        ≡ newest (λ d. some (device_row j d)) id ds (find_row (has_id id) rows)
  find_row-upserts [] id rows = refl
  find_row-upserts (d ∷ ds) id rows =
      find_row-upserts ds id (put_row j (device_row j d) rows)
      ∙ ap (newest (λ x. some (device_row j x)) id ds) (find_row-put_row (device_row j d) id rows)

  -- What the decoder makes of what the encoder wrote.
  abbrev pub RoundTrips : Type 0
  RoundTrips =
      ((tags : List Text) → j.decode_tags (j.encode_tags tags) ≡ tags)
      × ((m : List (Text × Text)) → j.decode_metadata (j.encode_metadata m) ≡ m)

  scanned-device_row :
      (d : Target) → RoundTrips → ◌≡◌ {A = Result Target} (scanned j (some (device_row j d))) (ok d)
  unfolding scan_target
  scanned-device_row d (tags, meta) =
      ap₂ (λ (t : List Text) (m : List (Text × Text)). ok (record d { tags = t; metadata = m }))
        (tags d.tags) (meta d.metadata)

  get_device-working :
      (id : Text) (db : Database (List DeviceRow))
      → db.outcomes ≡ []
      → (get_device j id db).0 ≡ scanned j (find_row (has_id id) db.tables)
  unfolding get_device select statement
  get_device-working id db h = rw h refl

  -- A device that is read after an update of the inventory, where the read works: the update is one
  -- transaction. If it succeeded, it is the last device of the inventory with that id, or what was
  -- there before where the inventory has none; if it failed, it is either this or, for every id, what
  -- was there before. (The codec of the JSON columns gives back what it wrote.)
  pub upsert_devices-get_device :
      (ds : List Target) (db : Database (List DeviceRow))
      → RoundTrips
      → (upsert_devices j ds db).1.outcomes ≡ []
      → (((e : GoError) × ((upsert_devices j ds db).0 ≡ err e))
          × ((id : Text)
              → (get_device j id (upsert_devices j ds db).1).0
                ≡ scanned j (find_row (λ r. text_eq r.id id) db.tables)))
        ⊎ ((id : Text)
            → (get_device j id (upsert_devices j ds db).1).0
              ≡ newest ok id ds (scanned j (find_row (λ r. text_eq r.id id) db.tables)))
  unfolding upsert_devices
  upsert_devices-get_device ds db trips working =
      elim (transaction-IsWhole (map (λ d. plainly (upsert j d)) ds) db) [
        | inl (same, failure) ↦ inl (
          failure,
          λ id. get_device-working id _ working ∙ ap (λ t. scanned j (find_row (has_id id) t)) same,
        )
        | inr after ↦ inr λ id.
            get_device-working id _ working
            ∙ ap (λ t. scanned j (find_row (has_id id) t)) after
            ∙ ap (scanned j) (find_row-upserts ds id db.tables)
            ∙ newest_map (λ d. some (device_row j d)) (scanned j) ok id ds
                (find_row (has_id id) db.tables) (λ d. scanned-device_row d trips)
      ]
