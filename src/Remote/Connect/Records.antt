-- ===== src/Remote/Connect/Records.antt =====
-- Requests for pair records: the device that a record id names, and a request without one.
use usbfluxd.Prelude.{
  ℕ, ◌≡◌, refl, ap, inl, inr, Bool, true, false, none, some, List, [], ◌∷◌, ◌++◌, Bool-cases,
  Option-cases,
}
use usbfluxd.Text.{CString, str_eq, strtol_hex}
use usbfluxd.Utils.Collection.{Ptr}
use usbfluxd.System.{LibPlist, Env}
use usbfluxd.World.{World, RemoteCommand}
use usbfluxd.World.Monad.{M, ◌>>=◌, ◌>>◌, lock_remotes, primitives}
use usbfluxd.Remote.Output.{Version}
use usbfluxd.Remote.Connect.{
  serial_of, serial_matches, match_device, pair_record_request, usbmux_remote_read_pair_record,
  usbmux_remote_save_pair_record, usbmux_remote_delete_pair_record,
}

module _ {Plist : Type 0} ⦃lib : LibPlist Plist⦄ ⦃env : Env⦄ where
  -- Whether a device has a serial number, and this one.
  unfoldable pub has_serial : CString → Plist → Bool
  has_serial wanted value = elim (serial_of value) [ none ↦ false | some s ↦ str_eq s wanted ]

  -- No device of the list has the serial number.
  pub data Differs (wanted : CString) : List (CString × Plist) → Type 0 where
    none_differs : Differs wanted []
    differs :
        (key : CString) (value : Plist) (rest : List (CString × Plist))
        → has_serial wanted value ≡ false
        → Differs wanted rest
        → Differs wanted ((key, value) ∷ rest)

  -- No device of the list has a serial number at all.
  pub data Unnamed : List (CString × Plist) → Type 0 where
    empty : Unnamed []
    unnamed :
        (key : CString) (value : Plist) (rest : List (CString × Plist))
        → serial_of value ≡ none
        → Unnamed rest
        → Unnamed ((key, value) ∷ rest)

  -- The number is that of the first device with the serial number, or 0 if there is none.
  pub data Found (wanted : CString) (items : List (CString × Plist)) : ℕ → Type 0 where
    not_there : Differs wanted items → Found wanted items 0
    first :
        (before : List (CString × Plist)) (key : CString) (value : Plist)
        (after : List (CString × Plist))
        → items ≡ before ++ ((key, value) ∷ after)
        → Differs wanted before
        → has_serial wanted value ≡ true
        → Found wanted items (strtol_hex key)

  further :
      (wanted : CString) (key : CString) (value : Plist) (items : List (CString × Plist)) (n : ℕ)
      → has_serial wanted value ≡ false
      → Found wanted items n
      → Found wanted ((key, value) ∷ items) n
  further wanted key value items n miss (not_there d) = not_there (differs key value items miss d)
  further wanted key value items n miss (first before k u after e d hit) =
      first ((key, value) ∷ before) k u after (ap (λ xs. (key, value) ∷ xs) e)
        (differs key value before miss d) hit

  matches :
      (wanted : CString) (value : Plist) (w : World Plist)
      → serial_matches (some wanted) (serial_of value) w ≡ some (has_serial wanted value, w)
  unfolding serial_matches has_serial
  matches wanted value w = elim (Option-cases (serial_of value)) [
    | inl missing ↦ rw (missing, has_serial) refl
    | inr (s, there) ↦ rw (there, has_serial) refl
  ]

  -- The search of a device by a record id that is there never faults, changes nothing, and gives the
  -- id of the first device of the list whose serial number the record id is, or 0.
  pub match_device-Found :
      (wanted : CString) (items : List (CString × Plist)) (w : World Plist)
      → (n : ℕ) × (match_device (some wanted) items w ≡ some (n, w)) × Found wanted items n
  unfolding match_device
  match_device-Found wanted [] w = (0, refl, not_there none_differs)
  match_device-Found wanted ((key, value) ∷ items) w = elim (Bool-cases (has_serial wanted value)) [
    | inl hit ↦ (
      strtol_hex key,
      rw (match_device, ◌>>=◌, matches wanted value w, hit) refl,
      first [] key value items refl none_differs hit,
    )
    | inr miss ↦
        let (n, e, found) = match_device-Found wanted items w in
        (
          n,
          rw (match_device, ◌>>=◌, matches wanted value w, miss) e,
          further wanted key value items n miss found,
        )
  ]

  Differs-match_device :
      (wanted : CString) (items : List (CString × Plist)) (w : World Plist)
      → Differs wanted items
      → match_device (some wanted) items w ≡ some (0, w)
  unfolding match_device
  Differs-match_device wanted [] w none_differs = refl
  Differs-match_device wanted ((key, value) ∷ items) w (differs _ _ _ miss rest) =
      rw (match_device, ◌>>=◌, matches wanted value w, miss)
        (Differs-match_device wanted items w rest)

  first-match_device :
      (wanted : CString) (before : List (CString × Plist)) (key : CString) (value : Plist)
      (after : List (CString × Plist)) (w : World Plist)
      → Differs wanted before
      → has_serial wanted value ≡ true
      → match_device (some wanted) (before ++ ((key, value) ∷ after)) w ≡ some (strtol_hex key, w)
  unfolding match_device
  first-match_device wanted [] key value after w none_differs hit =
      rw (match_device, ◌>>=◌, matches wanted value w, hit) refl
  first-match_device wanted ((k, u) ∷ before) key value after w (differs _ _ _ miss rest) hit =
      rw (match_device, ◌>>=◌, matches wanted u w, miss)
        (first-match_device wanted before key value after w rest hit)

  -- The number that is found is the one that the search returns.
  pub Found-match_device :
      (wanted : CString) (items : List (CString × Plist)) (n : ℕ) (w : World Plist)
      → Found wanted items n
      → match_device (some wanted) items w ≡ some (n, w)
  Found-match_device wanted items n w (not_there d) = Differs-match_device wanted items w d
  Found-match_device wanted items n w (first before key value after e d hit) =
      rw e (first-match_device wanted before key value after w d hit)

  match_device-null :
      (before : List (CString × Plist)) (key : CString) (value : Plist)
      (after : List (CString × Plist)) (s : CString) (w : World Plist)
      → Unnamed before
      → serial_of value ≡ some s
      → match_device none (before ++ ((key, value) ∷ after)) w ≡ none
  unfolding match_device serial_matches
  match_device-null [] key value after s w empty there = rw (match_device, ◌>>=◌, there) refl
  match_device-null ((k, u) ∷ before) key value after s w (unnamed _ _ _ missing rest) there =
      rw (match_device, ◌>>=◌, missing) (match_device-null before key value after s w rest there)

  request_null :
      (client : Ptr) (cmd : RemoteCommand) (tag : ℕ) (message : M (World Plist) Plist)
      (before : List (CString × Plist)) (key : CString) (value : Plist)
      (after : List (CString × Plist)) (s : CString) (w : World Plist)
      → w.remote_list_mutex ≡ false
      → lib.dict_items w.remote_device_list ≡ before ++ ((key, value) ∷ after)
      → Unnamed before
      → serial_of value ≡ some s
      → pair_record_request none client cmd tag message w ≡ none
  unfolding pair_record_request primitives
  request_null client cmd tag message before key value after s w free items rest there =
      rw
        (
          pair_record_request,
          ◌>>=◌,
          ◌>>◌,
          lock_remotes,
          free,
          items,
          match_device-null before key value after s (record w { remote_list_mutex = true }) rest
              there,
        )
        refl

  -- A request to read, save or delete a pair record that has no record id, while no thread holds the
  -- mutex of the remotes, faults as soon as a device with a serial number is listed.
  pub usbmux_remote_pair_record-null :
      ⦃v : Version⦄
      → (req : Plist) (tag : ℕ) (client : Ptr) (before : List (CString × Plist)) (key : CString)
        (value : Plist) (after : List (CString × Plist)) (s : CString) (w : World Plist)
      → w.remote_list_mutex ≡ false
      → lib.dict_items w.remote_device_list ≡ before ++ ((key, value) ∷ after)
      → Unnamed before
      → serial_of value ≡ some s
      → (usbmux_remote_read_pair_record none tag client w ≡ none)
        × (usbmux_remote_save_pair_record none req tag client w ≡ none)
        × (usbmux_remote_delete_pair_record none tag client w ≡ none)
  unfolding usbmux_remote_read_pair_record usbmux_remote_save_pair_record
      usbmux_remote_delete_pair_record
  usbmux_remote_pair_record-null req tag client before key value after s w free items rest there = (
    request_null client _ tag _ before key value after s w free items rest there,
    request_null client _ tag _ before key value after s w free items rest there,
    request_null client _ tag _ before key value after s w free items rest there,
  )
