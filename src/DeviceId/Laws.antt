-- ===== src/DeviceId/Laws.antt =====
-- A device id tells the remote and the device apart, also after a trip through a key of the list.
use usbfluxd.Prelude.{ℕ, ◌+◌, ◌*◌, ◌%◌, ◌^◌, ◌<◌, ◌≡◌, ap, ◌∙◌, sym, arith}
use usbfluxd.Text.{device_key, strtol_hex}
use usbfluxd.Text.Hex.{strtol_hex-device_key}
use usbfluxd.DeviceId.{device_id, remote_mux_id, local_id}

pub device_id-lt : (id n : ℕ) → device_id id n < 2 ^ 32
unfolding device_id
device_id-lt id n = omega arith

-- The id that a device is listed under gives back, from its key, the remote that it belongs to and
-- the low 24 bits of the remote's own number for it.
pub remote_mux_id-device_id :
    (id n : ℕ)
    → id < 2 ^ 8
    → (remote_mux_id (strtol_hex (device_key (device_id id n))) ≡ id)
      × (local_id (strtol_hex (device_key (device_id id n))) ≡ n % 2 ^ 24)
unfolding device_id remote_mux_id local_id
remote_mux_id-device_id id n h =
    let back : strtol_hex (device_key ((id % 2 ^ 8) * 2 ^ 24 + n % 2 ^ 24))
        ≡ (id % 2 ^ 8) * 2 ^ 24 + n % 2 ^ 24 =
      strtol_hex-device_key _ (omega arith) in
    (rw back (omega arith), rw back (omega arith))

-- Two devices have the same key only if they are devices of one remote with the same low 24 bits.
pub device_key-injective :
    (id id' n n' : ℕ)
    → id < 2 ^ 8
    → id' < 2 ^ 8
    → device_key (device_id id n) ≡ device_key (device_id id' n')
    → (id ≡ id') × (n % 2 ^ 24 ≡ n' % 2 ^ 24)
device_key-injective id id' n n' h h' e =
    let (a, b) = remote_mux_id-device_id id n h in
    let (a', b') = remote_mux_id-device_id id' n' h' in
    (
      sym a ∙ (ap (λ k. remote_mux_id (strtol_hex k)) e ∙ a'),
      sym b ∙ (ap (λ k. local_id (strtol_hex k)) e ∙ b'),
    )
