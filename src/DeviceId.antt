-- ===== src/DeviceId.antt =====
-- Device ids: the id of the remote in the top byte, the remote's own number of the device below.
pub mod Laws
use usbfluxd.Prelude.{ℕ, ◌+◌, ◌*◌, ◌/◌, ◌%◌, ◌^◌}

-- `(remote->id << 24) | (n & 0xFFFFFF)`, for a `uint8_t` id.
unfoldable pub device_id : ℕ → ℕ → ℕ
device_id id n = (id % 2 ^ 8) * 2 ^ 24 + n % 2 ^ 24

-- `device_id >> 24`, as a `uint8_t`.
unfoldable pub remote_mux_id : ℕ → ℕ
remote_mux_id device = device / 2 ^ 24 % 2 ^ 8

-- `device_id & 0xFFFFFF`.
unfoldable pub local_id : ℕ → ℕ
local_id device = device % 2 ^ 24
