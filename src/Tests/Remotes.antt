-- ===== src/Tests/Remotes.antt =====
-- The theorems on remotes, applied.
use usbfluxd.Prelude.{◌≡◌, refl, none, [], ◌∷◌, inl, arith}
use usbfluxd.System.{Env, send, pollout_only}
use usbfluxd.Remote.Dispose.MarkDead.{Marked, listed, mark_all_dead-killed}
use usbfluxd.Remote.Process.{process_remote}
use usbfluxd.Remote.Process.Dangling.{process_remote-dangling}
use usbfluxd.Tests.Node.{node_lib}
use usbfluxd.Tests.Clients.{calm, joined, remote, world}

-- The same, but `send` fails.
abbrev broken : Env
broken = record calm { writable = none }

process_remote-dangling_example : process_remote ⦃env = broken⦄ 1 pollout_only (world joined) ≡ none
unfolding send
process_remote-dangling_example =
    process_remote-dangling ⦃env = broken⦄ 1 0 (world joined) remote joined pollout_only refl refl
      refl refl refl refl refl refl refl refl (inl refl)

mark_all_dead-killed_example : Marked 0 (1 ∷ []) (world joined)
unfolding listed
mark_all_dead-killed_example =
    mark_all_dead-killed 0 (1 ∷ []) (world joined) (λ q h gone. ground (arith, h, gone))
