-- ===== src/Relay/Sending.antt =====
-- A result that is sent to a client, and what the client keeps.
use usbfluxd.Prelude.{
  ℕ, ◌^◌, ◌<◌, ◌==◌, ◌≡◌, refl, ◌∙◌, ap, sym, Option, none, some, List, length, arith, inl, inr,
  Option-cases, Bool-cases,
}
use mathlib.Core.Path.{subst}
use usbfluxd.Proto.{bytes_of_u32}
use usbfluxd.Buffer.Contents.{IsValid}
use usbfluxd.System.{LibPlist, Env}
use usbfluxd.World.{MuxClient}
use usbfluxd.Client.Output.{send_result}
use usbfluxd.Client.Output.Queueing.{Queued, send_pkt-Sends}
use usbfluxd.Client.Notify.Answer.{result_plist, result_message, send_result-none, send_result-some}
use usbfluxd.Relay.Sound.{KeepsClient, relays}

-- A result that libplist writes is short.
pub record ShortResults (Plist : Type 0) ⦃lib : LibPlist Plist⦄ : Type 0 where
  pub short : (n : ℕ) (xml : List ℕ) → lib.to_xml (result_plist n) ≡ some xml → length xml < 2 ^ 30

module _ {Plist : Type 0} where
  Queued-KeepsClient :
      (bytes : List ℕ) (c c' : MuxClient Plist) → Queued bytes c c' → KeepsClient c c'
  Queued-KeepsClient bytes c c' q = record {
    same_remote = ap (λ (m : MuxClient Plist). m.remote) q.same;
    no_more = λ up. ap relays (sym q.same) ∙ up;
    valid = λ down. q.valid;
  }

module _ {Plist : Type 0} ⦃lib : LibPlist Plist⦄ ⦃env : Env⦄ where
  pub message-short :
      ShortResults Plist
      → (c : MuxClient Plist) (n : ℕ) (m : ℕ × List ℕ) → result_message c n ≡ some m
      → length m.1 < 2 ^ 30
  unfolding bytes_of_u32
  message-short sh c n m e = elim (Bool-cases (c.proto_version == 1)) [
    | inl xml ↦ elim (Option-cases (lib.to_xml (result_plist n))) [
      | inl lost ↦ absurd (ground (arith, xml, lost, e))
      | inr (bytes, made) ↦
          let same : bytes ≡ m.1 = ground (arith, xml, made, e) in
          subst (λ (b : List ℕ). length b < 2 ^ 30) same (sh.short n bytes made)
    ]
    | inr bin ↦ ground (arith, bin, e)
  ]

  -- `send_result` does not fault, and the client keeps its remote and its buffer.
  pub send_result-KeepsClient :
      ShortResults Plist
      → (tag n : ℕ) (c : MuxClient Plist) → IsValid c.ob
      → c.ob.capacity < 2 ^ 31
      → (res : Option ℕ) × (c' : MuxClient Plist) × (send_result tag n c ≡ some (res, c'))
        × KeepsClient c c'
        × (c'.state ≡ c.state)
  send_result-KeepsClient sh tag n c v room = elim (Option-cases (result_message c n)) [
    | inl lost ↦ (
      none,
      c,
      send_result-none tag n c lost,
      record { same_remote = refl; no_more = λ up. up; valid = λ down. v },
      refl,
    )
    | inr (m, made) ↦
        elim (send_pkt-Sends tag m.0 m.1 c v (omega (arith, room, message-short sh c n m made))
          (omega (arith, message-short sh c n m made))) [
            | inl (e, full) ↦ (
              none,
              c,
              send_result-some tag n c m made ∙ e,
              record { same_remote = refl; no_more = λ up. up; valid = λ down. v },
              refl,
            )
            | inr (c', e, q) ↦ (
              some _,
              c',
              send_result-some tag n c m made ∙ e,
              Queued-KeepsClient _ c c' q,
              ap (λ (d : MuxClient Plist). d.state) q.same,
            )
          ]
  ]
