-- ===== src/Examples/Sockets.antt =====
-- Sockets that share a key, their slots, and a revocation; and a burst of requests.
use ffllowwgreeks.Prelude.{ℕ, ◌≡◌, ◌≤◌, refl, true, [], ◌∷◌, Text, codes, arith}
use ffllowwgreeks.Api.Streaming.{
  create_watch, elem, check_key_revoked, watcher_round, register_revocation_subscriber, get_row,
}
use ffllowwgreeks.Api.Streaming.Slots
use ffllowwgreeks.Api.Streaming.Slots.{run-no_slots-IsExact}
use ffllowwgreeks.Api.Streaming.Watcher
use ffllowwgreeks.Api.Streaming.Watcher.{watcher_round-run}
use ffllowwgreeks.Api.Limits.Window.{Call, within, empty_log, within-run}
use ffllowwgreeks.Api.Limits.Window

abbrev key : Text
key = codes "u1"

run-no_slots-IsExact_example :
    Slots.IsExact 1
      (Slots.run 1 (Slots.connect key ∷ Slots.connect key ∷ Slots.disconnect 0 ∷ []) Slots.no_slots)
run-no_slots-IsExact_example =
    run-no_slots-IsExact 1 (Slots.connect key ∷ Slots.connect key ∷ Slots.disconnect 0 ∷ [])

apart : (◌≡◌ {A = ℕ} 0 1) → ⊥
apart h = absurd (omega (arith, h))

watcher_round-run_example :
    elem 0
      (watcher_round (check_key_revoked true 9 []) (
        Watcher.run
          (Watcher.register key ∷ Watcher.deregister key 1 ∷ [])
          (register_revocation_subscriber key create_watch).1)).signalled
    ≡ true
unfolding register_revocation_subscriber create_watch get_row
watcher_round-run_example =
    watcher_round-run key create_watch (Watcher.register key ∷ Watcher.deregister key 1 ∷ []) 9 []
      (apart, tt) refl

abbrev call : ℕ → Call
call now = record { now = now; key = key; limit = 2; period = 60 }

within-run_example :
    within 10 60 (Window.run key (call 10 ∷ call 20 ∷ call 30 ∷ call 75 ∷ []) empty_log).admitted
    ≤ 2
within-run_example =
    within-run key 2 60 (call 10 ∷ call 20 ∷ call 30 ∷ call 75 ∷ [])
      (
        omega arith,
        (
          λ e. (refl, refl),
          (
            omega arith,
            (
              λ e. (refl, refl),
              (omega arith, (λ e. (refl, refl), (omega arith, (λ e. (refl, refl), tt)))),
            ),
          ),
        ),
      )
      10
