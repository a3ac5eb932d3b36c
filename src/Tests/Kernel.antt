-- ===== src/Tests/Kernel.antt =====
-- src/win.rs and src/ntapi/helpers.rs at single answers of the kernel.
use xshm.Prelude.{ℕ, ◌≡◌, refl, arith, true, List, [], ◌∷◌}
use xshm.Word.{pos, negsuc}
use xshm.Win.{duration_to_nt_timeout, is_process_alive}
use xshm.Win.Waits.{IsTimeout, duration_to_nt_timeout-IsTimeout, unopened_owner_keeps_slot}
use xshm.Multi.Sweep.{sweep_slot}
use xshm.Tests.Slots.{held_slot}

duration_to_nt_timeout-IsTimeout_example : IsTimeout 1234567 (duration_to_nt_timeout 1234567)
duration_to_nt_timeout-IsTimeout_example = duration_to_nt_timeout-IsTimeout 1234567

unopened_owner_keeps_slot_example :
    let (slot', effects) =
      sweep_slot (is_process_alive (λ _. negsuc 1073741812) (λ _. pos 0)) 9000 held_slot in
    (slot'.server ≡ held_slot.server) × (slot'.connected ≡ true) × (effects ≡ [])
unopened_owner_keeps_slot_example =
    unopened_owner_keeps_slot (λ _. negsuc 1073741812) (λ _. pos 0) 9000 held_slot refl
      (λ e. omega (arith, e)) (λ e. cc e)

-- "ab_S2C"
abbrev some_base : List ℕ
some_base = 97 ∷ 98 ∷ 95 ∷ 83 ∷ 50 ∷ 67 ∷ []
