-- ===== src/Gps/Examples.antt =====
-- Runs of src/gps.c, and the theorems about it at inputs.
use nrf.Base.{List, ◌-◌, ◌<◌, ℕ, ◌+◌, ◌*◌, ◌^◌, ◌≡◌, refl, true, some, [], ◌∷◌}
use nrf.Base.Run.{Returns}
use nrf.Base.Int.{pos}
use nrf.Gps.Start.{Gnss, gps_init, settings, reset, gps_init-started}
use nrf.Gps.Events.{
  Pvt, Constants, print_stats, gnss_event_handler, positions, fixes, used,
  positions-gnss_event_handler, fixes-gnss_event_handler,
}
use nrf.Gps.Fpu.Mix.{Mix, free, left, right, both_done, Shuffle, fpu_test-Mix}
use nrf.Gps.Fpu.Bounds.{guarded-test_thr}
use nrf.Gps.Fpu.{
  closed, FpuAct, thread_create, vfp_control, pcb_flags_fpu, sched_add, critical_enter,
  critical_exit, d_is, result0, result1, eighth, one_half, thr_rounds, thr_round, fpu_rounds,
  fpu_round, test_thr, tenth, one_float, excess, nearest, add_float, sum_loop, fpu_test, guarded,
  guarded-fpu_test,
}

program : Unit {0}
unfolding gps_init settings print_stats gnss_event_handler positions fixes used
program = tt

abbrev accepting : Gnss
accepting = record {
  power_mode_result = pos 0;
  fix_retry_result = pos 0;
  fix_interval_result = pos 0;
  nmea_mask_result = pos 0;
}

start_or_not :
    ((gps_init 0 1 accepting).0 ≡ pos 0)
    × ((settings (gps_init 0 1 accepting).1 reset).started ≡ true)
    × ((settings (gps_init 0 1 accepting).1 reset).handled ≡ true)
start_or_not = gps_init-started 0 1 accepting

abbrev constants : Constants
constants = record {
  evt_pvt = 1;
  evt_nmea = 2;
  evt_agnss_req = 3;
  used_in_fix = 2;
  unhealthy_flag = 8;
  not_enough_window_time = 16;
  deadline_missed_flag = 8;
  fix_valid = 1;
}

-- A valid fix with satellites 7 and 40, of which the second has no number of the system.
abbrev frame : Pvt ℕ
frame = record {
  satellites = record { sv = 7; flags = 3 } ∷ record { sv = 40; flags = 3 } ∷ [];
  flags = 1;
  latitude = 51;
  longitude = 4;
}

positions-gnss_event_handler_example :
    positions (gnss_event_handler constants 1 (pos 0) frame) ≡ (51, 4) ∷ []
positions-gnss_event_handler_example = positions-gnss_event_handler constants 1 (pos 0) frame

one_of_two : fixes (gnss_event_handler constants 1 (pos 0) frame) ≡ 7 ∷ []
unfolding used
one_of_two = fixes-gnss_event_handler constants 1 (pos 0) frame

-- Ties go to the even one of the two neighbours.
to_even : (add_float (2 ^ 24) 1 ≡ 2 ^ 24) × (add_float (2 ^ 24 + 2) 1 ≡ 2 ^ 24 + 4)
unfolding add_float excess nearest
to_even = (refl, refl)

-- Ten times 0.1f is the `float` after 1.0.
ten_tenths : sum_loop 10 tenth 0 ≡ one_float + 16
unfolding sum_loop add_float excess nearest
ten_tenths = refl

two_halves :
    Returns
      (λ acts. guarded closed acts ≡ some (500000 * one_float ∷ 500000 * one_float ∷ []))
      (fpu_test (λ x. x) true 2)
two_halves = guarded-fpu_test (λ x. x) 2

two_tenths :
    (b : ℕ) × (guarded closed (test_thr (λ x. x) 2) ≡ some (b ∷ b ∷ []))
    × (b < (100000 + 3907) * one_float)
    × ((100000 - 3907) * one_float < b)
two_tenths = guarded-test_thr (λ x. x) 2

-- The thread starts, and prints its result after that of `fpu_test`.
abbrev mixed : List (FpuAct ℕ)
mixed =
    thread_create
    ∷ vfp_control
    ∷ pcb_flags_fpu
    ∷ sched_add
    ∷ d_is eighth
    ∷ critical_enter
    ∷ result1 (sum_loop 1000000 one_half 0)
    ∷ critical_exit
    ∷ critical_enter
    ∷ result0 (sum_loop 1000000 tenth 0)
    ∷ critical_exit
    ∷ []

abbrev started : List (FpuAct ℕ)
started = thread_create ∷ vfp_control ∷ pcb_flags_fpu ∷ sched_add ∷ fpu_rounds (λ x. x) 1

mixed-Mix : Mix free started (test_thr (λ x. x) 1) mixed
unfolding test_thr thr_rounds thr_round fpu_rounds fpu_round
mixed-Mix = left _ refl (
    left _ refl (
      left _ refl (
        left _ refl (
          right _ refl (
            left _ refl (
              left _ refl (left _ refl (right _ refl (right _ refl (right _ refl both_done))))))))))

fpu_test-Mix_example :
    (b : ℕ) × (ts : List ℕ) × (guarded closed mixed ≡ some ts)
    × Shuffle ((500000 * one_float) ∷ []) (b ∷ []) ts
    × (b < (100000 + 3907) * one_float)
    × ((100000 - 3907) * one_float < b)
unfolding fpu_test
fpu_test-Mix_example = fpu_test-Mix (λ x. x) 1 1 started mixed refl mixed-Mix
