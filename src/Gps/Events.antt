-- ===== src/Gps/Events.antt =====
-- The events of the receiver, src/gps.c: `gnss_event_handler` and `print_stats`.
use nrf.Base.{ℕ, ◌≡◌, refl, List, [], ◌∷◌, ◌++◌, not, ◌&&◌, arith, ltb, leb, ◌==◌, if◌then◌else◌}
use nrf.Base.Bits.{has_bits}
use nrf.Base.Int.{ℤ, is_zero}

-- The fields of `struct nrf_modem_gnss_sv` and of the frame that the handler reads.
pub record Sv : Type 0 where
  pub sv : ℕ
  pub flags : ℕ

pub record Pvt (A : Type 0) : Type 0 where
  pub satellites : List Sv
  pub flags : ℕ
  pub latitude : A
  pub longitude : A

-- The lines printed.
pub data Line (A : Type 0) : Type 0 where
  satellite in_fix unhealthy : (sv : ℕ) → Line A
  not_read blocked deadline_missed : Line A
  pvt_data : (latitude longitude : A) → Line A
  nmea_data : Line A
  agnss : Line A
  unknown : (event : ℕ) → Line A

-- The modem library's constants: events, flags of a satellite and flags of a frame.
pub record Constants : Type 0 where
  pub evt_pvt : ℕ
  pub evt_nmea : ℕ
  pub evt_agnss_req : ℕ
  pub used_in_fix : ℕ
  pub unhealthy_flag : ℕ
  pub not_enough_window_time : ℕ
  pub deadline_missed_flag : ℕ
  pub fix_valid : ℕ

-- The numbers, between 1 and 32, of the satellites used in the fix.
unfoldable pub used : Constants → List Sv → List ℕ
used k [] = []
used k (s ∷ rest) =
    let others = used k rest in
    if (ltb 0 s.sv && leb s.sv 32) && has_bits s.flags k.used_in_fix then s.sv ∷ others else others

module _ {A : Type 0} where
  -- The positions and the numbers of satellites among the lines.
  unfoldable pub positions : List (Line A) → List (A × A)
  positions [] = []
  positions (pvt_data latitude longitude ∷ lines) = (latitude, longitude) ∷ positions lines
  positions (_ ∷ lines) = positions lines

  unfoldable pub fixes : List (Line A) → List ℕ
  fixes [] = []
  fixes (in_fix sv ∷ lines) = sv ∷ fixes lines
  fixes (_ ∷ lines) = fixes lines

module _ {A : Type 0} (k : Constants) where
  unfoldable pub print_stats : List Sv → List (Line A)
  print_stats [] = []
  print_stats (s ∷ rest) =
      let others = print_stats rest in
      if ltb 0 s.sv && leb s.sv 32
      then satellite s.sv
        ∷ ((if has_bits s.flags k.used_in_fix then in_fix s.sv ∷ [] else [])
            ++ ((if has_bits s.flags k.unhealthy_flag then unhealthy s.sv ∷ [] else []) ++ others))
      else others

  -- What is printed of a frame after its satellites.
  abbrev pub verdict : Pvt A → List (Line A)
  verdict pvt =
      if has_bits pvt.flags k.not_enough_window_time
      then blocked ∷ []
      else if has_bits pvt.flags k.deadline_missed_flag
      then deadline_missed ∷ []
      else if has_bits pvt.flags k.fix_valid
      then pvt_data pvt.latitude pvt.longitude ∷ []
      else []

  -- `read` is the result of `nrf_modem_gnss_read`, and `pvt` the frame after it.
  unfoldable pub gnss_event_handler : (event : ℕ) (read : ℤ) (pvt : Pvt A) → List (Line A)
  gnss_event_handler event read pvt =
      if event == k.evt_pvt
      then (if not (is_zero read) then not_read ∷ [] else print_stats pvt.satellites ++ verdict pvt)
      else if event == k.evt_nmea
      then (if is_zero read then nmea_data ∷ [] else [])
      else if event == k.evt_agnss_req
      then agnss ∷ []
      else unknown event ∷ []

  positions-print_stats :
      (svs : List Sv) (lines : List (Line A))
      → positions (print_stats svs ++ lines) ≡ positions lines
  unfolding print_stats positions
  positions-print_stats [] lines = refl
  positions-print_stats (s ∷ rest) lines =
      let ih = positions-print_stats rest lines in ground (arith, ih)

  fixes-print_stats :
      (svs : List Sv) (lines : List (Line A))
      → fixes lines ≡ []
      → fixes (print_stats svs ++ lines) ≡ used k svs
  unfolding print_stats fixes used
  fixes-print_stats [] lines none_after = none_after
  fixes-print_stats (s ∷ rest) lines none_after =
      let ih = fixes-print_stats rest lines none_after in ground (arith, ih)

  fixes-verdict : (pvt : Pvt A) → fixes (verdict pvt) ≡ []
  unfolding fixes
  fixes-verdict pvt = ground arith

  -- One position is printed, that of the frame, if the event is of a frame that could be read, that
  -- has a valid fix, and that is neither blocked nor late; and otherwise none.
  pub positions-gnss_event_handler :
      (event : ℕ) (read : ℤ) (pvt : Pvt A)
      → positions (gnss_event_handler event read pvt) ≡ (
          if ((event == k.evt_pvt) && is_zero read)
            && (not (has_bits pvt.flags k.not_enough_window_time)
                && (not (has_bits pvt.flags k.deadline_missed_flag)
                    && has_bits pvt.flags k.fix_valid))
          then (pvt.latitude, pvt.longitude) ∷ []
          else [])
  unfolding gnss_event_handler positions
  positions-gnss_event_handler event read pvt =
      let stats = positions-print_stats pvt.satellites (verdict pvt) in ground (arith, stats)

  -- Of a frame that could be read, and only then, each satellite with a number from 1 to 32 that was
  -- used in the fix is reported as such, in the frame's order, also if the fix is not valid.
  pub fixes-gnss_event_handler :
      (event : ℕ) (read : ℤ) (pvt : Pvt A)
      → fixes (gnss_event_handler event read pvt)
        ≡ (if (event == k.evt_pvt) && is_zero read then used k pvt.satellites else [])
  unfolding gnss_event_handler fixes
  fixes-gnss_event_handler event read pvt =
      let stats = fixes-print_stats pvt.satellites (verdict pvt) (fixes-verdict pvt) in
      ground (arith, stats)
