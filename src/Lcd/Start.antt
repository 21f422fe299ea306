-- ===== src/Lcd/Start.antt =====
-- `lcd_init`: what the display has read at its end, and the levels of its polarity pin.
use mathlib.Core.List.{append_assoc}
use nrf.Base.{
  ℕ, zero, suc, ◌+◌, ◌-◌, ◌*◌, ◌<◌, ◌==◌, ◌≡◌, refl, sym, ap, ◌∙◌, true, some, List, [], ◌∷◌, ◌++◌,
  u8, arith, if◌then◌else◌,
}
use nrf.Lcd.Driver.{
  Op, set, configure_output, wait, lcd_extcomin, toggle_vcom, write_bits, write_data, write_times,
  clear_screen, blink_cmd, set_blink_mode, set_line, draw_lines, lcd_init,
}
use nrf.Lcd.Panel.{Event, at_rest, events}
use nrf.Lcd.Frames.{
  command, line_bytes, events-clear_screen, events-set_blink_mode, events-set_line,
}

-- The commands of the lines from `i` on.
pub lines : (rounds i : ℕ) → List Event → List Event
lines zero i rest = rest
lines (suc rounds) i rest = command (line_bytes i) (lines rounds (i + 1) rest)

-- The polarity pin is no wire of the data interface.
events-toggle_vcom :
    (vcom : ℕ) (rest : List Op)
    → events at_rest ((toggle_vcom vcom).0 ++ rest) ≡ events at_rest rest
unfolding toggle_vcom events
events-toggle_vcom vcom rest = ground arith

events-draw_lines :
    (rounds i vcom : ℕ) (rest : List Op)
    → events at_rest ((draw_lines rounds i vcom).0 ++ rest) ≡ lines rounds i (events at_rest rest)
unfolding draw_lines lines
events-draw_lines zero i vcom rest = refl
events-draw_lines (suc rounds) i vcom rest =
    simp (append_assoc, events-set_line, events-toggle_vcom, events-draw_lines rounds)

-- The values that the calls give the pin `pin`.
pub levels : ℕ → List Op → List ℕ
levels pin [] = []
levels pin (set p value ∷ ops) = if p == pin then value ∷ levels pin ops else levels pin ops
levels pin (configure_output p ∷ ops) = levels pin ops
levels pin (wait count ∷ ops) = levels pin ops

-- `n` changes of a level, from the level `vcom` on.
pub alternating : (n vcom : ℕ) → List ℕ
alternating zero vcom = []
alternating (suc n) vcom = (1 - vcom) ∷ alternating n (1 - vcom)

toggle_vcom_lem : (v : ℕ) → toggle_vcom v ≡ (set lcd_extcomin (1 - v) ∷ [], 1 - v)
unfolding toggle_vcom
toggle_vcom_lem v = ground arith

module _ (pin : ℕ) where
  levels-append : (xs ys : List Op) → levels pin (xs ++ ys) ≡ levels pin xs ++ levels pin ys
  unfolding levels
  levels-append [] ys = refl
  levels-append (set p value ∷ ops) ys = ground (arith, levels-append ops ys)
  levels-append (configure_output p ∷ ops) ys = levels-append ops ys
  levels-append (wait count ∷ ops) ys = levels-append ops ys

levels-write_bits :
    (n b : ℕ) (rest : List Op)
    → levels lcd_extcomin (write_bits n b ++ rest) ≡ levels lcd_extcomin rest
unfolding levels write_bits
levels-write_bits zero b rest = refl
levels-write_bits (suc n) b rest = ground (arith, levels-write_bits n (u8 (b * 2)) rest)

levels-write_data :
    (b : ℕ) (rest : List Op) → levels lcd_extcomin (write_data b ++ rest) ≡ levels lcd_extcomin rest
unfolding write_data
levels-write_data b rest = levels-write_bits 8 b rest

levels-write_times :
    (n b : ℕ) (rest : List Op)
    → levels lcd_extcomin (write_times n b ++ rest) ≡ levels lcd_extcomin rest
unfolding write_times
levels-write_times zero b rest = refl
levels-write_times (suc n) b rest = simp (append_assoc, levels-write_data, levels-write_times n b)

ruleset quiet = (append_assoc, levels-write_data, levels-write_times)

levels-clear_screen :
    (rest : List Op) → levels lcd_extcomin (clear_screen ++ rest) ≡ levels lcd_extcomin rest
unfolding clear_screen levels
levels-clear_screen rest = simp quiet

levels-set_blink_mode :
    (mode : ℕ) (rest : List Op)
    → levels lcd_extcomin (set_blink_mode mode ++ rest) ≡ levels lcd_extcomin rest
unfolding set_blink_mode levels
levels-set_blink_mode mode rest = simp quiet

levels-set_line :
    (line : ℕ) (rest : List Op)
    → levels lcd_extcomin (set_line line ++ rest) ≡ levels lcd_extcomin rest
unfolding set_line levels
levels-set_line line rest = simp quiet

levels-draw_lines :
    (rounds i vcom : ℕ) (rest : List Op)
    → levels lcd_extcomin ((draw_lines rounds i vcom).0 ++ rest)
      ≡ alternating rounds vcom ++ levels lcd_extcomin rest
unfolding draw_lines alternating levels
levels-draw_lines zero i vcom rest = refl
levels-draw_lines (suc rounds) i vcom rest =
    simp (toggle_vcom_lem, append_assoc, levels-set_line, levels-draw_lines rounds)

-- An even number of changes leaves a level as it was.
double : ℕ → ℕ
double zero = 0
double (suc n) = suc (suc (double n))

module _ (v : ℕ) (h : v < 2) where
  inverse_twice : 1 - (1 - v) ≡ v
  inverse_twice = omega arith

  draw_lines-double : (n i : ℕ) → (draw_lines (double n) i v).1 ≡ v
  unfolding draw_lines double
  draw_lines-double zero i = refl
  draw_lines-double (suc n) i =
      let twice : (toggle_vcom (toggle_vcom v).1).1 ≡ v =
        ap (λ p. (toggle_vcom p.1).1) (toggle_vcom_lem v)
        ∙ ap (λ p. p.1) (toggle_vcom_lem (1 - v))
        ∙ inverse_twice in
      ap (λ w. (draw_lines (double n) (i + 1 + 1) w).1) twice ∙ draw_lines-double n (i + 1 + 1)

  alternating-double :
      (n : ℕ) → alternating (suc (double n)) v ≡ alternating (double n) v ++ (1 - v) ∷ []
  unfolding alternating double
  alternating-double zero = refl
  alternating-double (suc n) =
      ap (λ l. (1 - v) ∷ (1 - (1 - v)) ∷ l)
        (ap (λ w. (1 - w) ∷ alternating (double n) (1 - w)) inverse_twice
          ∙ alternating-double n
          ∙ ap (λ w. alternating (double n) w ++ (1 - v) ∷ []) (sym inverse_twice))

-- The bytes of the 178 commands of `lcd_init`.
abbrev pub screen_commands : List Event
screen_commands = command (0x20 ∷ 0 ∷ []) (lines 176 0 (command (0x00 ∷ 0 ∷ []) []))

-- What `lcd_init` has done, from the value `vcom` of the variable, with the calls `ops`.
pub record Started (vcom : ℕ) (ops : List Op) (vcom' : ℕ) : Type 0 where
  pub read : events at_rest ops ≡ screen_commands
  pub polarity : levels lcd_extcomin ops ≡ 1 ∷ (alternating 178 vcom)
  pub kept : vcom' ≡ vcom

-- The polarity pin and `vcom` over the whole function.
module _ (vcom : ℕ) (h : vcom < 2) where
  lines_keep : (draw_lines 176 0 (1 - vcom)).1 ≡ 1 - vcom
  unfolding double
  lines_keep = draw_lines-double (1 - vcom) (omega arith) 88 0

  lines_flip : alternating 177 (1 - vcom) ≡ alternating 176 (1 - vcom) ++ vcom ∷ []
  unfolding double
  lines_flip =
      alternating-double (1 - vcom) (omega arith) 88
      ∙ ap (λ w. alternating 176 (1 - vcom) ++ w ∷ []) (inverse_twice vcom h)

  all_levels : alternating 178 vcom ≡ (1 - vcom) ∷ (alternating 176 (1 - vcom) ++ vcom ∷ [])
  unfolding alternating
  all_levels = ap (λ l. (1 - vcom) ∷ l) lines_flip

  last_toggle :
      toggle_vcom (draw_lines 176 0 (toggle_vcom vcom).1).1 ≡ (set lcd_extcomin vcom ∷ [], vcom)
  last_toggle =
      ap (λ w. toggle_vcom (draw_lines 176 0 w).1) (ap (λ p. p.1) (toggle_vcom_lem vcom))
      ∙ ap toggle_vcom lines_keep
      ∙ toggle_vcom_lem (1 - vcom)
      ∙ ap (λ w. (set lcd_extcomin w ∷ [], w)) (inverse_twice vcom h)

-- Given the GPIO device and `vcom` 0 or 1, `lcd_init` runs to its end. A display that was at rest
-- has read the clear command, the lines 1 to 176 in order with their bytes, and the command without
-- update, and nothing else. The polarity pin is set high and is then written 178 times, once for
-- each command, alternating from the inverse of `vcom`, and `vcom` has its old value.
pub lcd_init-Started :
    (vcom : ℕ)
    → vcom < 2
    → (ops : List Op) × (vcom' : ℕ) × (lcd_init true vcom ≡ some (ops, vcom'))
      × Started vcom ops vcom'
unfolding lcd_init events levels blink_cmd
lcd_init-Started vcom h = (
  _,
  _,
  refl,
  record {
    read = simp (events-clear_screen, events-toggle_vcom, events-draw_lines, events-set_blink_mode);
    polarity = rw (all_levels vcom h) (
        simp (
          lines_keep vcom h,
          inverse_twice vcom h,
          levels-clear_screen,
          toggle_vcom_lem,
          levels-draw_lines,
          levels-set_blink_mode,
        ));
    kept = ap (λ p. p.1) (last_toggle vcom h);
  },
)
