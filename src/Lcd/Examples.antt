-- ===== src/Lcd/Examples.antt =====
-- Runs of src/lcd.c, and the theorems about it at inputs.
use nrf.Base.{ℕ, ◌≡◌, refl, true, false, none, some, List, [], ◌∷◌, ◌++◌, arith}
use nrf.Lcd.Driver.{
  Op, pin_set, pin_clr, write_bits, write_data, set_line, blink_cmd, set_blink_mode, lcd_init,
}
use nrf.Lcd.Panel.{byte, panel, at_rest, events, events-write_data}
use nrf.Lcd.Frames.{command, line_bytes, events-set_line, events-set_blink_mode}
use nrf.Lcd.Start.{Started, lcd_init-Started}

no_device : lcd_init false 0 ≡ none
unfolding lcd_init
no_device = refl

write_one : write_bits 1 0xff ≡ pin_clr 10 ∷ pin_set 25 ∷ pin_set 10 ∷ pin_clr 10 ∷ []
unfolding write_bits
write_one = refl

one_byte :
    events (panel 1 0 0 0 0) (write_data 0xa5 ++ []) ≡ byte 0xa5 ∷ events (panel 1 0 1 0 0) []
one_byte = events-write_data 0xa5 0 0 [] (omega arith)

seventh_line : events at_rest (set_line 7 ++ []) ≡ command (line_bytes 7) (events at_rest [])
seventh_line = events-set_line 7 []

black_blink : events at_rest (set_blink_mode 2 ++ []) ≡ command (0x10 ∷ 0 ∷ []) (events at_rest [])
unfolding set_blink_mode blink_cmd
black_blink = events-set_blink_mode 2 []

lcd_init-Started_example :
    (ops : List Op) × (vcom : ℕ) × (lcd_init true 0 ≡ some (ops, vcom)) × Started 0 ops vcom
lcd_init-Started_example = lcd_init-Started 0 (omega arith)
