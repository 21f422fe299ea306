-- ===== src/Lcd/Driver.antt =====
-- The functions of src/lcd.c. A function returns the GPIO calls that it makes, in order; those that
-- use the static variable `vcom` also return its new value.
use nrf.Base.{
  ℕ, zero, suc, ◌+◌, ◌*◌, ◌==◌, Bool, true, false, Option, none, some, List, [], ◌∷◌, ◌++◌, u8,
  if◌then◌else◌,
}
use nrf.Base.Bits.{has_bits}

-- Pin numbers of src/lcd.h.
abbrev pub lcd_extmode : ℕ
lcd_extmode = 21

abbrev pub lcd_disp : ℕ
lcd_disp = 22

abbrev pub lcd_extcomin : ℕ
lcd_extcomin = 23

abbrev pub lcd_cs : ℕ
lcd_cs = 24

abbrev pub lcd_mosi : ℕ
lcd_mosi = 25

abbrev pub lcd_sck : ℕ
lcd_sck = 10

-- The commands and the blink modes of src/lcd.c that its functions use.
abbrev jdi_cmd_all_clear : ℕ
jdi_cmd_all_clear = 0x20

abbrev jdi_cmd_inversion : ℕ
jdi_cmd_inversion = 0x14

abbrev lcd_blinkmode_none : ℕ
lcd_blinkmode_none = 0x00

abbrev lcd_blinkmode_white : ℕ
lcd_blinkmode_white = 0x01

abbrev lcd_blinkmode_black : ℕ
lcd_blinkmode_black = 0x02

abbrev lcd_blinkmode_inverse : ℕ
lcd_blinkmode_inverse = 0x03

abbrev lcd_color_cmd_update : ℕ
lcd_color_cmd_update = 0x90

abbrev lcd_color_cmd_no_update : ℕ
lcd_color_cmd_no_update = 0x00

abbrev lcd_color_cmd_blinking_white : ℕ
lcd_color_cmd_blinking_white = 0x18

abbrev lcd_color_cmd_blinking_black : ℕ
lcd_color_cmd_blinking_black = 0x10

abbrev lcd_color_cmd_inversion : ℕ
lcd_color_cmd_inversion = 0x14

-- A call of the GPIO driver on port 0, or the busy wait of `mdx_usleep2`.
pub data Op : Type 0 where
  set : (pin value : ℕ) → Op
  configure_output : (pin : ℕ) → Op
  wait : (count : ℕ) → Op

abbrev pub pin_set : ℕ → Op
pin_set pin = set pin 1

abbrev pub pin_clr : ℕ → Op
pin_clr pin = set pin 0

unfoldable pub toggle_vcom : ℕ → List Op × ℕ
toggle_vcom vcom =
    if vcom == 0 then (pin_set lcd_extcomin ∷ [], 1) else (pin_clr lcd_extcomin ∷ [], 0)

abbrev pub lcd_reset : List Op
lcd_reset = pin_clr lcd_cs ∷ pin_clr lcd_disp ∷ wait 10000 ∷ pin_set lcd_disp ∷ wait 120000 ∷ []

-- The loop of `Write_Data` with `rounds` bits to go, and the last `pin_clr`.
unfoldable pub write_bits : (rounds dh : ℕ) → List Op
write_bits zero dh = pin_clr lcd_sck ∷ []
write_bits (suc rounds) dh =
    pin_clr lcd_sck
    ∷ (if has_bits dh 0x80 then pin_set lcd_mosi else pin_clr lcd_mosi)
    ∷ pin_set lcd_sck
    ∷ write_bits rounds (u8 (dh * 2))

unfoldable pub write_data : ℕ → List Op
write_data dh = write_bits 8 dh

-- `for (i = 0; i < count; i++) Write_Data(dh);`
unfoldable pub write_times : (count dh : ℕ) → List Op
write_times zero dh = []
write_times (suc count) dh = write_data dh ++ write_times count dh

unfoldable pub clear_screen : List Op
clear_screen =
    pin_set lcd_cs ∷ (write_data jdi_cmd_all_clear ++ (write_data 0x00 ++ pin_clr lcd_cs ∷ []))

unfoldable pub invert_display : List Op
invert_display =
    pin_set lcd_cs ∷ (write_data jdi_cmd_inversion ++ (write_data 0x00 ++ pin_clr lcd_cs ∷ []))

-- The `switch` on the mode, with its default.
unfoldable pub blink_cmd : ℕ → ℕ
blink_cmd mode =
    if mode == lcd_blinkmode_none
    then lcd_color_cmd_no_update
    else if mode == lcd_blinkmode_white
    then lcd_color_cmd_blinking_white
    else if mode == lcd_blinkmode_black
    then lcd_color_cmd_blinking_black
    else if mode == lcd_blinkmode_inverse
    then lcd_color_cmd_inversion
    else lcd_color_cmd_no_update

unfoldable pub set_blink_mode : ℕ → List Op
set_blink_mode mode =
    pin_set lcd_cs ∷ (write_data (blink_cmd mode) ++ (write_data 0x00 ++ pin_clr lcd_cs ∷ []))

unfoldable pub set_line : ℕ → List Op
set_line line =
    pin_set lcd_cs
    ∷ (write_data lcd_color_cmd_update
        ++ (write_data (u8 (line + 1))
            ++ (write_times 44 0xcc
                ++ (write_times 44 0x33
                    ++ (write_data 0x0 ++ (write_data 0x0 ++ pin_clr lcd_cs ∷ []))))))

-- The loop over the lines, with `rounds` to go from line `i` on.
unfoldable pub draw_lines : (rounds i vcom : ℕ) → List Op × ℕ
draw_lines zero i vcom = ([], vcom)
draw_lines (suc rounds) i vcom =
    let (flip, vcom') = toggle_vcom vcom in
    let (rest, vcom'') = draw_lines rounds (i + 1) vcom' in (set_line i ++ (flip ++ rest), vcom'')

abbrev pub configure_pins : List Op
configure_pins =
    configure_output lcd_extmode
    ∷ configure_output lcd_extcomin
    ∷ pin_set lcd_extmode
    ∷ pin_set lcd_extcomin
    ∷ configure_output lcd_cs
    ∷ configure_output lcd_sck
    ∷ configure_output lcd_mosi
    ∷ configure_output lcd_disp
    ∷ []

-- `found` says whether the device tree has the GPIO device; `none` is the panic. The branch under
-- `1 == 0` is never taken, and the `while (1)` leaves at the end of its first round.
unfoldable pub lcd_init : (found : Bool) (vcom : ℕ) → Option (List Op × ℕ)
lcd_init false vcom = none
lcd_init true vcom =
    let (flip, vcom1) = toggle_vcom vcom in
    let (lines, vcom2) = draw_lines 176 0 vcom1 in
    let (flip', vcom3) = toggle_vcom vcom2 in
    some (
      configure_pins
          ++ (lcd_reset
              ++ (clear_screen
                  ++ (flip
                      ++ (lines
                          ++ (set_blink_mode lcd_blinkmode_none
                              ++ (flip' ++ wait 2000000 ∷ [])))))),
      vcom3,
    )
