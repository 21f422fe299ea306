-- ===== src/Lcd/Frames.antt =====
-- The commands of src/lcd.c as the display reads them.
use mathlib.Core.List.{append_assoc}
use nrf.Base.{
  ℕ, zero, suc, ◌+◌, ◌%◌, ◌<◌, ◌≡◌, refl, ap, ◌∙◌, List, [], ◌∷◌, ◌++◌, map, u8, arith, replicate,
}
use nrf.Lcd.Driver.{
  Op, pin_set, pin_clr, lcd_cs, write_data, write_times, clear_screen, invert_display, blink_cmd,
  set_blink_mode, set_line,
}
use nrf.Lcd.Panel.{Event, select, byte, deselect, panel, at_rest, events, events-write_data}

-- A command as the display reads it.
abbrev pub command : List ℕ → List Event → List Event
command bytes rest = select ∷ (map byte bytes ++ deselect ∷ rest)

abbrev AreBytes : List ℕ → Type 0
AreBytes [] = Unit
AreBytes (b ∷ bs) = (b < 256) × AreBytes bs

write_all : List ℕ → List Op
write_all [] = []
write_all (b ∷ bs) = write_data b ++ write_all bs

-- The bytes of a command that ends with 0, between the two changes of CS.
events-write_all :
    (bs : List ℕ) (s m : ℕ) (rest : List Op)
    → AreBytes bs
    → events (panel 1 s m 0 0) (write_all bs ++ (write_data 0 ++ pin_clr lcd_cs ∷ rest))
      ≡ map byte bs ++ (byte 0 ∷ deselect ∷ events at_rest rest)
unfolding write_all events
events-write_all [] s m rest h = events-write_data 0 s m (pin_clr lcd_cs ∷ rest) (omega arith)
events-write_all (b ∷ bs) s m rest (h, hs) =
    rw (append_assoc, events-write_data b s m _ h)
      (ap (λ seen. byte b ∷ seen) (events-write_all bs 0 (b % 2) rest hs))

write_all-replicate :
    (n b : ℕ) (bs : List ℕ) → write_all (replicate n b ++ bs) ≡ write_times n b ++ write_all bs
unfolding write_times write_all
write_all-replicate zero b bs = refl
write_all-replicate (suc n) b bs = simp (write_all-replicate n b bs, append_assoc)

-- From rest, a selected run of bytes that ends with 0 is one command.
events-command :
    (bs : List ℕ) (rest : List Op)
    → AreBytes bs
    → events at_rest (pin_set lcd_cs ∷ (write_all bs ++ (write_data 0 ++ pin_clr lcd_cs ∷ rest)))
      ≡ select ∷ (map byte bs ++ (byte 0 ∷ deselect ∷ events at_rest rest))
unfolding events
events-command bs rest h = ap (λ seen. select ∷ seen) (events-write_all bs 0 0 rest h)

events-two_bytes :
    (b : ℕ) (rest : List Op)
    → b < 256
    → events at_rest (pin_set lcd_cs ∷ (write_data b ++ (write_data 0 ++ pin_clr lcd_cs ∷ rest)))
      ≡ command (b ∷ 0 ∷ []) (events at_rest rest)
unfolding write_all
events-two_bytes b rest h = simp append_assoc at (events-command (b ∷ []) rest (h, tt))

-- `ClearScreen` sends the two bytes 0x20 and 0.
pub events-clear_screen :
    (rest : List Op)
    → events at_rest (clear_screen ++ rest) ≡ command (0x20 ∷ 0 ∷ []) (events at_rest rest)
unfolding clear_screen
events-clear_screen rest = simp append_assoc (events-two_bytes 0x20 rest (omega arith))

-- `invertDisplay` sends the two bytes 0x14 and 0.
pub events-invert_display :
    (rest : List Op)
    → events at_rest (invert_display ++ rest) ≡ command (0x14 ∷ 0 ∷ []) (events at_rest rest)
unfolding invert_display
events-invert_display rest = simp append_assoc (events-two_bytes 0x14 rest (omega arith))

blink_cmd-lt : (mode : ℕ) → blink_cmd mode < 256
unfolding blink_cmd
blink_cmd-lt mode = ground arith

-- `setBlinkMode` sends the command byte of its mode and 0.
pub events-set_blink_mode :
    (mode : ℕ) (rest : List Op)
    → events at_rest (set_blink_mode mode ++ rest)
      ≡ command (blink_cmd mode ∷ 0 ∷ []) (events at_rest rest)
unfolding set_blink_mode
events-set_blink_mode mode rest =
    simp append_assoc (events-two_bytes (blink_cmd mode) rest (blink_cmd-lt mode))

-- The bytes of a line: update mode, the line number from 1, the two halves, two dummy bytes.
abbrev halves : List ℕ → List ℕ
halves last = replicate 44 0xcc ++ (replicate 44 0x33 ++ last)

abbrev pub line_bytes : ℕ → List ℕ
line_bytes line = 0x90 ∷ u8 (line + 1) ∷ halves (0 ∷ 0 ∷ [])

replicate-AreBytes :
    (n b : ℕ) (bs : List ℕ) → b < 256 → AreBytes bs → AreBytes (replicate n b ++ bs)
replicate-AreBytes zero b bs h hs = hs
replicate-AreBytes (suc n) b bs h hs = (h, replicate-AreBytes n b bs h hs)

-- The order of the calls in `set_line`, for any lengths of the two halves.
regroup :
    (n m x y : ℕ) (rest : List Op)
    → (write_data x
          ++ (write_data y
              ++ (write_times n 0xcc
                  ++ (write_times m 0x33
                      ++ (write_data 0 ++ (write_data 0 ++ pin_clr lcd_cs ∷ []))))))
        ++ rest
      ≡ write_all (x ∷ y ∷ (replicate n 0xcc ++ (replicate m 0x33 ++ 0 ∷ [])))
        ++ (write_data 0 ++ pin_clr lcd_cs ∷ rest)
unfolding write_all
regroup n m x y rest = simp (write_all-replicate, append_assoc)

-- The calls of `set_line`, grouped for `events-command`.
set_line-write_all :
    (line : ℕ) (rest : List Op)
    → set_line line ++ rest
      ≡ pin_set lcd_cs
        ∷ (write_all (0x90 ∷ u8 (line + 1) ∷ halves (0 ∷ []))
            ++ (write_data 0 ++ pin_clr lcd_cs ∷ rest))
unfolding set_line
set_line-write_all line rest =
    ap (λ ops. pin_set lcd_cs ∷ ops) (regroup 44 44 0x90 (u8 (line + 1)) rest)

-- From rest, and before any further operations, `set_line` sends the one command of its line and
-- leaves the display at rest.
pub events-set_line :
    (line : ℕ) (rest : List Op)
    → events at_rest (set_line line ++ rest) ≡ command (line_bytes line) (events at_rest rest)
events-set_line line rest =
    ap (events at_rest) (set_line-write_all line rest)
    ∙ events-command (0x90 ∷ u8 (line + 1) ∷ halves (0 ∷ [])) rest (
      omega arith,
      (
        omega arith,
        replicate-AreBytes 44 0xcc (replicate 44 0x33 ++ 0 ∷ []) (omega arith)
            (replicate-AreBytes 44 0x33 (0 ∷ []) (omega arith) (omega arith, tt)),
      ),
    )
