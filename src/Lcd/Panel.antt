-- ===== src/Lcd/Panel.antt =====
-- What a display sees on the wires: it is selected while CS is high, takes one bit from MOSI at
-- each rising edge of SCK, highest bit first, and a byte after eight of them.
use nrf.Base.{
  ℕ, suc, ◌+◌, ◌*◌, ◌/◌, ◌%◌, ◌<◌, ◌==◌, ◌≡◌, refl, ap, false, ◌∙◌, ◌&&◌, List, [], ◌∷◌, ◌++◌, u8,
  arith, if◌then◌else◌,
}
use nrf.Base.Bits.{has_bits-pow}
use nrf.Lcd.Driver.{
  Op, set, configure_output, wait, lcd_cs, lcd_mosi, lcd_sck, write_bits, write_data,
}

pub record Panel : Type 0 where
  pub cs : ℕ
  pub sck : ℕ
  pub mosi : ℕ
  pub count : ℕ
  pub shift : ℕ

pub data Event : Type 0 where
  select : Event
  byte : ℕ → Event
  deselect : Event

abbrev pub panel : (cs sck mosi count shift : ℕ) → Panel
panel cs sck mosi count shift = record {
  cs = cs;
  sck = sck;
  mosi = mosi;
  count = count;
  shift = shift;
}

-- A panel that is not selected, between two commands.
abbrev pub at_rest : Panel
at_rest = panel 0 0 0 0 0

abbrev shift_in : Panel → Panel × List Event
shift_in p =
    let v = 2 * p.shift + p.mosi in
    if p.count == 7
    then (panel p.cs 1 p.mosi 0 0, byte v ∷ [])
    else (panel p.cs 1 p.mosi (p.count + 1) v, [])

-- The effect of a change of one wire.
abbrev react : Panel → (pin value : ℕ) → Panel × List Event
react p pin value =
    if pin == lcd_mosi
    then (panel p.cs p.sck value p.count p.shift, [])
    else if pin == lcd_sck
    then (if value == 1 && p.sck == 0 && p.cs == 1
        then shift_in p
        else (panel p.cs value p.mosi p.count p.shift, []))
    else if pin == lcd_cs
    then (if p.cs == value
        then (p, [])
        else (panel value p.sck p.mosi 0 0, (if value == 1 then select else deselect) ∷ []))
    else (p, [])

unfoldable pub events : Panel → List Op → List Event
events p [] = []
events p (set pin value ∷ ops) = let (p', seen) = react p pin value in seen ++ events p' ops
events p (configure_output pin ∷ ops) = events p ops
events p (wait count ∷ ops) = events p ops

-- One round of the loop of `Write_Data`, seen by a selected panel: the highest bit of `dh`.
module _ (rest : List Op) (s m rounds dh d dh' v v' : ℕ) where
  round_ops :
      dh / 128 % 2 ≡ d
      → u8 (dh * 2) ≡ dh'
      → write_bits (suc rounds) dh
        ≡ set lcd_sck 0 ∷ set lcd_mosi d ∷ set lcd_sck 1 ∷ write_bits rounds dh'
  unfolding write_bits
  round_ops e f = ground (arith, has_bits-pow 7 dh)

  events-bit :
      (k k' : ℕ)
      → (k == 7) ≡ false
      → k + 1 ≡ k'
      → dh / 128 % 2 ≡ d
      → u8 (dh * 2) ≡ dh'
      → 2 * v + d ≡ v'
      → events (panel 1 s m k v) (write_bits (suc rounds) dh ++ rest)
        ≡ events (panel 1 1 d k' v') (write_bits rounds dh' ++ rest)
  unfolding events
  events-bit k k' early next e f g =
      ap (λ ops. events (panel 1 s m k v) (ops ++ rest)) (round_ops e f) ∙ rw (early, next, g)

  events-last_bit :
      dh / 128 % 2 ≡ d
      → u8 (dh * 2) ≡ dh'
      → 2 * v + d ≡ v'
      → events (panel 1 s m 7 v) (write_bits (suc rounds) dh ++ rest)
        ≡ byte v' ∷ events (panel 1 1 d 0 0) (write_bits rounds dh' ++ rest)
  unfolding events
  events-last_bit e f g = ap (λ ops. events (panel 1 s m 7 v) (ops ++ rest)) (round_ops e f) ∙ rw g

events-last_clr :
    (d dh : ℕ) (rest : List Op)
    → events (panel 1 1 d 0 0) (write_bits 0 dh ++ rest) ≡ events (panel 1 0 d 0 0) rest
unfolding events write_bits
events-last_clr d dh rest = refl

-- `Write_Data` puts the bits of one byte on the wires, and a panel that is selected and between two
-- bytes reads that byte and is between two bytes again, whatever operations follow.
pub events-write_data :
    (b s m : ℕ) (rest : List Op)
    → b < 256
    → events (panel 1 s m 0 0) (write_data b ++ rest) ≡ byte b ∷ events (panel 1 0 (b % 2) 0 0) rest
unfolding write_data
events-write_data b s m rest h =
    events-bit rest s m 7 b (b / 128 % 2) (u8 (b * 2)) 0 (b / 128) 0 1 refl refl refl refl
      (omega arith)
    ∙ events-bit rest 1 _ 6 _ (b / 64 % 2) (u8 (b * 4)) _ (b / 64) 1 2 refl refl (omega arith)
        (omega arith) (omega arith)
    ∙ events-bit rest 1 _ 5 _ (b / 32 % 2) (u8 (b * 8)) _ (b / 32) 2 3 refl refl (omega arith)
        (omega arith) (omega arith)
    ∙ events-bit rest 1 _ 4 _ (b / 16 % 2) (u8 (b * 16)) _ (b / 16) 3 4 refl refl (omega arith)
        (omega arith) (omega arith)
    ∙ events-bit rest 1 _ 3 _ (b / 8 % 2) (u8 (b * 32)) _ (b / 8) 4 5 refl refl (omega arith)
        (omega arith) (omega arith)
    ∙ events-bit rest 1 _ 2 _ (b / 4 % 2) (u8 (b * 64)) _ (b / 4) 5 6 refl refl (omega arith)
        (omega arith) (omega arith)
    ∙ events-bit rest 1 _ 1 _ (b / 2 % 2) (u8 (b * 128)) _ (b / 2) 6 7 refl refl (omega arith)
        (omega arith) (omega arith)
    ∙ events-last_bit rest 1 _ 0 _ (b % 2) (u8 (b * 256)) _ b (omega arith) (omega arith)
        (omega arith)
    ∙ ap (λ seen. byte b ∷ seen) (events-last_clr (b % 2) (u8 (b * 256)) rest)
