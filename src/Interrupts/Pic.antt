-- ===== src/Interrupts/Pic.antt =====
-- The interrupt controllers, src/pic.c with include/pic.h.
--
-- The masks that the data ports hold are their eight bits, lowest first.
use kfs.Prelude.{
  ℕ, ◌-◌, Bool, true, false, List, [], ◌∷◌, ◌++◌, leb, ltb, set, take, drop, replicate,
  if◌then◌else◌,
}

pub record Pic : Type 0 where
  pub master : List Bool
  pub slave : List Bool

-- A port and the value that is written to it.
abbrev pub PortWrite : Type 0
PortWrite = ℕ × ℕ

abbrev pub pic1_command : ℕ
pic1_command = 0x20

abbrev pub pic1_data : ℕ
pic1_data = 0x21

abbrev pub pic2_command : ℕ
pic2_command = 0xa0

abbrev pub pic2_data : ℕ
pic2_data = 0xa1

-- The writes of `pic_init` before the masks that it read are written back, its delays left out.
abbrev pub init_writes : List PortWrite
init_writes =
    (pic1_command, 0x11)
    ∷ (pic2_command, 0x11)
    ∷ (pic1_data, 0x20)
    ∷ (pic2_data, 0x28)
    ∷ (pic1_data, 0x04)
    ∷ (pic2_data, 0x02)
    ∷ (pic1_data, 0x01)
    ∷ (pic2_data, 0x01)
    ∷ []

-- The writes of `pic_send_eoi`.
abbrev pub eoi_writes : ℕ → List PortWrite
eoi_writes irq =
    if leb 8 irq
    then (pic2_command, 0x20) ∷ (pic1_command, 0x20) ∷ []
    else (pic1_command, 0x20) ∷ []

abbrev pub put_bit : Pic → ℕ → Bool → Pic
put_bit st irq b =
    if ltb irq 8
    then record st { master = set st.master irq b }
    else record st { slave = set st.slave (irq - 8) b }

-- An interrupt number from 0 to 15.
unfoldable pub pic_mask_irq : Pic → ℕ → Pic
pic_mask_irq st irq = put_bit st irq true

unfoldable pub pic_unmask_irq : Pic → ℕ → Pic
pic_unmask_irq st irq = put_bit st irq false

unfoldable pub pic_disable_all : Pic → Pic
pic_disable_all st = record { master = replicate 8 true; slave = replicate 8 true }

-- The sixteen bits of the mask.
unfoldable pub pic_get_mask : Pic → List Bool
pic_get_mask st = st.master ++ st.slave

unfoldable pub pic_set_mask : Pic → List Bool → Pic
pic_set_mask st mask = record { master = take 8 mask; slave = take 8 (drop 8 mask) }
