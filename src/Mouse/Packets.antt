-- ===== src/Mouse/Packets.antt =====
-- The packets that the mouse handler of src/mouse.c reads.
use kfs.Prelude.{
  ℕ, zero, suc, ◌-◌, ◌<◌, ◌∙◌, ltb, ℤ, negsuc, arith, ◌≡◌, ◌⊎◌, inl, inr, Bool-cases, refl, ap,
  true, false, List, [], ◌∷◌, ◌++◌, ◌==◌, pos, All, if◌then◌else◌,
}
use kfs.Scrollback.{Scrollback, scrollback_scroll}
use kfs.Mouse.{Mouse, mouse_handler, from_mouse, always_1, minus_byte}

-- The interrupts with the status and the byte of each.
pub mouse_run : Mouse → List (ℕ × ℕ) → Mouse
mouse_run st [] = st
mouse_run st ((status, byte) ∷ bytes) = mouse_run (mouse_handler st status byte) bytes

pub record Packet : Type 0 where
  pub flags : ℕ
  pub x_movement : ℕ
  pub y_movement : ℕ
  pub z_movement : ℕ

abbrev pub IsPacket : Packet → Type 0
IsPacket p = (always_1 p.flags ≡ true) × (p.z_movement < 256)

-- What arrives: packets, with other bytes between them.
pub data Arrival : Type 0 where
  noise : ℕ × ℕ → Arrival
  packet : Packet → Arrival

-- A byte with the status of one from the mouse.
abbrev sent : ℕ → ℕ × ℕ
sent byte = (0x21, byte)

abbrev pub packet_bytes : Packet → List (ℕ × ℕ)
packet_bytes p = sent p.flags ∷ sent p.x_movement ∷ sent p.y_movement ∷ sent p.z_movement ∷ []

abbrev pub bytes_of : List Arrival → List (ℕ × ℕ)
bytes_of [] = []
bytes_of (noise e ∷ xs) = e ∷ bytes_of xs
bytes_of (packet p ∷ xs) = packet_bytes p ++ bytes_of xs

-- A byte as a movement in two's complement, and a movement the other way.
abbrev pub movement : ℕ → ℤ
movement z = if ltb z 128 then pos z else negsuc (255 - z)

abbrev pub opposite : ℤ → ℤ
opposite (pos zero) = pos 0
opposite (pos (suc n)) = negsuc n
opposite (negsuc n) = pos (suc n)

minus_byte-movement : (z : ℕ) → z < 256 → minus_byte z ≡ opposite (movement z)
minus_byte-movement zero h = refl
minus_byte-movement (suc n) h = elim (Bool-cases (ltb (suc n) 128)) [
  | inl l ↦ rw l refl
  | inr l ↦ let e : 256 - suc n ≡ suc (255 - suc n) = omega (arith, h) in rw l (ap pos e)
]

-- The screen after the wheel of a packet has turned.
abbrev pub turn : Scrollback → ℕ → Scrollback
turn sb z = if z == 0 then sb else scrollback_scroll sb (opposite (movement z))

unfoldable pub turns : Scrollback → List Arrival → Scrollback
turns sb [] = sb
turns sb (noise e ∷ xs) = turns sb xs
turns sb (packet p ∷ xs) = turns (turn sb p.z_movement) xs

-- What is outside packets: bytes that are not the mouse's, and bytes without the bit of a first one.
abbrev pub IsNoise : ℕ × ℕ → Type 0
IsNoise (status, byte) = (from_mouse status ≡ false) ⊎ (always_1 byte ≡ false)

abbrev pub IsArrival : Arrival → Type 0
IsArrival (noise e) = IsNoise e
IsArrival (packet p) = IsPacket p

-- Between packets, with no movement to report.
pub record Idle (st : Mouse) (sb : Scrollback) : Type 0 where
  pub cycle : st.mouse_cycle ≡ 0
  pub delta : st.scroll_delta ≡ pos 0
  pub screen : st.scrollback ≡ sb

noise-Idle :
    (st : Mouse) (sb : Scrollback) (e : ℕ × ℕ)
    → Idle st sb
    → IsNoise e
    → Idle (mouse_handler st e.0 e.1) sb
unfolding mouse_handler
noise-Idle st sb (status, byte) v (inl n) = rw n v
noise-Idle st sb (status, byte) v (inr n) = elim (Bool-cases (from_mouse status)) [
  | inr f ↦ rw f v
  | inl f ↦ rw (f, v.cycle, n) (record { cycle = refl; delta = v.delta; screen = v.screen })
]

packet-Idle :
    (st : Mouse) (sb : Scrollback) (p : Packet)
    → Idle st sb
    → IsPacket p
    → Idle (mouse_run st (packet_bytes p)) (turn sb p.z_movement)
unfolding mouse_run mouse_handler
packet-Idle st sb p v i = elim (Bool-cases (p.z_movement == 0)) [
  | inl z ↦ rw (v.cycle, i.0, z) (record { cycle = refl; delta = v.delta; screen = v.screen })
  | inr z ↦
      rw (v.cycle, i.0, z)
        (record {
          cycle = refl;
          delta = refl;
          screen =
              ap (λ s. scrollback_scroll s (minus_byte p.z_movement)) v.screen
              ∙ ap (scrollback_scroll sb) (minus_byte-movement p.z_movement i.1);
        })
]

-- Between packets, packets of four bytes whose first has its bit 3 set, with any bytes between them that
-- are not the mouse's or do not have that bit, are read as what they are: the screen scrolls once for
-- each packet whose fourth byte, a movement in two's complement, is not 0, by the opposite movement, in
-- order, and the handler is between
-- packets again, with no movement left for `mouse_get_scroll_delta`.
pub packets-scroll :
    (st : Mouse) (sb : Scrollback) (xs : List Arrival)
    → Idle st sb
    → All IsArrival xs
    → Idle (mouse_run st (bytes_of xs)) (turns sb xs)
unfolding mouse_run turns
packets-scroll st sb [] v a = v
packets-scroll st sb (noise e ∷ xs) v a =
    packets-scroll (mouse_handler st e.0 e.1) sb xs (noise-Idle st sb e v a.0) a.1
packets-scroll st sb (packet p ∷ xs) v a =
    packets-scroll (mouse_run st (packet_bytes p)) (turn sb p.z_movement) xs
      (packet-Idle st sb p v a.0) a.1
