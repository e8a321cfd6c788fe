-- ===== src/Terminal/Crtc.antt =====
-- The registers of the display controller, which the driver writes through the two ports.
use simply_os.Base.{
  ℕ, ◌+◌, ◌*◌, ◌/◌, ◌^◌, ◌≡◌, refl, arith, ◌==◌, if◌then◌else◌, bit_and, u8, u16, List, [], ◌∷◌,
}
use simply_os.Base.Bits.{bit_and_mask}
use simply_os.Terminal.{Terminal, sync_cursor, initialize, enable_hw_cursor}
use simply_os.Terminal.Cursor.{IsOn, position, sync_cursor-parts}

record Crtc : Type 0 where
  index : ℕ
  registers : ℕ → ℕ

-- What the writes leave, the latest first: port 0x3D4 selects a register and 0x3D5 fills it.
abbrev after : List (ℕ × ℕ) → Crtc
after [] = record { index = 0; registers = λ r. 0 }
after ((port, value) ∷ out) =
    if port == 0x3D4 then (record (after out) { index = value }) else (record (after out) {
      registers = λ r. if r == (after out).index then value else (after out).registers r;
    })

-- The cursor that is shown, from registers 0x0E and 0x0F.
abbrev pub shown_at : Terminal → ℕ
shown_at t = (after t.out).registers 0x0E * 256 + (after t.out).registers 0x0F

pub record IsShown (t : Terminal) : Type 0 where
  pub on : IsOn t
  pub synced : shown_at t ≡ position t

sync_cursor-registers :
    (t : Terminal)
    → ((after (sync_cursor t).out).registers 0x0E ≡ u8 (bit_and (u16 (position t) / 2 ^ 8) 0xFF))
      × ((after (sync_cursor t).out).registers 0x0F ≡ u8 (bit_and (u16 (position t)) 0xFF))
unfolding sync_cursor
sync_cursor-registers t = (refl, refl)

sync_cursor-IsShown : (t : Terminal) → IsOn t → IsShown (sync_cursor t)
sync_cursor-IsShown t on =
    let (r, c, col, cells) = sync_cursor-parts t in
    let (high, low) = sync_cursor-registers t in
    record {
      on = ground (arith, r, c, on);
      synced = omega (
        arith,
        high,
        low,
        r,
        c,
        on,
        bit_and_mask 8 (u16 (position t) / 2 ^ 8),
        bit_and_mask 8 (u16 (position t)),
      );
    }

-- terminal_initialize puts the cursor on the screen, and the hardware shows it there.
pub initialize-IsShown : (first second : ℕ) (t : Terminal) → IsShown (initialize first second t)
unfolding initialize enable_hw_cursor
initialize-IsShown first second t = sync_cursor-IsShown _ (omega arith, omega arith)
