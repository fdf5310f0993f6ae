-- ===== src/TuxDf1/Close.antt =====
-- What KillAll of TuxDf1.c does with the devices.
use tux_plc.Base.{ℕ, zero, suc, ◌≡◌, refl, Bool-cases, inl, inr, List, [], ◌∷◌, some, if◌then◌else◌}
use tux_plc.Base.Int.{negsuc, is_neg}
use tux_plc.TuxDf1.{Plc}
use tux_plc.TuxDf1.Device.{Os, Globals, close_device}
use tux_plc.TuxDf1.Logger.{kill_all}

-- How many of the PLCs have a device.
abbrev pub open_devices : {D : Type 0} → List (Plc D) → ℕ
open_devices [] = 0
open_devices (p ∷ ps) = if is_neg p.socket then open_devices ps else suc (open_devices ps)

-- The PLCs without their devices.
abbrev pub without_device : {D : Type 0} → List (Plc D) → List (Plc D)
without_device [] = []
without_device (p ∷ ps) =
    (if is_neg p.socket then p else record p { socket = negsuc 0 }) ∷ without_device ps

-- The descriptor -1 closed n times, its terminal restored before.
abbrev pub closings : (o : Os) → ℕ → o.World → o.World
closings o zero w = w
closings o (suc n) w = closings o n (o.close (negsuc 0) (o.restore_terminal (negsuc 0) w))

module _ {o : Os} where
  -- KillAll takes the device from every PLC, and the one descriptor that it closes, once for each PLC
  -- with a device, is -1.
  pub kill_all-closings :
      (ps : List (Plc o.doubles.Double)) (s : Globals o)
      → kill_all ps s
        ≡ some (without_device ps, record s { world = closings o (open_devices ps) s.world })
  unfolding kill_all close_device
  kill_all-closings [] s = refl
  kill_all-closings (p ∷ ps) s = elim (Bool-cases (is_neg p.socket)) [
    | inl e ↦ rw (e, kill_all-closings ps s) refl
    | inr e ↦
        let w = o.close (negsuc 0) (o.restore_terminal (negsuc 0) s.world) in
        rw (e, kill_all-closings ps (record s { world = w })) refl
  ]
