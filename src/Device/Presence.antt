-- ===== src/Device/Presence.antt =====
-- device.c: a device is present exactly where the system has it and nothing holds it back.
use lede_netifd.Prelude.{
  ℕ, ◌≡◌, refl, Bool, false, not, ◌&&◌, ◌||◌, arith, Bool-cases, inl, inr, if◌then◌else◌, ◌==◌,
  ==_iff,
}
use lede_netifd.Device.State.{Event, Device, World, Env, put_device, same_bool, add, removed}
use lede_netifd.Device.Ops.{
  set_present_flag, refresh_present, set_present, set_disabled, set_deferred,
}
use lede_netifd.Device.Claims.{Iterates, broadcast_keeps_by}

-- What the presence of a device should be.
abbrev pub due : Device → Bool
due x = x.sys_present && not (x.disabled || x.deferred)

-- Every device is present exactly if the system has it and it is neither disabled nor deferred.
pub record Right (w : World) : Type 0 where
  pub present : (d : ℕ) → (w.device d).present ≡ due (w.device d)

-- The same of all devices but one.
abbrev RightBut : ℕ → World → Type 0
RightBut d w = (e : ℕ) → (d == e) ≡ false → (w.device e).present ≡ due (w.device e)

put_device-Right :
    (d : ℕ) (x : Device) (w : World) → RightBut d w → x.present ≡ due x → Right (put_device d x w)
put_device-Right d x w r h = record {
  present = λ e. elim (Bool-cases (d == e)) [
    | inl k ↦ ground (arith, k, h)
    | inr k ↦ ground (arith, k, r e k)
  ];
}

put_device-RightBut : (d : ℕ) (x : Device) (w : World) → Right w → RightBut d (put_device d x w)
put_device-RightBut d x w r e k = ground (arith, k, r.present e)

RightBut-Right :
    (d : ℕ) (w : World) → RightBut d w → (w.device d).present ≡ due (w.device d) → Right w
RightBut-Right d w r h = record {
  present = λ e. elim (Bool-cases (d == e)) [
    | inl k ↦ let q : d ≡ e = (==_iff d e).0 k in rw (← q) h
    | inr k ↦ r e k
  ];
}

module _ (env : Env) (it : Iterates env.each)
    (keeps : (u : ℕ) (ev : Event) (x : World) → Right x → Right (env.cb u ev x)) where
  refresh_present-Right : (d : ℕ) (w : World) → RightBut d w → Right (refresh_present env d w)
  unfolding refresh_present set_present_flag
  refresh_present-Right d w r =
      let x = w.device d in
      let state = due x in
      elim (Bool-cases (same_bool x.present state)) [
        | inl e ↦ rw (refresh_present, set_present_flag, e) (RightBut-Right d w r (ground arith))
        | inr e ↦
            rw (refresh_present, set_present_flag, e)
              (broadcast_keeps_by env it Right (if state then add else removed)
                (λ u y q. keeps u _ y q) d (put_device d (record x { present = state }) w)
                (put_device-Right d (record x { present = state }) w r refl))
      ]

  -- Where every device is present exactly if the system has it and it is neither disabled nor deferred,
  -- this is so after each of the operations that set one of these three flags, if the callbacks of the
  -- devices' users keep it too.
  pub presence :
      (d : ℕ) (b : Bool) (w : World)
      → Right w
      → Right (set_present env d b w)
        × Right (set_disabled env d b w)
        × Right (set_deferred env d b w)
  unfolding set_disabled set_deferred set_present
  presence d b w r =
      let x = w.device d in
      (
        elim (Bool-cases (same_bool x.sys_present b)) [
          | inl e ↦ rw (set_present, e) r
          | inr e ↦
              rw (set_present, e)
                (refresh_present-Right d (put_device d (record x { sys_present = b }) w)
                  (put_device-RightBut d (record x { sys_present = b }) w r))
        ],
        refresh_present-Right d (put_device d (record x { disabled = b }) w)
            (put_device-RightBut d (record x { disabled = b }) w r),
        refresh_present-Right d (put_device d (record x { deferred = b }) w)
            (put_device-RightBut d (record x { deferred = b }) w r),
      )
