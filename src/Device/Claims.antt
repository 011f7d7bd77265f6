-- ===== src/Device/Claims.antt =====
-- device.c: what is asked of the functions behind the pointers, and what a broadcast keeps.
use lede_netifd.Prelude.{
  ℕ, ◌≡◌, ◌⊎◌, refl, Bool, true, false, none, some, List, [], inl, inr, ◌==◌, arith, Bool-cases,
  is_nonzero,
}
use lede_netifd.Device.State.{Event, update_ifindex, setup, teardown, down, World, Env}
use lede_netifd.Device.Ops.{broadcast_cb, broadcast, set_ifindex}
use lede_netifd.Device.Invariant.{Inv}
use lede_netifd.Device.Primitives.{put_device-Inv}

-- The first claim of a device is being made by `u`.
abbrev pub Claiming : ℕ → ℕ → World → Type 0
Claiming u d w = ((w.user u).dev ≡ some d) × ((w.user u).claimed ≡ true) × ((w.device d).active ≡ 1)

-- The claim that is being made has been given up.
abbrev pub GivenUp : ℕ → ℕ → World → Type 0
GivenUp u d w = ((w.user u).claimed ≡ false) × ((w.device d).active ≡ 0)

-- `u` has given up its claim of `d`.
abbrev pub Released : ℕ → ℕ → World → Type 0
Released u d w = ((w.user u).dev ≡ some d) × ((w.user u).claimed ≡ false)

abbrev pub IsClaimEvent : Event → Type 0
IsClaimEvent ev = (ev ≡ setup) ⊎ (ev ≡ update_ifindex)

abbrev pub IsReleaseEvent : Event → Type 0
IsReleaseEvent ev = (ev ≡ teardown) ⊎ (ev ≡ down)

-- `safe_list_for_each` makes nothing but calls of its callback, and none over an empty list.
pub record Iterates (each : (World → List ℕ) → (ℕ → World → World) → World → World) : Type 1 where
  pub calls :
      (P : World → Type 0) (head : World → List ℕ) (f : ℕ → World → World)
      → ((u : ℕ) (x : World) → P x → P (f u x))
      → (x : World) → P x
      → P (each head f x)
  pub empty :
      (head : World → List ℕ) (f : ℕ → World → World) (x : World) → head x ≡ [] → each head f x ≡ x

-- What is asked of the functions behind the pointers: they keep the invariant; where a device cannot be
-- brought up, the claim that is being made still stands or has been given up on the way, as it is when
-- a bridge that fails tells its interfaces that it is gone; and the callbacks for the set-up of a device
-- and for the index of an external one leave the claim alone, as does what takes a device down with a
-- claim that is being given up.
pub record Guarantee (env : Env) : Type 1 where
  pub iterates : Iterates env.each
  pub cb_Inv : (u : ℕ) (ev : Event) (x : World) → Inv x → Inv (env.cb u ev x)
  pub set_state_Inv : (d : ℕ) (b : Bool) (x : World) → Inv x → Inv (env.set_state d b x).1
  pub type_free_Inv : (d : ℕ) (x : World) → Inv x → Inv (env.type_free d x)
  pub cb_Claiming :
      (u d v : ℕ) (ev : Event) (x : World)
      → IsClaimEvent ev
      → Claiming u d x
      → Claiming u d (env.cb v ev x)
  pub set_state_failed :
      (u d : ℕ) (x : World)
      → Inv x
      → Claiming u d x
      → is_nonzero (env.set_state d true x).0 ≡ true
      → Claiming u d (env.set_state d true x).1 ⊎ GivenUp u d (env.set_state d true x).1
  pub cb_Released :
      (u d v : ℕ) (ev : Event) (x : World)
      → IsReleaseEvent ev
      → Released u d x
      → Released u d (env.cb v ev x)
  pub set_state_Released :
      (u d : ℕ) (x : World) → Released u d x → Released u d (env.set_state d false x).1
  pub type_free_detached :
      (u d : ℕ) (x : World) → (x.user u).dev ≡ none → ((env.type_free d x).user u).dev ≡ none

module _ (env : Env) (it : Iterates env.each) where
  -- A broadcast keeps what the callbacks keep.
  pub broadcast_keeps_by :
      (P : World → Type 0) (ev : Event)
      → ((v : ℕ) (x : World) → P x → P (env.cb v ev x))
      → (d : ℕ) (w : World) → P w
      → P (broadcast env d ev w)
  unfolding broadcast
  broadcast_keeps_by P ev keep d w p = it.calls P _ _ called _ (it.calls P _ _ called w p)
    where
      called : (v : ℕ) (x : World) → P x → P (broadcast_cb env ev v x)
      called v x q = ground (arith, keep v x q)

module _ (env : Env) (g : Guarantee env) where
  pub broadcast_keeps :
      (P : World → Type 0) (ev : Event)
      → ((v : ℕ) (x : World) → P x → P (env.cb v ev x))
      → (d : ℕ) (w : World) → P w
      → P (broadcast env d ev w)
  broadcast_keeps = broadcast_keeps_by env g.iterates

  pub broadcast-Inv : (d : ℕ) (ev : Event) (w : World) → Inv w → Inv (broadcast env d ev w)
  broadcast-Inv d ev w v = broadcast_keeps Inv ev (λ u. g.cb_Inv u ev) d w v

  pub set_ifindex-Inv : (d i : ℕ) (w : World) → Inv w → Inv (set_ifindex env d i w)
  unfolding set_ifindex
  set_ifindex-Inv d i w v = elim (Bool-cases ((w.device d).ifindex == i)) [
    | inl e ↦ rw (set_ifindex, e) v
    | inr e ↦ rw (set_ifindex, e) (broadcast-Inv d _ _ (put_device-Inv w v d _ refl refl refl))
  ]
