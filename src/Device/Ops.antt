-- ===== src/Device/Ops.antt =====
-- device.c: events, presence, claims and users.
use lede_netifd.Prelude.{
  ℕ, ◌+◌, ◌-◌, Bool, true, false, not, ◌&&◌, ◌||◌, none, some, [], ◌∷◌, ◌++◌, ltb, ◌==◌,
  if◌then◌else◌, ℤ, pos, negsuc, is_nonzero, remove,
}
use lede_netifd.Device.State.{
  is_linked, Event, add, removed, update_ifindex, setup, teardown, up, down, link_up, link_down,
  World, Env, put_device, put_user, same_bool,
}

-- device_lock, and `__devlock++` elsewhere
abbrev pub lock : World → World
lock w = record w { devlock = w.devlock + 1 }

abbrev pub unlock : World → World
unlock w = record w { devlock = w.devlock - 1 }

-- device_delete
unfoldable pub device_delete : ℕ → World → World
device_delete d w =
    if (w.device d).in_tree
    then put_device d (record (w.device d) { in_tree = false })
        (record w { devices = remove d w.devices })
    else w

-- The claim that `device_claim` notes first.
unfoldable pub mark_claimed : ℕ → ℕ → World → World
mark_claimed u d w =
    put_user u (record (w.user u) { claimed = true })
      (put_device d (record (w.device d) { active = (w.device d).active + 1 }) w)

-- `dev->active = 0; dep->claimed = false`
unfoldable pub claim_failed : ℕ → ℕ → World → World
claim_failed u d w =
    put_user u (record (w.user u) { claimed = false })
      (put_device d (record (w.device d) { active = 0 }) w)

-- The first lines of `device_release`, with its assertion that `active` was not 0.
unfoldable pub unmark_claimed : ℕ → ℕ → World → World
unmark_claimed u d w =
    put_user u (record (w.user u) { claimed = false })
      (put_device d (record (w.device d) { active = (w.device d).active - 1 })
        (record w { aborted = w.aborted || ((w.device d).active == 0) }))

-- `dep->dev = dev` and safe_list_add to the list of users or of aliases.
unfoldable pub link_user : ℕ → ℕ → World → World
link_user u d w =
    put_user u (record (w.user u) { dev = some d })
      (put_device d
        (if (w.user u).alias
          then record (w.device d) { aliases = (w.device d).aliases ++ u ∷ [] }
          else record (w.device d) { users = (w.device d).users ++ u ∷ [] })
        w)

-- safe_list_del and `dep->dev = NULL`.
unfoldable pub unlink_user : ℕ → ℕ → World → World
unlink_user u d w =
    put_user u (record (w.user u) { dev = none })
      (put_device d
        (if (w.user u).alias
          then record (w.device d) { aliases = remove u (w.device d).aliases }
          else record (w.device d) { users = remove u (w.device d).users })
        w)

module _ (env : Env) where
  open env use {cb, set_state, type_free, each, if_resolve, if_get_settings, if_get_parent}

  -- `if (dep->cb) dep->cb(dep, ev)`
  unfoldable pub call_cb : Event → ℕ → World → World
  call_cb ev u w = if (w.user u).has_cb then cb u ev w else w

  -- device_broadcast_cb
  unfoldable pub broadcast_cb : Event → ℕ → World → World
  unfolding call_cb
  broadcast_cb ev u w = if is_linked (w.user u).dev then call_cb ev u w else w

  -- device_broadcast_event
  unfoldable pub broadcast : ℕ → Event → World → World
  unfolding broadcast_cb
  broadcast d ev w =
      each (λ v. (v.device d).users) (broadcast_cb ev)
        (each (λ v. (v.device d).aliases) (broadcast_cb ev) w)

  -- __device_set_present
  unfoldable pub set_present_flag : ℕ → Bool → World → World
  set_present_flag d state w =
      if same_bool (w.device d).present state
      then w
      else broadcast d (if state then add else removed)
          (put_device d (record (w.device d) { present = state }) w)

  -- device_refresh_present
  unfoldable pub refresh_present : ℕ → World → World
  unfolding set_present_flag
  refresh_present d w =
      set_present_flag d
        ((w.device d).sys_present && not ((w.device d).disabled || (w.device d).deferred)) w

  -- device_set_present
  unfoldable pub set_present : ℕ → Bool → World → World
  unfolding refresh_present
  set_present d state w =
      if same_bool (w.device d).sys_present state
      then w
      else refresh_present d (put_device d (record (w.device d) { sys_present = state }) w)

  -- device_set_disabled
  unfoldable pub set_disabled : ℕ → Bool → World → World
  unfolding refresh_present
  set_disabled d value w =
      refresh_present d (put_device d (record (w.device d) { disabled = value }) w)

  -- device_set_deferred
  unfoldable pub set_deferred : ℕ → Bool → World → World
  unfolding refresh_present
  set_deferred d value w =
      refresh_present d (put_device d (record (w.device d) { deferred = value }) w)

  -- device_set_link
  unfoldable pub set_link : ℕ → Bool → World → World
  set_link d state w =
      if same_bool (w.device d).link_active state
      then w
      else broadcast d (if state then link_up else link_down)
          (put_device d (record (w.device d) { link_active = state }) w)

  -- device_set_ifindex
  unfoldable pub set_ifindex : ℕ → ℕ → World → World
  set_ifindex d i w =
      if (w.device d).ifindex == i
      then w
      else broadcast d update_ifindex (put_device d (record (w.device d) { ifindex = i }) w)

  -- The branch of `device_claim` for an external device.
  unfoldable pub claim_external : ℕ → World → ℤ × World
  unfolding set_ifindex
  claim_external d w =
      let v = set_ifindex d (if_resolve d w) w in
      (
        if (v.device d).ifindex == 0 then negsuc 0 else pos 0,
        put_device d (record (v.device d) { orig_settings = if_get_settings d v }) v,
      )

  -- The end of `device_claim`.
  unfoldable pub finish_claim : ℕ → ℕ → ℤ × World → ℤ × World
  unfolding claim_failed
  finish_claim u d (ret, w) = (ret, if is_nonzero ret then claim_failed u d w else broadcast d up w)

  -- `device_claim` of a user that has a device and has not claimed it.
  unfoldable pub claim_device : ℕ → ℕ → World → ℤ × World
  unfolding mark_claimed finish_claim claim_external
  claim_device u d w =
      let v = mark_claimed u d w in
      let s = broadcast d setup v in
      if (v.device d).active == 1
      then finish_claim u d
          (if (s.device d).external then claim_external d s else set_state d true s)
      else (pos 0, v)

  -- device_claim
  unfoldable pub device_claim : ℕ → World → ℤ × World
  unfolding claim_device
  device_claim u w =
      if (w.user u).claimed
      then (pos 0, w)
      else elim (w.user u).dev [ none ↦ (negsuc 0, w) | some d ↦ claim_device u d w ]

  -- The end of `device_release`, for the last user of the device.
  unfoldable pub last_release : ℕ → World → World
  last_release d w =
      let t = broadcast d teardown w in
      let s = if (t.device d).external then t else (set_state d false t).1 in
      if ltb 0 (s.device d).active then s else broadcast d down s

  unfoldable pub release_device : ℕ → ℕ → World → World
  unfolding unmark_claimed last_release
  release_device u d w =
      let v = unmark_claimed u d w in if ltb 0 (v.device d).active then v else last_release d v

  -- device_release; a user that has claimed has a device.
  unfoldable pub device_release : ℕ → World → World
  unfolding release_device
  device_release u w =
      if (w.user u).claimed
      then elim (w.user u).dev [ none ↦ w | some d ↦ release_device u d w ]
      else w
