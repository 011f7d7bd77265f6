-- ===== src/IpRule.antt =====
-- iprule.c and iprule.h: the rules for policy routing, parsed from the configuration.
use lede_netifd.Utils.Netmask.{Libc, parse_ip_and_netmask, before, slash, strchr}
use lede_netifd.Prelude.{
  true, false, ◌+◌, ◌%◌, ◌^◌, ◌&&◌, ltb, none, [], if◌then◌else◌, ◌∷◌, some, Bool, CString, ◌++◌,
  List, Option, ℕ,
}
mod Bounds
mod Tests

-- The bits of enum iprule_flags.
pub data Flag : Type 0 where
  inet6 : Flag
  in_flag : Flag
  out_flag : Flag
  src_flag : Flag
  dest_flag : Flag
  priority_flag : Flag
  tos_flag : Flag
  fwmark_flag : Flag
  fwmask_flag : Flag
  lookup_flag : Flag
  action_flag : Flag
  goto_flag : Flag

-- struct iprule; `flags` lists the bits that are set, and an address is empty until it is set.
pub record Rule : Type 0 where
  pub order : ℕ
  pub flags : List Flag
  pub invert : Bool
  pub in_dev : CString
  pub out_dev : CString
  pub src_mask : ℕ
  pub src_addr : List ℕ
  pub dest_mask : ℕ
  pub dest_addr : List ℕ
  pub priority : ℕ
  pub tos : ℕ
  pub fwmark : ℕ
  pub fwmask : ℕ
  pub lookup : ℕ
  pub action : ℕ
  pub gotoid : ℕ

-- rule_attr, as blobmsg_parse finds it.
pub record RuleAttrs : Type 0 where
  pub in_name : Option CString
  pub out_name : Option CString
  pub invert : Option Bool
  pub src : Option CString
  pub dest : Option CString
  pub priority : Option ℕ
  pub tos : Option ℕ
  pub mark : Option CString
  pub lookup : Option CString
  pub action : Option CString
  pub goto_id : Option ℕ

-- What the rules take from elsewhere: strtoul with its value, whether it reads a digit and whether
-- it reads to the end; the name of the layer 3 device of an interface, where there are both; and the
-- names that the system resolves.
pub record RuleEnv : Type 0 where
  pub libc : Libc
  pub strtoul : CString → ℕ × (Bool × Bool)
  pub l3_ifname : CString → Option CString
  pub resolve_rt_table : CString → Option ℕ
  pub resolve_iprule_action : CString → Option ℕ

abbrev pub with_flag : Flag → Rule → Rule
with_flag f r = record r { flags = r.flags ++ f ∷ [] }

-- One step after another, where `none` is `goto error`.
unfoldable pub and_then : Option Rule → (Rule → Option Rule) → Option Rule
and_then none g = none
and_then (some r) g = g r

unfoldable pub in_turn : (Rule → Option Rule) → (Rule → Option Rule) → Rule → Option Rule
in_turn f g r = and_then (f r) g

unfoldable pub set_invert : Option Bool → Rule → Option Rule
set_invert none r = some r
set_invert (some b) r = some (record r { invert = b })

unfoldable pub set_priority : Option ℕ → Rule → Option Rule
set_priority none r = some r
set_priority (some n) r = some (with_flag priority_flag (record r { priority = n }))

unfoldable pub set_tos : Option ℕ → Rule → Option Rule
set_tos none r = some r
set_tos (some n) r = if ltb 255 n then none else some (with_flag tos_flag (record r { tos = n }))

unfoldable pub set_goto : Option ℕ → Rule → Option Rule
set_goto none r = some r
set_goto (some n) r = some (with_flag goto_flag (record r { gotoid = n }))

abbrev pub put_in : Option CString → Rule → Option Rule
put_in none r = none
put_in (some dev) r = some (with_flag in_flag (record r { in_dev = dev }))

abbrev pub put_out : Option CString → Rule → Option Rule
put_out none r = none
put_out (some dev) r = some (with_flag out_flag (record r { out_dev = dev }))

abbrev pub put_src : Option (List ℕ) → ℕ → Rule → Option Rule
put_src none m r = none
put_src (some a) m r = some (with_flag src_flag (record r { src_addr = a; src_mask = m }))

abbrev pub put_dest : Option (List ℕ) → ℕ → Rule → Option Rule
put_dest none m r = none
put_dest (some a) m r = some (with_flag dest_flag (record r { dest_addr = a; dest_mask = m }))

abbrev pub put_lookup : Option ℕ → Rule → Option Rule
put_lookup none r = none
put_lookup (some n) r = some (with_flag lookup_flag (record r { lookup = n }))

abbrev pub put_action : Option ℕ → Rule → Option Rule
put_action none r = none
put_action (some n) r = some (with_flag action_flag (record r { action = n }))

module _ (env : RuleEnv) where
  unfoldable pub set_in : Option CString → Rule → Option Rule
  set_in none r = some r
  set_in (some s) r = put_in (env.l3_ifname s) r

  unfoldable pub set_out : Option CString → Rule → Option Rule
  set_out none r = some r
  set_out (some s) r = put_out (env.l3_ifname s) r

  unfoldable pub set_src : Bool → Option CString → Rule → Option Rule
  set_src v6 none r = some r
  set_src v6 (some s) r =
      let (addr, m) = parse_ip_and_netmask env.libc v6 s r.src_mask in put_src addr m r

  unfoldable pub set_dest : Bool → Option CString → Rule → Option Rule
  set_dest v6 none r = some r
  set_dest v6 (some s) r =
      let (addr, m) = parse_ip_and_netmask env.libc v6 s r.dest_mask in put_dest addr m r

  -- The mask behind the slash, if there is one, in the string from the slash on.
  unfoldable pub parse_fwmask : Option CString → Rule → Option Rule
  parse_fwmask none r = some r
  parse_fwmask (some []) r = none
  parse_fwmask (some (x ∷ s)) r =
      let (n, (digits, ends)) = env.strtoul s in
      if digits && ends
      then some (with_flag fwmask_flag (record r { fwmask = n % 2 ^ 32 }))
      else none

  -- iprule_parse_mark
  unfoldable pub parse_mark : CString → Rule → Option Rule
  parse_mark s r =
      let (n, (digits, ends)) = env.strtoul (before slash s) in
      if digits && ends
      then parse_fwmask (strchr slash s) (with_flag fwmark_flag (record r { fwmark = n % 2 ^ 32 }))
      else none

  unfoldable pub set_mark : Option CString → Rule → Option Rule
  set_mark none r = some r
  set_mark (some s) r = parse_mark s r

  unfoldable pub set_lookup : Option CString → Rule → Option Rule
  set_lookup none r = some r
  set_lookup (some s) r = put_lookup (env.resolve_rt_table s) r

  unfoldable pub set_action : Option CString → Rule → Option Rule
  set_action none r = some r
  set_action (some s) r = put_action (env.resolve_iprule_action s) r

  -- The part of iprule_add that fills in the rule, or frees it.
  unfoldable pub parse_rule : Bool → RuleAttrs → Rule → Option Rule
  parse_rule v6 a = in_turn (set_invert a.invert) (
      in_turn (set_in a.in_name) (
        in_turn (set_out a.out_name) (
          in_turn (set_src v6 a.src) (
            in_turn (set_dest v6 a.dest) (
              in_turn (set_priority a.priority) (
                in_turn (set_tos a.tos) (
                  in_turn (set_mark a.mark) (
                    in_turn (set_lookup a.lookup)
                      (in_turn (set_action a.action) (set_goto a.goto_id))))))))))

-- The calls of libubox's vlist of the rules and of system_flush_iprules, on what they keep.
pub record RuleCalls (T : Type 0) : Type 0 where
  pub vlist_add : Rule → T → T
  pub vlist_update : T → T
  pub vlist_flush : T → T
  pub flush_iprules : T → T

-- iprules_flushed, the two iprules_counter, and `rules` with what the calls keep.
pub record RuleState (T : Type 0) : Type 0 where
  pub flushed : Bool
  pub counter4 : ℕ
  pub counter6 : ℕ
  pub rules : T

-- The rule from calloc, with its family and its order.
unfoldable pub new_rule : Bool → ℕ → Rule
new_rule v6 n = record {
  order = n;
  flags = if v6 then inet6 ∷ [] else [];
  invert = false;
  in_dev = [];
  out_dev = [];
  src_mask = 0;
  src_addr = [];
  dest_mask = 0;
  dest_addr = [];
  priority = 0;
  tos = 0;
  fwmark = 0;
  fwmask = 0;
  lookup = 0;
  action = 0;
  gotoid = 0;
}

module _ {T : Type 0} (calls : RuleCalls T) where
  abbrev pub counter : Bool → RuleState T → ℕ
  counter v6 s = if v6 then s.counter6 else s.counter4

  -- `iprules_counter[rule->flags]++`
  unfoldable pub count_up : Bool → RuleState T → RuleState T
  count_up true s = record s { counter6 = (s.counter6 + 1) % 2 ^ 32 }
  count_up false s = record s { counter4 = (s.counter4 + 1) % 2 ^ 32 }

  unfoldable pub add_if_some : Option Rule → RuleState T → RuleState T
  add_if_some none s = s
  add_if_some (some r) s = record s { rules = calls.vlist_add r s.rules }

  -- iprule_add, where calloc succeeds.
  unfoldable pub add_rule : RuleEnv → Bool → RuleAttrs → RuleState T → RuleState T
  add_rule env v6 a s =
      add_if_some (parse_rule env v6 a (new_rule v6 (counter v6 s))) (count_up v6 s)

  unfoldable pub flush_once : RuleState T → RuleState T
  flush_once s =
      if s.flushed then s else record s { flushed = true; rules = calls.flush_iprules s.rules }

  -- iprule_update_start
  unfoldable pub rules_update_start : RuleState T → RuleState T
  rules_update_start s =
      let t = flush_once s in
      record t { counter4 = 1; counter6 = 1; rules = calls.vlist_update t.rules }

  -- iprule_update_complete
  unfoldable pub rules_update_complete : RuleState T → RuleState T
  rules_update_complete s = record s { rules = calls.vlist_flush s.rules }
