-- ===== src/IpRule/Bounds.antt =====
-- iprule.c: the values of a rule that iprule_add accepts are in range.
use lede_netifd.IpRule.{
  RuleCalls, RuleState, new_rule, count_up, counter, add_if_some, add_rule, Rule, RuleEnv,
  RuleAttrs, put_in, put_out, put_lookup, put_action, and_then, in_turn, set_invert, set_priority,
  set_goto, set_tos, put_src, put_dest, set_in, set_out, set_lookup, set_action, parse_fwmask,
  parse_mark, set_mark, set_src, set_dest, parse_rule,
}
use lede_netifd.Utils.Netmask.{parse_ip_and_netmask, before, slash, strchr}
use lede_netifd.Prelude.{
  ◌⊎◌, inl, inr, ℕ, Bool, true, false, Option, none, some, List, [], ◌∷◌, ◌≡◌, refl, arith, ltb,
  leb, ◌==◌, ◌&&◌, if◌then◌else◌, CString,
}

-- The longest netmask of a family.
abbrev pub width : Bool → ℕ
width v6 = if v6 then 128 else 32

-- The rule has the order `n`, and its type of service and its netmasks are in range.
abbrev pub in_range : Bool → ℕ → Rule → Bool
in_range v6 n r =
    (r.order == n && leb r.tos 255) && (leb r.src_mask (width v6) && leb r.dest_mask (width v6))

-- A rule that is not refused is in range.
unfoldable in_range_if_some : Bool → ℕ → Option Rule → Bool
in_range_if_some v6 n none = true
in_range_if_some v6 n (some r) = in_range v6 n r

-- A step keeps a rule in range.
abbrev StepKeeps : Bool → ℕ → (Rule → Option Rule) → Type 0
StepKeeps v6 n f = (r : Rule) → in_range v6 n r ≡ true → in_range_if_some v6 n (f r) ≡ true

module _ (v6 : Bool) (n : ℕ) where
  and_then-in_range :
      (o : Option Rule) (g : Rule → Option Rule)
      → StepKeeps v6 n g
      → in_range_if_some v6 n o ≡ true
      → in_range_if_some v6 n (and_then o g) ≡ true
  unfolding and_then in_range_if_some
  and_then-in_range none g hg h = refl
  and_then-in_range (some r) g hg h = hg r h

  in_turn-StepKeeps :
      (f g : Rule → Option Rule)
      → StepKeeps v6 n f
      → StepKeeps v6 n g
      → StepKeeps v6 n (in_turn f g)
  unfolding in_turn
  in_turn-StepKeeps f g hf hg r h = and_then-in_range (f r) g hg (hf r h)

  set_invert-StepKeeps : (t : Option Bool) → StepKeeps v6 n (set_invert t)
  unfolding set_invert in_range_if_some
  set_invert-StepKeeps none r h = h
  set_invert-StepKeeps (some t) r h = h

  set_priority-StepKeeps : (t : Option ℕ) → StepKeeps v6 n (set_priority t)
  unfolding set_priority in_range_if_some
  set_priority-StepKeeps none r h = h
  set_priority-StepKeeps (some t) r h = h

  set_goto-StepKeeps : (t : Option ℕ) → StepKeeps v6 n (set_goto t)
  unfolding set_goto in_range_if_some
  set_goto-StepKeeps none r h = h
  set_goto-StepKeeps (some t) r h = h

  set_tos-StepKeeps : (t : Option ℕ) → StepKeeps v6 n (set_tos t)
  unfolding set_tos in_range_if_some
  set_tos-StepKeeps none r h = h
  set_tos-StepKeeps (some t) r h = ground arith

  in_range-if :
      (b : Bool) (o : Option Rule)
      → in_range_if_some v6 n o ≡ true
      → in_range_if_some v6 n (if b then o else none) ≡ true
  unfolding in_range_if_some
  in_range-if true o h = h
  in_range-if false o h = refl

  put_src-in_range :
      (m : ℕ) (o : Option (List ℕ)) (r : Rule)
      → in_range v6 n r ≡ true
      → in_range_if_some v6 n (put_src (if ltb (width v6) m then none else o) m r) ≡ true
  unfolding in_range_if_some
  put_src-in_range m none r h = ground arith
  put_src-in_range m (some a) r h = ground arith

  put_dest-in_range :
      (m : ℕ) (o : Option (List ℕ)) (r : Rule)
      → in_range v6 n r ≡ true
      → in_range_if_some v6 n (put_dest (if ltb (width v6) m then none else o) m r) ≡ true
  unfolding in_range_if_some
  put_dest-in_range m none r h = ground arith
  put_dest-in_range m (some a) r h = ground arith

  module _ (env : RuleEnv) where
    set_in-StepKeeps : (t : Option CString) → StepKeeps v6 n (set_in env t)
    unfolding set_in in_range_if_some
    set_in-StepKeeps none r h = h
    set_in-StepKeeps (some t) r h =
        elim (env.l3_ifname t) as (λ o. in_range_if_some v6 n (put_in o r) ≡ true) [
          | none ↦ refl
          | some d ↦ h
        ]

    set_out-StepKeeps : (t : Option CString) → StepKeeps v6 n (set_out env t)
    unfolding set_out in_range_if_some
    set_out-StepKeeps none r h = h
    set_out-StepKeeps (some t) r h =
        elim (env.l3_ifname t) as (λ o. in_range_if_some v6 n (put_out o r) ≡ true) [
          | none ↦ refl
          | some d ↦ h
        ]

    set_lookup-StepKeeps : (t : Option CString) → StepKeeps v6 n (set_lookup env t)
    unfolding set_lookup in_range_if_some
    set_lookup-StepKeeps none r h = h
    set_lookup-StepKeeps (some t) r h =
        elim (env.resolve_rt_table t) as (λ o. in_range_if_some v6 n (put_lookup o r) ≡ true) [
          | none ↦ refl
          | some d ↦ h
        ]

    set_action-StepKeeps : (t : Option CString) → StepKeeps v6 n (set_action env t)
    unfolding set_action in_range_if_some
    set_action-StepKeeps none r h = h
    set_action-StepKeeps (some t) r h =
        elim (env.resolve_iprule_action t) as (λ o. in_range_if_some v6 n (put_action o r) ≡ true) [
          | none ↦ refl
          | some d ↦ h
        ]

    parse_fwmask-StepKeeps : (t : Option CString) → StepKeeps v6 n (parse_fwmask env t)
    unfolding parse_fwmask in_range_if_some
    parse_fwmask-StepKeeps none r h = h
    parse_fwmask-StepKeeps (some []) r h = refl
    parse_fwmask-StepKeeps (some (x ∷ t)) r h = in_range-if _ (some _) h

    set_mark-StepKeeps : (t : Option CString) → StepKeeps v6 n (set_mark env t)
    unfolding set_mark parse_mark in_range_if_some
    set_mark-StepKeeps none r h = h
    set_mark-StepKeeps (some t) r h = in_range-if _ _ (parse_fwmask-StepKeeps (strchr slash t) _ h)

    set_src-StepKeeps : (t : Option CString) → StepKeeps v6 n (set_src env v6 t)
    unfolding set_src parse_ip_and_netmask in_range_if_some
    set_src-StepKeeps none r h = h
    set_src-StepKeeps (some t) r h = put_src-in_range _ _ r h

    set_dest-StepKeeps : (t : Option CString) → StepKeeps v6 n (set_dest env v6 t)
    unfolding set_dest parse_ip_and_netmask in_range_if_some
    set_dest-StepKeeps none r h = h
    set_dest-StepKeeps (some t) r h = put_dest-in_range _ _ r h

    parse_rule-StepKeeps : (a : RuleAttrs) → StepKeeps v6 n (parse_rule env v6 a)
    unfolding parse_rule
    parse_rule-StepKeeps a = in_turn-StepKeeps _ _ (set_invert-StepKeeps a.invert) (
        in_turn-StepKeeps _ _ (set_in-StepKeeps a.in_name) (
          in_turn-StepKeeps _ _ (set_out-StepKeeps a.out_name) (
            in_turn-StepKeeps _ _ (set_src-StepKeeps a.src) (
              in_turn-StepKeeps _ _ (set_dest-StepKeeps a.dest) (
                in_turn-StepKeeps _ _ (set_priority-StepKeeps a.priority) (
                  in_turn-StepKeeps _ _ (set_tos-StepKeeps a.tos) (
                    in_turn-StepKeeps _ _ (set_mark-StepKeeps a.mark) (
                      in_turn-StepKeeps _ _ (set_lookup-StepKeeps a.lookup) (
                        in_turn-StepKeeps _ _ (set_action-StepKeeps a.action)
                          (set_goto-StepKeeps a.goto_id))))))))))

-- Whether the rules changed by the addition of one rule in range, or not at all.
abbrev pub RulesAfter : {T : Type 0} → RuleCalls T → Bool → ℕ → T → T → Type 0
RulesAfter calls v6 n before after =
    (after ≡ before) ⊎ ((r : Rule) × (in_range v6 n r ≡ true) × (after ≡ calls.vlist_add r before))

module _ {T : Type 0} (calls : RuleCalls T) (v6 : Bool) where
  add_if_some-RulesAfter :
      (n : ℕ) (o : Option Rule) (s : RuleState T)
      → in_range_if_some v6 n o ≡ true
      → RulesAfter calls v6 n s.rules (add_if_some calls o s).rules
  unfolding in_range_if_some add_if_some
  add_if_some-RulesAfter n none s h = inl refl
  add_if_some-RulesAfter n (some r) s h = inr (r, h, refl)

new_rule-in_range : (v6 : Bool) (n : ℕ) → in_range v6 n (new_rule v6 n) ≡ true
unfolding new_rule
new_rule-in_range v6 n = ground arith

-- Whatever its attributes, iprule_add either leaves the rules as they are or adds one rule to them,
-- which has the order that its family's counter had, a type of service of at most 255, and netmasks
-- no longer than an address of its family.
pub add_rule-RulesAfter :
    {T : Type 0} (calls : RuleCalls T) (env : RuleEnv) (v6 : Bool) (a : RuleAttrs) (s : RuleState T)
    → RulesAfter calls v6 (counter calls v6 s) s.rules (add_rule calls env v6 a s).rules
unfolding add_rule count_up
add_rule-RulesAfter calls env true a s =
    add_if_some-RulesAfter calls true s.counter6 _ (count_up calls true s)
      (parse_rule-StepKeeps true s.counter6 env a _ (new_rule-in_range true _))
add_rule-RulesAfter calls env false a s =
    add_if_some-RulesAfter calls false s.counter4 _ (count_up calls false s)
      (parse_rule-StepKeeps false s.counter4 env a _ (new_rule-in_range false _))
