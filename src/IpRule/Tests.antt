-- ===== src/IpRule/Tests.antt =====
-- The rules of iprule.c at concrete values.
use lede_netifd.Prelude.{
  ℕ, ◌≡◌, refl, ◌∷◌, [], map, ◌++◌, List, some, none, true, false, codes, str_eq, if◌then◌else◌,
}
use lede_netifd.IpRule.{
  flush_once, add_if_some, count_up, parse_rule, new_rule, in_turn, and_then, set_invert, set_in,
  set_out, set_src, set_dest, set_priority, set_tos, set_mark, parse_mark, parse_fwmask, set_lookup,
  set_action, set_goto, strchr, RuleEnv, RuleCalls, RuleState, RuleAttrs, Rule, Flag, add_rule,
  rules_update_start, in_flag, src_flag, priority_flag, tos_flag, fwmark_flag, fwmask_flag,
  lookup_flag,
}
use lede_netifd.Utils.Netmask.{
  before, strchr, parse_ip_and_netmask, split_netmask, parse_netmask_string,
}
use lede_netifd.IpRule.Bounds.{RulesAfter, add_rule-RulesAfter}

-- A system with one interface and one table.
abbrev rule_env : RuleEnv
rule_env = record {
  libc = record {
    strtoul = λ s. if str_eq s (codes "24") then (24, true) else (0, false);
    inet_aton = λ s. none;
    inet_pton = λ v6 s. some (10 ∷ 0 ∷ 0 ∷ 0 ∷ []);
  };
  strtoul = λ s. if str_eq s (codes "1") then (1, (true, true)) else (0, (false, false));
  l3_ifname = λ s. if str_eq s (codes "lan") then some (codes "br-lan") else none;
  resolve_rt_table = λ s. if str_eq s (codes "main") then some 254 else none;
  resolve_iprule_action = λ s. none;
}

-- vlist as the list of the rules that were added.
abbrev rule_calls : RuleCalls (List Rule)
rule_calls = record {
  vlist_add = λ r rs. rs ++ r ∷ [];
  vlist_update = λ rs. rs;
  vlist_flush = λ rs. rs;
  flush_iprules = λ rs. [];
}

abbrev lan_rule : RuleAttrs
lan_rule = record {
  in_name = some (codes "lan");
  out_name = none;
  invert = none;
  src = some (codes "10.0.0.0/24");
  dest = none;
  priority = some 100;
  tos = some 16;
  mark = some (codes "1/1");
  lookup = some (codes "main");
  action = none;
  goto_id = none;
}

abbrev no_rules : RuleState (List Rule)
no_rules = record { flushed = false; counter4 = 0; counter6 = 0; rules = [] }

-- The source's mask, the order and the flags of the rules that were added.
abbrev summary : RuleState (List Rule) → List (ℕ × (ℕ × List Flag))
summary s = map (λ r. (r.order, (r.src_mask, r.flags))) s.rules

add_rule_test :
    summary (add_rule rule_calls rule_env false lan_rule (rules_update_start rule_calls no_rules))
    ≡ (
      1,
      (
        24,
        in_flag ∷ src_flag ∷ priority_flag ∷ tos_flag ∷ fwmark_flag ∷ fwmask_flag ∷ lookup_flag
            ∷ [],
      ),
    )
      ∷ []
unfolding strchr str_eq before rules_update_start flush_once add_rule add_if_some count_up
    parse_rule new_rule in_turn and_then set_invert set_in set_out set_src set_dest
    parse_ip_and_netmask split_netmask parse_netmask_string set_priority set_tos set_mark parse_mark
    parse_fwmask set_lookup set_action set_goto
add_rule_test = refl

-- A rule whose type of service is too large is not added.
big_tos_test :
    (add_rule rule_calls rule_env false (record lan_rule { tos = some 256 }) no_rules).rules ≡ []
unfolding strchr str_eq before rules_update_start flush_once add_rule add_if_some count_up
    parse_rule new_rule in_turn and_then set_invert set_in set_out set_src set_dest
    parse_ip_and_netmask split_netmask parse_netmask_string set_priority set_tos set_mark parse_mark
    parse_fwmask set_lookup set_action set_goto
big_tos_test = refl

add_rule-RulesAfter_example :
    RulesAfter rule_calls false 1 []
      (add_rule rule_calls rule_env false lan_rule (rules_update_start rule_calls no_rules)).rules
unfolding rules_update_start flush_once
add_rule-RulesAfter_example =
    add_rule-RulesAfter rule_calls rule_env false lan_rule (rules_update_start rule_calls no_rules)
