-- ===== src/Rule.antt =====
-- include/rule.hpp: a rule of the ACL.
use voix.Base.{ℕ, Bool, false, Option, none, List, [], Text}

pub data Action : Type 0 where
  permit deny : Action

-- The options byte, as its five named bits.
pub record Options : Type 0 where
  pub nopass : Bool
  pub keepenv : Bool
  pub persist : Bool
  pub nolog : Bool
  pub pattern_args : Bool

abbrev pub no_options : Options
no_options = record {
  nopass = false;
  keepenv = false;
  persist = false;
  nolog = false;
  pattern_args = false;
}

pub record Rule : Type 0 where
  pub ident : Text
  pub ident_uid : Option ℕ
  pub ident_gid : Option ℕ
  pub target : Text
  pub target_uid : Option ℕ
  pub cmd : Text
  pub cmdargs : List Text
  pub envlist : List Text
  pub profile : Text
  pub action : Action
  pub options : Options

-- `Rule()`
abbrev pub default_rule : Rule
default_rule = record {
  ident = [];
  ident_uid = none;
  ident_gid = none;
  target = [];
  target_uid = none;
  cmd = [];
  cmdargs = [];
  envlist = [];
  profile = [];
  action = permit;
  options = no_options;
}
