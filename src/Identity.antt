-- ===== src/Identity.antt =====
-- include/system_identity.hpp and src/system_identity.cpp, over the passwd and group databases.
pub mod Lookup
use voix.Base.{ℕ, Option, none, some, List, [], ◌∷◌, Text, codes}

pub record UserIdentity : Type 0 where
  pub username : Text
  pub uid : ℕ
  pub gid : ℕ
  pub groups : List ℕ
  pub home_dir : Text
  pub shell : Text

-- include/system_utils.hpp
pub record PasswdEntry : Type 0 where
  pub name : Text
  pub uid : ℕ
  pub gid : ℕ
  pub home_dir : Text
  pub shell : Text

-- The system's user database, and the process's own user id. `getgrouplist` gives the groups that
-- it wrote where they fit into the given number of places, and otherwise the number that is needed.
pub data GroupList : Type 0 where
  fits : List ℕ → GroupList
  needs : ℕ → GroupList

pub record Accounts : Type 0 where
  pub passwd_by_name : Text → Option PasswdEntry
  pub passwd_by_uid : ℕ → Option PasswdEntry
  pub group_by_name : Text → Option ℕ
  pub getgrouplist : Text → ℕ → ℕ → GroupList
  pub getuid : ℕ

-- The retry with the number of places that the first call asked for.
retry_groups : Accounts → Text → ℕ → ℕ → List ℕ
retry_groups a username gid n = elim (a.getgrouplist username gid n) [
  | fits groups ↦ groups
  | needs _ ↦ []
]

resolve_groups : Accounts → Text → ℕ → List ℕ
unfolding retry_groups
resolve_groups a username gid = elim (a.getgrouplist username gid 32) [
  | fits groups ↦ groups
  | needs n ↦ retry_groups a username gid n
]

unfoldable pub get_user_by_name : Accounts → Text → Option UserIdentity
unfolding resolve_groups
get_user_by_name a username = elim (a.passwd_by_name username) [
  | none ↦ none
  | some entry ↦ some (record {
    username = entry.name;
    uid = entry.uid;
    gid = entry.gid;
    groups = resolve_groups a username entry.gid;
    home_dir = entry.home_dir;
    shell = entry.shell;
  })
]

unfoldable pub get_user_by_uid : Accounts → ℕ → Option UserIdentity
get_user_by_uid a uid = elim (a.passwd_by_uid uid) [
  | none ↦ none
  | some entry ↦ some (record {
    username = entry.name;
    uid = entry.uid;
    gid = entry.gid;
    groups = [];
    home_dir = entry.home_dir;
    shell = entry.shell;
  })
]

unfoldable pub get_current_username : Accounts → Text
unfolding codes
get_current_username a = elim (a.passwd_by_uid a.getuid) [
  | some entry ↦ entry.name
  | none ↦ codes "unknown"
]

-- `SystemUtils::getUidByName` and `getGidByName`
unfoldable pub get_uid_by_name : Accounts → Text → Option ℕ
get_uid_by_name a name = elim (a.passwd_by_name name) [ none ↦ none | some entry ↦ some entry.uid ]

-- `resolve_login_shell`
unfoldable pub resolve_login_shell : Accounts → Text → Text
unfolding codes
resolve_login_shell a user = elim (a.passwd_by_name user) [
  | none ↦ codes "/bin/sh"
  | some entry ↦ elim entry.shell [ [] ↦ codes "/bin/sh" | c ∷ s ↦ c ∷ s ]
]
