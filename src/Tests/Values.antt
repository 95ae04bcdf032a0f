-- ===== src/Tests/Values.antt =====
-- A file system in which every path is canonical and an executable of root's, two accounts, and a
-- policy of two rules.
use voix.Base.{true, false, none, some, [], ◌∷◌, codes, ◌==◌, nat_eq, list_eq, if◌then◌else◌}
use voix.Rule
use voix.Rule.{Rule, default_rule}
use voix.Files.{Kernel, Stat, value, unexpected, eintr, regular, directory}
use voix.Identity.{Accounts, PasswdEntry, UserIdentity, fits}
use voix.Config.{Config, default_config}
use voix.Permission.{Request}

abbrev pub executable_file : Stat
executable_file = record {
  kind = regular;
  uid = 0;
  device = 1;
  inode = 2;
  user_exec = true;
  group_write = false;
  group_exec = true;
  other_write = false;
  other_exec = true;
  other_bits = true;
}

abbrev pub kernel : Kernel
kernel = record {
  geteuid = 0;
  cwd = some (codes "/");
  realpath = λ path. value path;
  stat = λ path. value executable_file;
  lstat = λ path. value executable_file;
  open_no_follow =
      λ path. value (record { fd = 7; fstat = value executable_file; size = value 0; reads = [] });
  create_no_follow = λ path. value (record {
    file = record { fd = 8; fstat = value executable_file; size = value 0; reads = [] };
    writes = value 2 ∷ unexpected eintr ∷ [];
  });
  exists_file = λ path. true;
  weakly_canonical = λ path. some path;
  file_size = λ path. value 0;
  read_stream = λ path. some ([], false);
  directory_status = λ path. value true;
  mountinfo = none;
}

-- Every path is a directory of root's, and what is opened holds three bytes.
abbrev pub tree : Kernel
tree = record kernel {
  lstat = λ path. value (record executable_file { kind = directory });
  open_no_follow = λ path. value (record {
    fd = 7;
    fstat = value executable_file;
    size = value 3;
    reads = value (1 ∷ 2 ∷ []) ∷ value (3 ∷ 4 ∷ []) ∷ [];
  });
}

abbrev pub ann : PasswdEntry
ann = record {
  name = codes "ann";
  uid = 1000;
  gid = 100;
  home_dir = codes "/home/ann";
  shell = codes "/bin/sh";
}

abbrev pub root : PasswdEntry
root = record {
  name = codes "root";
  uid = 0;
  gid = 0;
  home_dir = codes "/root";
  shell = codes "/bin/sh";
}

abbrev pub accounts : Accounts
accounts = record {
  passwd_by_name = λ name.
      if name == codes "ann" then some ann else if name == codes "root" then some root else none;
  passwd_by_uid = λ uid. if uid == 1000 then some ann else if uid == 0 then some root else none;
  group_by_name = λ name. none;
  getgrouplist = λ name gid n. fits (gid ∷ []);
  getuid = 1000;
}

abbrev pub ann_identity : UserIdentity
ann_identity = record {
  username = codes "ann";
  uid = 1000;
  gid = 100;
  groups = 100 ∷ [];
  home_dir = codes "/home/ann";
  shell = codes "/bin/sh";
}

abbrev pub root_identity : UserIdentity
root_identity = record {
  username = codes "root";
  uid = 0;
  gid = 0;
  groups = 0 ∷ [];
  home_dir = codes "/root";
  shell = codes "/bin/sh";
}

abbrev pub deny_passwd : Rule
deny_passwd = record default_rule {
  ident = codes "ann";
  ident_uid = some 1000;
  cmd = codes "/bin/passwd";
  action = Rule.deny;
}

abbrev pub permit_ls : Rule
permit_ls = record default_rule {
  ident = codes "ann";
  ident_uid = some 1000;
  cmd = codes "/bin/ls";
}

abbrev pub config : Config
config = record default_config { rules = deny_passwd ∷ permit_ls ∷ [] }

abbrev pub request : Request
request = record { command = codes "/bin/ls"; args = codes "-l" ∷ []; target_uid = 0 }
