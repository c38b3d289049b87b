-- ===== src/Fs/Path/Access/Tests.antt =====
-- Runs of the calls of fs/open.c.
use liha_linux.Base.{◌==◌, Option, [], false, if◌then◌else◌, none, refl, some, true, ℕ, ◌∷◌, ◌≡◌}
use liha_linux.Task.{init_task}
use liha_linux.Fs.{BitMap, Fs, Inode, zero_inode}
use liha_linux.Fs.Dir.{permission}
use liha_linux.Fs.Table.{iput}
use liha_linux.Fs.Path.{Current, namei, dir_namei, get_dir, walk_dir, next_name, last_name}
use liha_linux.Fs.Path.Access.{class_bits, sys_chown, sys_chmod}

-- A process of the group of a file with mode 0704 has the bits of the owner.
abbrev in_group : Current
in_group = record {
  me = record init_task { uid = 1; euid = 1; gid = 3; egid = 3 };
  root = 0;
  pwd = 0;
}

group_has_all : class_bits in_group (record zero_inode { i_mode = 0x81C4; i_gid = 3 }) ≡ 7
unfolding class_bits
group_has_all = refl

abbrev as_root : Current
as_root = record { me = init_task; root = 0; pwd = 0 }

abbrev full : BitMap
full = record { bit = λ _. true; has = λ n. n == 0; dirt = λ _. false }

abbrev root_inode : Inode
root_inode = record zero_inode {
  i_mode = 0x41C5;
  i_uid = 9;
  i_count = 1;
  i_dev = 1;
  i_num = 1;
  i_nlinks = 1;
}

-- The root of the device is the inode 0 of the table; its path is a slash.
abbrev rooted : Fs
rooted = record {
  zmap = full;
  imap = full;
  s_ninodes = 64;
  s_nzones = 100;
  s_firstdatazone = 10;
  s_imap_blocks = 1;
  s_zmap_blocks = 1;
  word = λ _ _. 0;
  users = λ _. 0;
  can_read = λ _. true;
  inode = λ i. if i == 0 then root_inode else zero_inode;
  last_inode = 0;
  current_time = 7;
}

abbrev result : Option (ℕ × Fs) → ℕ
result r = elim r as (λ _. ℕ) [ none ↦ 99 | some p ↦ p.0 ]

-- Only the superuser gives a file away.
root_gives_away : result (sys_chown as_root (47 ∷ []) 5 6 rooted) ≡ 0
unfolding permission iput sys_chown namei dir_namei get_dir walk_dir next_name last_name
root_gives_away = refl

-- The owner of the root is another user.
others_may_not : result (sys_chmod in_group (47 ∷ []) 0x1FF rooted) ≡ 13
unfolding permission iput sys_chmod namei dir_namei get_dir walk_dir next_name last_name
others_may_not = refl
