-- ===== src/Fs/Path.antt =====
-- Path names (fs/namei.c), for one device with nothing mounted on it: `iget` of fs/inode.c, `get_dir`,
-- `dir_namei`, `namei`. A path is the list of its bytes; an inode is named by its index in the table.
pub mod Calls
pub mod Access
pub mod Open
pub mod Remove
pub mod Make
use mathlib.Core.Option
use liha_linux.Base.{
  ◌&&◌, ◌+◌, ◌==◌, Bool, List, Option, [], if◌then◌else◌, length, none, not, some, suc, true, zero,
  ◌||◌, ℕ, ◌∷◌,
}
use liha_linux.Task.{Task}
use liha_linux.Fs.{F, Fs, Inode, pure, panic, ◌>>=◌, ◌>>◌}
use liha_linux.Fs.Disk.{read_inode}
use liha_linux.Fs.Free.{change, get_inode, is_kind}
use liha_linux.Fs.Table.{get_empty_inode, iput, nr_inode}
use liha_linux.Fs.Dir.{find_entry, inode_of, permission}

-- The search of `iget`, from index `i` on, `n` left.
pub find_inode : (n i : ℕ) → (ℕ → Inode) → (dev nr : ℕ) → Option ℕ
find_inode zero i table dev nr = none
find_inode (suc n) i table dev nr =
    let rest = find_inode n (i + 1) table dev nr in
    if ((table i).i_dev == dev) && ((table i).i_num == nr) then some i else rest

abbrev pub count_up : ℕ → F (Unit {0})
count_up i = change i λ v. record v { i_count = v.i_count + 1 }

-- `iget`, without the step over a mount.
pub iget : (dev nr : ℕ) → F ℕ
unfolding find_inode
iget dev nr = if dev == 0 then panic else (do
  empty ← get_empty_inode
  found ← λ s. some (find_inode nr_inode 0 s.inode dev nr, s)
  elim found as (λ _. F ℕ) [
    | some i ↦ do count_up i; iput empty; pure i
    | none ↦ do change empty λ v. record v { i_dev = dev; i_num = nr }; read_inode empty; pure empty
  ])

-- The bytes up to the next `/`, and what is behind it if there is one.
pub next_name : List ℕ → List ℕ × Option (List ℕ)
next_name [] = ([], none)
next_name (c ∷ path) =
    let rest = next_name path in if c == 47 then ([], some path) else (c ∷ rest.0, rest.1)

-- The bytes behind the last `/`.
pub last_name : List ℕ → List ℕ → List ℕ
last_name base [] = base
last_name base (c ∷ path) = last_name (if c == 47 then path else base) path

abbrev pub is_dir : Inode → Bool
is_dir = is_kind 0x4000

abbrev pub may_exec : ℕ
may_exec = 1

abbrev pub may_write : ℕ
may_write = 2

-- `..` in the root of the process is `.`; the root of the device is mounted on itself.
abbrev pub as_name : ℕ → ℕ → List ℕ → List ℕ
as_name root dir (a ∷ b ∷ []) =
    if (dir == root) && ((a == 46) && (b == 46)) then 46 ∷ [] else a ∷ b ∷ []
as_name root dir name = name

-- What `current` holds: the task, `root` and `pwd`.
pub record Current : Type 0 where
  pub me : Task
  pub root : ℕ
  pub pwd : ℕ

module _ (c : Current) where
  -- The entry of a name, and the number of its inode.
  pub look_up : (dir : ℕ) → List ℕ → F (Option ((ℕ × ℕ) × ℕ))
  look_up dir name = do
    entry ← find_entry dir (as_name c.root dir name)
    elim entry as (λ _. F (Option ((ℕ × ℕ) × ℕ))) [
      | none ↦ pure none
      | some p ↦ λ s. some (some (p, inode_of (s.word p.0) p.1), s)
    ]

  abbrev pub give_up : ℕ → F (Option ℕ)
  give_up i = do iput i; pure none

  -- The loop of `get_dir`, over at most `n` names.
  pub walk_dir : (n i : ℕ) → List ℕ → F (Option ℕ)
  unfolding look_up next_name
  walk_dir zero i path = pure none
  walk_dir (suc n) i path = do
    v ← get_inode i
    let (name, behind) = next_name path in
        if not (is_dir v) || not (permission c.me v may_exec)
        then give_up i
        else elim behind as (λ _. F (Option ℕ)) [
          | none ↦ pure (some i)
          | some rest ↦ do
            entry ← look_up i name
            elim entry as (λ _. F (Option ℕ)) [
              | none ↦ give_up i
              | some p ↦ do iput i; next ← iget v.i_dev p.1; walk_dir n next rest
            ]
        ]

  -- A path has at most as many names as bytes, and one.
  pub get_dir : List ℕ → F (Option ℕ)
  unfolding walk_dir
  get_dir path = do
    root ← get_inode c.root
    pwd ← get_inode c.pwd
    if (root.i_count == 0) || (pwd.i_count == 0) then panic else elim path as (λ _. F (Option ℕ)) [
      | [] ↦ pure none
      | a ∷ rest ↦
          if a == 47
          then (do count_up c.root; walk_dir (length path + 1) c.root rest)
          else (do count_up c.pwd; walk_dir (length path + 1) c.pwd path)
    ]

  pub dir_namei : List ℕ → F (Option (ℕ × List ℕ))
  unfolding get_dir last_name
  dir_namei path = do dir ← get_dir path; pure (Option.map (λ i. (i, last_name path path)) dir)

  pub namei : List ℕ → F (Option ℕ)
  unfolding dir_namei look_up
  namei path = do
    found ← dir_namei path
    time ← λ s. some (s.current_time, s)
    elim found as (λ _. F (Option ℕ)) [
      | none ↦ pure none
      | some p ↦ do
        v ← get_inode p.0
        if length p.1 == 0 then pure (some p.0) else (do
          entry ← look_up p.0 p.1
          elim entry as (λ _. F (Option ℕ)) [
            | none ↦ give_up p.0
            | some q ↦ do
              iput p.0
              i ← iget v.i_dev q.1
              change i λ w. record w { i_atime = time; i_dirt = true }
              pure (some i)
          ])
    ]
