-- ===== src/Files/Tests.antt =====
-- Descriptors of a process that has one file open (fs/fcntl.c).
use liha_linux.Base.{◌==◌, [], arith, false, if◌then◌else◌, none, some, update, ℕ}
use liha_linux.Files.{Files, dupfd, sys_close}
use liha_linux.Files.Refs.{refs}
use liha_linux.Files.Counts.{Reach-Closes, IsCounted, Closes, Few, start, next, dup}

abbrev one_open : Files
one_open = record {
  file = λ f. record { f_flags = 0; f_count = if 3 == f then 1 else 0; f_inode = 9; f_pos = 0 };
  filp = update (λ _. none) 0 (some 3);
  close_on_exec = λ _. false;
  put = [];
}

nobody : ℕ → ℕ
nobody _ = 0

nobody-Few : Few nobody
unfolding nobody
nobody-Few f = omega arith

one_open-IsCounted : IsCounted nobody one_open
unfolding nobody refs
one_open-IsCounted f = ground arith

Reach-Closes_example :
    IsCounted nobody (dupfd 0 1 one_open).1
    × ((fd : ℕ) → Closes nobody (sys_close fd (dupfd 0 1 one_open).1))
Reach-Closes_example = Reach-Closes nobody nobody-Few one_open-IsCounted (next start (dup 0 1))
