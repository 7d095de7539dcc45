-- ===== src/Tests/Seeds.antt =====
-- The seed of a session where no file can be read; what is outside is the number of open files.
use pal_ft.Base.{ℕ, ◌+◌, ◌-◌, ◌≡◌, refl, true, none, some, arith}
use pal_ft.SessionId.Seeding.{
  Sources, unknown, frequenc_safe_seeding, Counts, IsSeedOrExit, frequenc_safe_seeding_lem,
}

abbrev unreadable : Sources ℕ
unreadable = record {
  acquire_context = λ w. (true, w + 1);
  gen_random = λ w. (some 7, w);
  release_context = λ w. w - 1;
  getrandom = λ w. (some 7, w);
  time = λ w. (1700000000, w);
  fopen = λ w. (true, w + 1);
  fread = λ w. (none, w);
  fclose = λ w. w - 1;
}

abbrev open_files : ℕ → ℕ
open_files w = w

unreadable-Counts : Counts unreadable open_files
unreadable-Counts = record {
  acquired = λ w e. refl;
  not_acquired = λ w e. cc;
  generated = λ w. refl;
  released = λ w n e. omega (arith, e);
  drawn = λ w. refl;
  timed = λ w. refl;
  opened = λ w e. refl;
  not_opened = λ w e. cc;
  read = λ w. refl;
  closed = λ w n e. omega (arith, e);
}

frequenc_safe_seeding_lem_example :
    IsSeedOrExit (frequenc_safe_seeding unreadable unknown 3).0
    × ((frequenc_safe_seeding unreadable unknown 3).1 ≡ 3)
frequenc_safe_seeding_lem_example =
    frequenc_safe_seeding_lem unreadable open_files unknown 3 unreadable-Counts
