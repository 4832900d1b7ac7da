-- ===== src/Tests/MainTests.antt =====
-- The whole program on a package with one shared object.
use kong_coco.Prelude.{Option, ◌++◌}
use kong_coco.Prelude.{ℕ, ◌≡◌, refl, false, none, some, List, [], ◌∷◌}
use kong_coco.Prelude.{
  Text, codes, list_eq, nat_eq, ◌==◌, list_beq, text_lt, ends_with, starts_with, lookup, insert,
  contains, is_substring, any, all, keep, All,
}
use kong_coco.Prelude.Sorting.{sorted}
use kong_coco.Result.{Error, Result, ok, err}
use kong_coco.Env.{Env}
use kong_coco.Explain.Info.{Info}
use kong_coco.Explain.Attributes.{attribute, has}
use kong_coco.Explain.Load.{Entry, file_info, elf_info}
use kong_coco.Expect.Operators.{equal}
use kong_coco.Config.Targets.{Targets, arm64, runnable}
use kong_coco.Main.{Args, World, check_args, gather_files, read_glob, run_suite, main, exit_status}
use kong_coco.Main.Manifest.{write_manifest}
use kong_coco.Expect.Script
use kong_coco.Main.Guards.{Accepted, main-directory, main-exit_zero}
use kong_coco.Main.Walk.{walk_files}
use kong_coco.Main.{Written, stdout}
use kong_coco.Main.Output.{Put, main-Put}
use kong_coco.Expect.State.{Chain}
use kong_coco.Main.Walk.Links.{IsUnlinked, walk_files-IsUnlinked}
use kong_coco.Tests.Samples.{env}
use kong_coco.Tests.LoadTests.{shared_object, text_file, link_to, quiet}

-- Every glob selects the shared objects.
abbrev any_so : Env
any_so = record env { glob_match = λ path globs. ends_with (codes ".so") path }

abbrev archive : List (Text × Entry)
archive =
    (codes "etc/kong.conf", text_file)
    ∷ (codes "lib/a.so", shared_object)
    ∷ (codes "lib/b.so", link_to (codes "a.so"))
    ∷ []

abbrev world : World
world = record {
  uid = 1000;
  is_dir = λ path. path == codes "/srv";
  extract = λ path. some (codes "/tmp/x");
  tree = λ path. archive;
  read_lines = λ path. ok (codes "**" ∷ []);
}

abbrev table : Targets
table =
    (
      codes "t",
      record { name = codes "Test"; manifest = none; use_rpath = false; tests = arm64 ∷ [] },
    )
    ∷ []

-- The arguments `--path PATH --suite SUITE`.
abbrev args_for : Text → Text → Args
args_for path suite = record {
  path = some path;
  image = none;
  output = none;
  suite = some suite;
  file_list = none;
  opts = quiet;
}

status : Text → ℕ
unfolding exit_status main check_args gather_files read_glob run_suite elf_info file_info
    write_manifest Script.exit_status walk_files attribute has contains is_substring text_lt
    list_beq keep lookup any equal all ends_with starts_with sorted insert runnable
status suite = exit_status any_so world table (args_for (codes "kong.deb") suite)

passes : status (codes "t") ≡ 0
unfolding status
passes = refl

unknown_suite : status (codes "u") ≡ 1
unfolding status
unknown_suite = refl

main-exit_zero_example :
    Accepted any_so world table (args_for (codes "kong.deb") (codes "t")) (codes "t")
unfolding status
main-exit_zero_example =
    main-exit_zero any_so world table (args_for (codes "kong.deb") (codes "t")) b't' [] refl refl

main-directory_example :
    ((e : Error) × (main any_so world table (args_for (codes "/srv") (codes "t")) ≡ err e))
    × (exit_status any_so world table (args_for (codes "/srv") (codes "t")) ≡ 1)
unfolding list_beq
main-directory_example =
    main-directory any_so world table (args_for (codes "/srv") (codes "t")) refl

abbrev infos_of : Result (List Info) → List Info
infos_of (ok infos) = infos
infos_of (err e) = []

walked : List Info
unfolding status
walked = infos_of (walk_files any_so (codes "/tmp/x") none archive)

walk_files-IsUnlinked_example : All IsUnlinked walked
unfolding walked
walk_files-IsUnlinked_example = walk_files-IsUnlinked any_so (codes "/tmp/x") none archive refl

abbrev printing : Args
printing = record (args_for (codes "kong.deb") []) { output = some (codes "-") }

run_printing : Result (Written × Option Chain)
unfolding main check_args gather_files read_glob run_suite elf_info file_info write_manifest
    Script.exit_status walk_files attribute has contains is_substring text_lt list_beq keep lookup
    any equal all ends_with starts_with sorted insert runnable
run_printing = main any_so world table printing

-- The manifest that is printed.
abbrev printed_manifest : Text
printed_manifest =
    codes "- Path      : /lib/a.so\n  Uid,Gid   : 0, 0\n  Mode      : 0o100644\n  Needed    :\n"
    ++ codes "  - libc.so.6\n  - libm.so.6\n  Rpath     : /new\n\n"

main-Put_example : Put any_so world table printing (codes "-") (stdout printed_manifest)
unfolding run_printing
main-Put_example =
    main-Put any_so world table printing b'-' [] (stdout printed_manifest) none refl refl
