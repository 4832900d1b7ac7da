-- ===== src/Config/Targets.antt =====
-- `targets`: the suites as they are written down, and those for arm64, made from them.
pub mod Table
pub mod Derived
pub mod Sound
pub mod Passes
use kong_coco.Prelude.{
  Bool, true, false, Option, none, some, List, [], ◌∷◌, ◌++◌, map, ◌-◌, zero, suc, ℕ,
}
use kong_coco.Prelude.{
  Text, codes, list_eq, nat_eq, ◌==◌, contains, insert, lookup, starts_with, length,
}
use kong_coco.Prelude.{if◌then◌else◌}
use kong_coco.Result.{Result, ok, err, attribute_error, key_error, ◌>>=◌}
use kong_coco.Expect.State.{ExpectSuite}
use kong_coco.Expect.Script.{Step}
use kong_coco.Suites.Common.{common_suites}
use kong_coco.Suites.Libc.{libc_libcpp_suites, arm64_suites}
use kong_coco.Suites.Docker.{docker_suites}

-- A test function with its keyword arguments, as an entry of `tests`.
pub data Test : Type 0 where
  common : Bool → Test
  libc_libcpp : Option Text → Option Text → Option Text → Test
  arm64 : Test
  docker : Test

-- `s(self.expect, **suite.tests[s])`
unfoldable pub script : Test → List Step
unfolding common_suites libc_libcpp_suites arm64_suites docker_suites
script (common libxcrypt_no_obsolete_api) = common_suites libxcrypt_no_obsolete_api
script (libc_libcpp libc libcxx cxxabi) = libc_libcpp_suites libc libcxx cxxabi
script arm64 = arm64_suites
script docker = docker_suites

-- A suite with its tests as scripts, as `run` takes it.
unfoldable pub runnable : ExpectSuite Test → ExpectSuite (List Step)
unfolding script
runnable suite = record {
  name = suite.name;
  manifest = suite.manifest;
  use_rpath = suite.use_rpath;
  tests = map script suite.tests;
}

abbrev pub Targets : Type 0
Targets = List (Text × ExpectSuite Test)

-- `s.replace(old, new)`, for an `old` with a first letter: `skip` counts what is left of a match.
replace_from : ℕ → Text → Text → Text → Text
unfolding starts_with
replace_from skip old new [] = []
replace_from (suc skip) old new (c ∷ s) = replace_from skip old new s
replace_from zero old new (c ∷ s) =
    let changed = new ++ replace_from (length old - 1) old new s in
    let kept = c ∷ replace_from zero old new s in if starts_with old (c ∷ s) then changed else kept

unfoldable pub replace : Text → Text → Text → Text
unfolding replace_from
replace = replace_from zero

-- `s.split("-")[0]`
unfoldable pub family : Text → Text
family [] = []
family (c ∷ s) = let rest = family s in if c == b'-' then [] else c ∷ rest

abbrev pub families : List Text
families = codes "alpine" ∷ codes "ubuntu" ∷ codes "debian" ∷ codes "amazonlinux" ∷ codes "el9" ∷ []

-- `e.tests[arm64_suites] = {}`
unfoldable pub add_arm64 : List Test → List Test
add_arm64 [] = arm64 ∷ []
add_arm64 (arm64 ∷ ts) = arm64 ∷ ts
add_arm64 (t ∷ ts) = t ∷ add_arm64 ts

-- The copy of a suite for arm64. A suite without a manifest has no `replace`.
unfoldable pub derive : Text → ExpectSuite Test → Result (ExpectSuite Test)
unfolding replace add_arm64
derive target e = elim e.manifest [
  | none ↦ err (attribute_error (codes "replace"))
  | some file ↦ ok (record {
    name = replace (codes "(amd64)") (codes "(arm64)") e.name;
    manifest = some (replace (codes "-amd64.txt") (codes "-arm64.txt") file);
    use_rpath = if target == codes "amazonlinux-2023-amd64" then true else e.use_rpath;
    tests = add_arm64 e.tests;
  })
]

-- `targets[target]`, copied and changed
unfoldable pub derived : Text → Targets → Result (ExpectSuite Test)
unfolding lookup derive
derived target targets = elim (lookup target targets) [
  | none ↦ err (key_error target)
  | some e ↦ derive target e
]

-- The loop over `list(targets.keys())`, over the keys that are left: those that it adds are not
-- among them.
unfoldable pub populate : List Text → Targets → Result Targets
unfolding derived family contains
populate [] targets = ok targets
populate (target ∷ rest) targets =
    let skipped = populate rest targets in
    let visited =
      (derived target targets >>= λ e.
      populate rest (insert (replace (codes "-amd64") (codes "-arm64") target) e targets)) in
    if contains (family target) families then visited else skipped
