-- ===== src/Suites/Libc.antt =====
-- `libc_libcpp_suites` and `arm64_suites`
use kong_coco.Prelude.{Option, none, some, List, [], ◌∷◌, ◌++◌, Text, codes}
use kong_coco.Explain.Value.{Literal}
use kong_coco.Expect.Script.{Step, expect, attr, check, key, is_not}
use kong_coco.Suites.Common.{nginx, lit}

abbrev pub shared_objects : List Text
shared_objects = codes "**/*.so" ∷ []

-- `.version_requirement.key(library).is_not().greater_than(limit)`
unfoldable pub not_above : Text → Text → List Step
not_above library limit =
    attr (codes "version_requirement")
    ∷ key library
    ∷ is_not
    ∷ check (codes "greater_than") (Literal.str limit)
    ∷ []

unfoldable pub libc : Option Text → List Step
unfolding not_above
libc none = []
libc (some []) = []
libc (some (c ∷ s)) =
    let limit = codes "GLIBC_" ++ c ∷ s in
    expect shared_objects (codes "libc version is less than " ++ c ∷ s)
    ∷ (not_above (codes "libc.so.6") limit
        ++ (not_above (codes "libdl.so.2") limit
            ++ (not_above (codes "libpthread.so.0") limit ++ not_above (codes "librt.so.1") limit)))

unfoldable pub libcxx : Option Text → List Step
unfolding not_above
libcxx none = []
libcxx (some []) = []
libcxx (some (c ∷ s)) =
    expect shared_objects (codes "glibcxx version is less than " ++ c ∷ s)
    ∷ not_above (codes "libstdc++.so.6") (codes "GLIBCXX_" ++ c ∷ s)

unfoldable pub cxxabi : Option Text → List Step
unfolding not_above
cxxabi none = []
cxxabi (some []) = []
cxxabi (some (c ∷ s)) =
    expect shared_objects (codes "cxxabi version is less than " ++ c ∷ s)
    ∷ not_above (codes "libstdc++.so.6") (codes "CXXABI_" ++ c ∷ s)

-- `libc_libcpp_suites(expect, libc_max_version, libcxx_max_version, cxxabi_max_version)`
unfoldable pub libc_libcpp_suites : Option Text → Option Text → Option Text → List Step
unfolding libc libcxx cxxabi
libc_libcpp_suites libc_max_version libcxx_max_version cxxabi_max_version =
    libc libc_max_version ++ (libcxx libcxx_max_version ++ cxxabi cxxabi_max_version)

-- `arm64_suites(expect)`
unfoldable pub arm64_suites : List Step
arm64_suites =
    expect (codes "**/*/**.so*" ∷ []) (codes "Dynamic libraries are arm64 arch")
    ∷ attr (codes "arch")
    ∷ check (codes "equals") (lit "AARCH64")
    ∷ expect nginx (codes "Nginx is arm64 arch")
    ∷ attr (codes "arch")
    ∷ check (codes "equals") (lit "AARCH64")
    ∷ []
