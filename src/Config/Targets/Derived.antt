-- ===== src/Config/Targets/Derived.antt =====
-- The suites for arm64 against those that they are made from.
use kong_coco.Prelude.{
  ◌≡◌, refl, sym, ◌∙◌, ap, inl, inr, Bool, true, false, List, [], ◌∷◌, ◌++◌, map, Text, codes,
  list_eq, nat_eq, ◌==◌, ◌&&◌, Bool-cases, Option-cases, lookup, insert, lookup-insert, All,
  contains,
}
use kong_coco.Result.{ok, >>=-eq-ok, ok-injective}
use kong_coco.Expect.State.{ExpectSuite}
use kong_coco.Suites.Libc.{arm64_suites}
use kong_coco.Config.Targets.{
  Test, common, libc_libcpp, arm64, docker, script, runnable, Targets, replace, family, families,
  add_arm64, derive, derived, populate,
}

abbrev pub is_arm64 : Test → Bool
is_arm64 arm64 = true
is_arm64 _ = false

abbrev pub IsNot64 : Test → Type 0
IsNot64 t = is_arm64 t ≡ false

add_arm64-append : (ts : List Test) → All IsNot64 ts → add_arm64 ts ≡ ts ++ arm64 ∷ []
unfolding add_arm64
add_arm64-append [] a = refl
add_arm64-append (arm64 ∷ ts) (n, a) = cc
add_arm64-append (common b ∷ ts) (n, a) = ap (λ l. common b ∷ l) (add_arm64-append ts a)
add_arm64-append (libc_libcpp x y z ∷ ts) (n, a) =
    ap (λ l. libc_libcpp x y z ∷ l) (add_arm64-append ts a)
add_arm64-append (docker ∷ ts) (n, a) = ap (λ l. docker ∷ l) (add_arm64-append ts a)

map-append : {A B : Type 0} (f : A → B) (xs ys : List A) → map f (xs ++ ys) ≡ map f xs ++ map f ys
map-append f [] ys = refl
map-append f (x ∷ xs) ys = ap (λ l. f x ∷ l) (map-append f xs ys)

-- The suite derived for arm64 from one that has no arm64_suites runs the test functions of that
-- one, in their order and with their arguments, and behind them arm64_suites.
pub derive-runnable :
    (target : Text) (e : ExpectSuite Test) {e' : ExpectSuite Test}
    → All IsNot64 e.tests
    → derive target e ≡ ok e'
    → (runnable e').tests ≡ (runnable e).tests ++ arm64_suites ∷ []
unfolding runnable script derive
derive-runnable target e {e'} a h = elim (Option-cases e.manifest) [
  | inl n ↦ cc (rw n at h)
  | inr (file, p) ↦
      ap (λ s. map script s.tests) (sym (ok-injective (rw p at h)))
      ∙ ap (map script) (add_arm64-append e.tests a)
      ∙ map-append script e.tests (arm64 ∷ [])
]

-- The name that the loop sets for a key.
abbrev pub arm64_name : Text → Text
arm64_name = replace (codes "-amd64") (codes "-arm64")

-- Where the loop that adds the suites for arm64 raises nothing, it leaves every entry whose name
-- is not that of a key of the listed families with -arm64 in the place of -amd64.
pub populate-lookup :
    (keys : List Text) (targets : Targets) (k : Text) {t : Targets}
    → All (λ key. (contains (family key) families && (k == arm64_name key)) ≡ false) keys
    → populate keys targets ≡ ok t
    → lookup k t ≡ lookup k targets
unfolding populate
populate-lookup [] targets k a h = ap (lookup k) (sym (ok-injective h))
populate-lookup (key ∷ keys) targets k (n, a) h =
    elim (Bool-cases (contains (family key) families)) [
      | inl t ↦
          let (e, _, q) =
            >>=-eq-ok (derived key targets) (λ e. populate keys (insert (arm64_name key) e targets))
              (rw t at h) in
          populate-lookup keys (insert (arm64_name key) e targets) k a q
          ∙ lookup-insert k (arm64_name key) e targets
          ∙ rw (rw t at n) refl
      | inr t ↦ populate-lookup keys targets k a (rw t at h)
    ]
