-- ===== src/Main/Manifest/Parts.antt =====
-- The manifest of a package from those of its parts.
use mathlib.Core.List.{append_assoc}
use kong_coco.Prelude.{
  ◌≡◌, refl, sym, ◌∙◌, ap, inl, inr, List, [], ◌∷◌, ◌++◌, Text, Bool-cases, if◌then◌else◌,
}
use kong_coco.Result.{Result, ok, err, ◌>>=◌, Result-cases}
use kong_coco.Env.{Env}
use kong_coco.Explain.Info.{Info, relpath_of}
use kong_coco.Explain.Lines.{ExplainOpts, explain}
use kong_coco.Expect.Chain.{glob_match_ignore_slash}
use kong_coco.Main.Manifest.{show_lines, write_manifest}

-- Two texts, one behind the other, or what the first of them to raise raises.
abbrev pub joined : Result Text → Result Text → Result Text
joined r s = r >>= λ a. s >>= λ b. ok (a ++ b)

joined_assoc : (r s t : Result Text) → joined (joined r s) t ≡ joined r (joined s t)
joined_assoc (err e) s t = refl
joined_assoc (ok a) (err e) t = refl
joined_assoc (ok a) (ok b) (err e) = refl
joined_assoc (ok a) (ok b) (ok c) = ap ok (append_assoc a b c)

joined-nil : (r : Result Text) → joined (ok []) r ≡ r
joined-nil (err e) = refl
joined-nil (ok a) = refl

module _ (env : Env) (globs : List Text) (opts : ExplainOpts) where
  -- The part of one file.
  abbrev part : Info → Result Text
  part i =
      if glob_match_ignore_slash env (relpath_of i) globs
      then (explain opts i >>= λ entries. ok (show_lines entries))
      else ok []

  write_manifest-part :
      (i : Info) (l : List Info)
      → write_manifest env globs opts (i ∷ l) ≡ joined (part i) (write_manifest env globs opts l)
  unfolding write_manifest
  write_manifest-part i l = elim (Bool-cases (glob_match_ignore_slash env (relpath_of i) globs)) [
    | inl t ↦ elim (Result-cases (explain opts i)) [
      | inl (entries, e) ↦ rw (t, e) refl
      | inr (m, e) ↦ rw (t, e) refl
    ]
    | inr t ↦ rw t (sym (joined-nil (write_manifest env globs opts l)))
  ]

  -- The manifest of two lists of files, one behind the other, is that of the first and behind it
  -- that of the second, or what the first of them to raise raises.
  pub write_manifest-append :
      (xs ys : List Info)
      → write_manifest env globs opts (xs ++ ys)
        ≡ joined (write_manifest env globs opts xs) (write_manifest env globs opts ys)
  write_manifest-append [] ys =
      unfold write_manifest in sym (joined-nil (write_manifest env globs opts ys))
  write_manifest-append (x ∷ xs) ys =
      write_manifest-part x (xs ++ ys)
      ∙ ap (joined (part x)) (write_manifest-append xs ys)
      ∙ sym (
          joined_assoc (part x) (write_manifest env globs opts xs)
            (write_manifest env globs opts ys))
      ∙ ap (λ r. joined r (write_manifest env globs opts ys)) (sym (write_manifest-part x xs))
