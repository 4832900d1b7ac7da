-- ===== src/Main/Manifest.antt =====
-- `write_manifest`: the manifest of the files that the globs select.
pub mod Parts
use kong_coco.Prelude.{ℕ, ◌-◌, List, [], ◌∷◌, ◌++◌, Text, codes, length, if◌then◌else◌, zero, suc}
use kong_coco.Result.{Result, ok, ◌>>=◌}
use kong_coco.Env.{Env}
use kong_coco.Explain.Info.{Info, relpath_of}
use kong_coco.Explain.Lines.{ExplainOpts, Shown, one, many, Lines, explain}
use kong_coco.Expect.Chain.{glob_match_ignore_slash}

spaces : ℕ → Text
spaces zero = []
spaces (suc n) = b' ' ∷ spaces n

-- `"%-10s" % k`
pad : Text → Text
unfolding spaces
pad k = k ++ spaces (10 - length k)

-- `("\n" + " " * ident + "- ").join([""] + v)`
items : List Text → Text
items [] = []
items (v ∷ vs) = 10 ∷ (codes "  - " ++ (v ++ items vs))

show_value : Shown → Text
unfolding items
show_value (one v) = b' ' ∷ v
show_value (many vs) = items vs

-- `"%-10s:%s\n" % (k, v)`, behind its indentation
show_line : Text → Text × Shown → Text
unfolding pad show_value
show_line indent (k, v) = indent ++ (pad k ++ (b':' ∷ (show_value v ++ 10 ∷ [])))

other_lines : Lines → Text
unfolding show_line
other_lines [] = []
other_lines (l ∷ ls) = show_line (codes "  ") l ++ other_lines ls

-- The entries of one file: the first one is marked.
unfoldable pub show_lines : Lines → Text
unfolding other_lines
show_lines [] = 10 ∷ []
show_lines (l ∷ ls) = show_line (codes "- ") l ++ (other_lines ls ++ 10 ∷ [])

module _ (env : Env) (globs : List Text) (opts : ExplainOpts) where
  -- `write_manifest(title, results, globs, opts)`, before the text is encoded
  unfoldable pub write_manifest : List Info → Result Text
  unfolding show_lines explain glob_match_ignore_slash relpath_of
  write_manifest [] = ok []
  write_manifest (result ∷ results) =
      let rest = write_manifest results in
      if glob_match_ignore_slash env (relpath_of result) globs
      then (do entries ← explain opts result; more ← rest; ok (show_lines entries ++ more))
      else rest
