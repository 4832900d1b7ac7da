-- ===== src/Main/Output.antt =====
-- What the program writes under --output.
use kong_coco.Prelude.{
  ℕ, ◌≡◌, refl, sym, ◌∙◌, inl, inr, true, Option, none, some, List, ◌∷◌, Text, codes, list_eq,
  nat_eq, ◌==◌, all, if◌then◌else◌, Bool-cases,
}
use kong_coco.Result.{ok, err, encode_error, ok-injective}
use kong_coco.Utf8.Encoding.{is_scalar, utf8, encode}
use kong_coco.Utf8.RoundTrip.{decode_strict-utf8}
use kong_coco.Env.{Env}
use kong_coco.Explain.Info.{Info}
use kong_coco.Expect.State.{Chain}
use kong_coco.Config.Targets.{Targets}
use kong_coco.Main.Walk.{walk_files}
use kong_coco.Main.Manifest.{write_manifest}
use kong_coco.Main.Guards.{main-Ran}
use kong_coco.Main.{Args, World, Written, stdout, file, given, write_output, main}

-- A text that was encoded holds no surrogate, and its bytes are known.
encode-eq-ok :
    (t : Text) (bytes : List ℕ) → encode t ≡ ok bytes → (all is_scalar t ≡ true) × (bytes ≡ utf8 t)
unfolding encode
encode-eq-ok t bytes h = elim (Bool-cases (all is_scalar t)) [
  | inl e ↦ (e, sym (ok-injective (rw e at h)))
  | inr e ↦ absurd (refused (rw e at h))
]
  where
    refused : {bytes : List ℕ} → err encode_error ≡ ok bytes → ⊥
    refused h = cc

-- Where the text of a manifest goes, under an argument of --output.
unfoldable pub destination : Text → Text → Written
destination path text = if path == codes "-" then stdout text else file path (utf8 text)

write_output-utf8 :
    (c : ℕ) (path text : Text)
    → all is_scalar text ≡ true
    → write_output (some (c ∷ path)) (utf8 text) ≡ ok (destination (c ∷ path) text)
unfolding write_output destination
write_output-utf8 c path text h = elim (Bool-cases ((c ∷ path) == codes "-")) [
  | inl t ↦ rw (t, decode_strict-utf8 text h) refl
  | inr t ↦ rw t refl
]

module _ (env : Env) (w : World) (targets : Targets) where
  -- The manifest of the files that were walked over, and where it went.
  pub record Put (args : Args) (path : Text) (written : Written) : Type 0 where
    pub directory : Text
    pub globs : List Text
    pub infos : List Info
    pub text : Text
    pub walked :
        walk_files env directory (if given args.image then some globs else none) (w.tree directory)
        ≡ ok infos
    pub explained : write_manifest env globs args.opts infos ≡ ok text
    pub encodable : all is_scalar text ≡ true
    pub went : written ≡ destination path text

  put_at :
      (c : ℕ) (path text : Text) {o : Option Text} {bytes : List ℕ} {written : Written}
      → o ≡ some (c ∷ path)
      → (all is_scalar text ≡ true) × (bytes ≡ utf8 text)
      → write_output o bytes ≡ ok written
      → written ≡ destination (c ∷ path) text
  put_at c path text e (h, k) p = ok-injective (sym p ∙ rw (e, k) (write_output-utf8 c path text h))

  -- Under --output a run that raises nothing has made the manifest of the files that it walked
  -- over, no surrogate stands in it, and it went as text to standard output where the argument is
  -- a dash, and in UTF-8 into the file of that name otherwise.
  pub main-Put :
      (args : Args) (c : ℕ) (path : Text) (written : Written) (chain : Option Chain)
      → args.output ≡ some (c ∷ path)
      → main env w targets args ≡ ok (written, chain)
      → Put args (c ∷ path) written
  main-Put args c path written chain e h =
      let r = main-Ran env w targets args h in
      let known = encode-eq-ok r.text r.manifest r.encoded in
      record {
        directory = r.directory;
        globs = r.globs;
        infos = r.infos;
        text = r.text;
        walked = r.walked;
        explained = r.explained;
        encodable = known.0;
        went = put_at c path r.text e known r.put;
      }
