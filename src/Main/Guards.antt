-- ===== src/Main/Guards.antt =====
-- Which calls of the program can succeed.
use kong_coco.Prelude.{
  ℕ, ◌≡◌, ◌≢◌, refl, ◌∙◌, sym, ap, inl, inr, true, Option, none, some, List, [], ◌∷◌,
}
use kong_coco.Prelude.{Text, list_eq, nat_eq, lookup, if◌then◌else◌}
use kong_coco.Result.{Error, ok, err, >>=-eq-ok, ok-injective, Result-cases}
use kong_coco.Utf8.Encoding.{encode}
use kong_coco.Env.{Env}
use kong_coco.Explain.Info.{Info}
use kong_coco.Expect.State.{Chain, ExpectSuite}
use kong_coco.Expect.Script.{verify}
use kong_coco.Expect.Script.Exit.{all_failures-of_exit}
use kong_coco.Config.Targets.{Test, Targets, runnable}
use kong_coco.Main.Walk.{walk_files}
use kong_coco.Main.Manifest.{write_manifest}
use kong_coco.Main.{
  Args, World, Written, given, is_dir_path, check_target, check_source, check_root, check_archive,
  check_args, gather_files, read_glob, write_output, verify_suite, run_suite, main, status_of,
  exit_status,
}

check_archive-directory :
    (w : World) (args : Args) → is_dir_path w.is_dir args.path ≡ true → check_archive w args ≢ ok tt
unfolding check_archive
check_archive-directory w args h p = cc (rw h at p)

check_args-directory :
    (w : World) (args : Args) → is_dir_path w.is_dir args.path ≡ true → check_args w args ≢ ok tt
unfolding check_args
check_args-directory w args h p =
    let (_, _, p₁) = >>=-eq-ok (check_target args) _ p in
    let (_, _, p₂) = >>=-eq-ok (check_source args) _ p₁ in
    let (_, _, p₃) = >>=-eq-ok (check_root w args) _ p₂ in check_archive-directory w args h p₃

module _ (env : Env) (w : World) (targets : Targets) where
  -- What a run has come to, step by step.
  pub record Ran (args : Args) (written : Written) (chain : Option Chain) : Type 0 where
    pub directory : Text
    pub globs : List Text
    pub infos : List Info
    pub text : Text
    pub manifest : List ℕ
    pub checked : check_args w args ≡ ok tt
    pub gathered : gather_files w args.path args.image ≡ ok directory
    pub walked :
        walk_files env directory (if given args.image then some globs else none) (w.tree directory)
        ≡ ok infos
    pub explained : write_manifest env globs args.opts infos ≡ ok text
    pub encoded : encode text ≡ ok manifest
    pub verified : run_suite env w targets args.suite infos manifest ≡ ok chain
    pub put : write_output args.output manifest ≡ ok written

  pub main-Ran :
      (args : Args) {written : Written} {chain : Option Chain}
      → main env w targets args ≡ ok (written, chain)
      → Ran args written chain
  unfolding main
  main-Ran args h =
      let (_, checked, h₁) = >>=-eq-ok (check_args w args) _ h in
      let (directory, gathered, h₂) = >>=-eq-ok (gather_files w args.path args.image) _ h₁ in
      let (globs, _, h₃) = >>=-eq-ok (read_glob w args.file_list) _ h₂ in
      let (infos, walked, h₄) = >>=-eq-ok (walk_files env directory _ (w.tree directory)) _ h₃ in
      let (text, explained, h₅) = >>=-eq-ok (write_manifest env globs args.opts infos) _ h₄ in
      let (manifest, encoded, h₆) = >>=-eq-ok (encode text) _ h₅ in
      let (chain, verified, h₇) =
        >>=-eq-ok (run_suite env w targets args.suite infos manifest) _ h₆ in
      let (written, put, h₈) = >>=-eq-ok (write_output args.output manifest) _ h₇ in
      record {
        directory = directory;
        globs = globs;
        infos = infos;
        text = text;
        manifest = manifest;
        checked = checked;
        gathered = gathered;
        walked = walked;
        explained = explained;
        encoded = encoded;
        verified = verified ∙ ap ok (ap (λ p. p.1) (ok-injective h₈));
        put = put ∙ ap ok (ap (λ p. p.0) (ok-injective h₈));
      }

  -- With a directory as its path the program raises and ends with status 1, whatever else it is
  -- given.
  pub main-directory :
      (args : Args)
      → is_dir_path w.is_dir args.path ≡ true
      → ((e : Error) × (main env w targets args ≡ err e)) × (exit_status env w targets args ≡ 1)
  unfolding exit_status
  main-directory args h = elim (Result-cases (main env w targets args)) [
    | inr (e, p) ↦ ((e, p), rw (p, status_of))
    | inl ((written, chain), p) ↦ absurd (check_args-directory w args h ((main-Ran args p).checked))
  ]

  verify_suite-eq-ok :
      (o : Option (ExpectSuite Test)) (name : Text) (infos : List Info) (manifest : Text)
      {chain : Option Chain}
      → verify_suite env w targets o name infos manifest ≡ ok chain
      → (suite : ExpectSuite Test) × (c : Chain) × (o ≡ some suite)
        × (verify env (runnable suite) infos manifest ≡ ok c)
        × (chain ≡ some c)
  unfolding verify_suite
  verify_suite-eq-ok none name infos manifest h = cc
  verify_suite-eq-ok (some suite) name infos manifest h =
      let (c, p, q) = >>=-eq-ok (verify env (runnable suite) infos manifest) _ h in
      (suite, c, refl, p, sym (ok-injective q))

  -- What a run under a suite that ends with status 0 has checked: the files that were walked
  -- over, and the manifest made of them.
  pub record Accepted (args : Args) (name : Text) : Type 0 where
    pub suite : ExpectSuite Test
    pub chain : Chain
    pub directory : Text
    pub globs : List Text
    pub infos : List Info
    pub text : Text
    pub manifest : List ℕ
    pub known : lookup name targets ≡ some suite
    pub gathered : gather_files w args.path args.image ≡ ok directory
    pub walked :
        walk_files env directory (if given args.image then some globs else none) (w.tree directory)
        ≡ ok infos
    pub explained : write_manifest env globs args.opts infos ≡ ok text
    pub encoded : encode text ≡ ok manifest
    pub verified : verify env (runnable suite) infos manifest ≡ ok chain
    pub clean : chain.all_failures ≡ []

  all_failures-of_status :
      (written : Written) {chain : Option Chain} {c : Chain}
      → chain ≡ some c
      → status_of env w targets (ok (written, chain)) ≡ 0
      → c.all_failures ≡ []
  unfolding status_of
  all_failures-of_status written {chain} {c} t s = all_failures-of_exit c (rw (t, status_of) at s)

  run_suite-verify_suite :
      (b : ℕ) (name : Text) {o : Option Text} (infos : List Info) (manifest : Text)
      {chain : Option Chain}
      → o ≡ some (b ∷ name)
      → run_suite env w targets o infos manifest ≡ ok chain
      → verify_suite env w targets (lookup (b ∷ name) targets) (b ∷ name) infos manifest ≡ ok chain
  unfolding run_suite
  run_suite-verify_suite b name infos manifest e v = rw (e, run_suite) at v

  -- Under --suite the program ends with status 0 only if the suite is one of the targets, and its
  -- checks of the files that were walked over and of the manifest made of them all ran and left no
  -- failure on record.
  pub main-exit_zero :
      (args : Args) (b : ℕ) (name : Text)
      → args.suite ≡ some (b ∷ name)
      → exit_status env w targets args ≡ 0
      → Accepted args (b ∷ name)
  unfolding exit_status
  main-exit_zero args b name e h = elim (Result-cases (main env w targets args)) [
    | inr (m, p) ↦ cc (rw (p, status_of) at h)
    | inl ((written, chain), p) ↦
        let r = main-Ran args p in
        let (suite, c, known, q, t) =
          verify_suite-eq-ok (lookup (b ∷ name) targets) (b ∷ name) r.infos r.manifest
            (run_suite-verify_suite b name r.infos r.manifest e r.verified) in
        record {
          suite = suite;
          chain = c;
          directory = r.directory;
          globs = r.globs;
          infos = r.infos;
          text = r.text;
          manifest = r.manifest;
          known = known;
          gathered = r.gathered;
          walked = r.walked;
          explained = r.explained;
          encoded = r.encoded;
          verified = q;
          clean = all_failures-of_status written t (rw p at h);
        }
  ]
