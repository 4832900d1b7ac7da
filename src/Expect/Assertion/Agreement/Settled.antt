-- ===== src/Expect/Assertion/Agreement/Settled.antt =====
-- The chain's state against what the calls of a script have settled.
use kong_coco.Prelude.{◌≡◌, refl, ◌∙◌, ap, Bool, true, false, none, some, List}
use kong_coco.Prelude.{Text, arith, list_eq, nat_eq, is_empty}
use kong_coco.Env.{Env}
use kong_coco.Explain.Info.{Info}
use kong_coco.Expect.State.{Chain, reset, print_result, print_title}
use kong_coco.Expect.Compare
use kong_coco.Expect.Chain
use kong_coco.Expect.Chain.{verbs, verb_of, rpath_name, getattr, set_attribute, then_self}
use kong_coco.Expect.Script.Checked.{Checked, exist-Checked}
use kong_coco.Expect.Assertion.{Context, fresh, about, selected}

pub some-injective : {A : Type 0} {a b : A} → some a ≡ some b → a ≡ b
some-injective h = cc

module _ (env : Env) where
  pub all_failures-expect :
      (globs : List Text) (msg : Text) (c : Chain)
      → (Chain.expect env globs msg c).all_failures ≡ c.all_failures
  unfolding Chain.expect print_result print_title reset
  all_failures-expect globs msg c = ground arith

  pub infos-expect :
      (globs : List Text) (msg : Text) (c : Chain) → (Chain.expect env globs msg c).infos ≡ c.infos
  unfolding Chain.expect print_result print_title reset
  infos-expect globs msg c = ground arith

  suite-expect :
      (globs : List Text) (msg : Text) (c : Chain) → (Chain.expect env globs msg c).suite ≡ c.suite
  unfolding Chain.expect print_result print_title reset
  suite-expect globs msg c = ground arith

  reverse-expect :
      (globs : List Text) (msg : Text) (c : Chain)
      → (Chain.expect env globs msg c).logical_reverse ≡ false
  unfolding Chain.expect print_result print_title reset
  reverse-expect globs msg c = ground arith

  files-expect :
      (globs : List Text) (msg : Text) (c : Chain)
      → (Chain.expect env globs msg c).files ≡ selected env c.infos globs
  unfolding Chain.expect
  files-expect globs msg c = ap (λ l. selected env l globs) (infos-expect globs msg c)

module _ (env : Env) (infos : List Info) (use_rpath : Bool) where
  -- The chain's state stands for what the calls so far have settled.
  pub record Settled (ctx : Context) (c : Chain) : Type 0 where
    pub same_infos : c.infos ≡ infos
    pub suite : c.suite ≡ some use_rpath
    pub files : c.files ≡ selected env infos ctx.globs
    pub path_glob : c.path_glob ≡ ctx.globs
    pub reverse : c.logical_reverse ≡ ctx.reverse
    pub subject :
        (name : Text)
        → ctx.attr ≡ some name
        → (c.last_attribute ≡ some name) × (is_empty name ≡ false) × (c.key_name ≡ ctx.key)

  pub Settled-expect :
      (globs : List Text) (msg : Text) (c : Chain)
      → c.infos ≡ infos
      → c.suite ≡ some use_rpath
      → Settled (fresh globs) (Chain.expect env globs msg c)
  Settled-expect globs msg c i u = record {
    same_infos = infos-expect env globs msg c ∙ i;
    suite = suite-expect env globs msg c ∙ u;
    files = files-expect env globs msg c ∙ ap (λ l. selected env l globs) i;
    path_glob = unfold Chain.expect in refl;
    reverse = reverse-expect env globs msg c;
    subject = λ s e. cc;
  }

  pub Settled-about :
      (name subject : Text) {ctx : Context} (c : Chain)
      → is_empty subject ≡ false
      → Settled ctx c
      → Settled
          (about subject ctx)
          (record c { last_attribute = some subject; logical_reverse = false; key_name = none })
  Settled-about name subject c n h = record {
    same_infos = h.same_infos;
    suite = h.suite;
    files = h.files;
    path_glob = h.path_glob;
    reverse = refl;
    subject = λ s e. (e, rw (some-injective e) at n, refl);
  }

  pub Settled-Checked :
      {ctx : Context} {c c' : Chain} → Checked c c' → Settled ctx c → Settled ctx c'
  Settled-Checked k h = record {
    same_infos = k.infos ∙ h.same_infos;
    suite = k.suite ∙ h.suite;
    files = k.files ∙ h.files;
    path_glob = k.path_glob ∙ h.path_glob;
    reverse = k.logical_reverse ∙ h.reverse;
    subject = λ s e. let (p, n, q) = h.subject s e in (k.last_attribute ∙ p, n, k.key_name ∙ q);
  }

  pub Settled-exist : {ctx : Context} (c : Chain) → Settled ctx c → Settled ctx (Compare.exist c)
  Settled-exist c h = Settled-Checked (exist-Checked c) h

  pub Settled-key :
      (name : Text) {ctx : Context} (c : Chain)
      → Settled ctx c
      → Settled (record ctx { key = some name }) (Chain.key name c)
  unfolding Chain.key
  Settled-key name c h = record {
    same_infos = h.same_infos;
    suite = h.suite;
    files = h.files;
    path_glob = h.path_glob;
    reverse = h.reverse;
    subject = λ s e. let (p, n, _) = h.subject s e in (p, n, refl);
  }

  pub Settled-do_not :
      {ctx : Context} (c : Chain)
      → Settled ctx c
      → Settled (record ctx { reverse = true }) (Chain.do_not c)
  unfolding Chain.do_not
  Settled-do_not c h = record {
    same_infos = h.same_infos;
    suite = h.suite;
    files = h.files;
    path_glob = h.path_glob;
    reverse = refl;
    subject = h.subject;
  }
