-- ===== src/Config/Transform/Settles.antt =====
-- Showing the expected rpath a second time changes nothing.
use mathlib.Core.Path.{subst}
use kong_coco.Prelude.{
  ◌≡◌, refl, sym, ◌∙◌, inl, inr, Bool, true, false, some, [], ◌∷◌, Text, list_eq, nat_eq,
  nat_beq_iff, ◌&&◌, starts_with, is_substring, list_beq, ends_with, ap, codes, Bool-cases,
}
use kong_coco.Result.{Result, ok, ◌>>=◌, >>=-eq-ok, ok-injective}
use kong_coco.Env.{Env}
use kong_coco.Explain.Info.{FileInfo, ElfInfo, Info, plain, elf, nginx, base}
use kong_coco.Config.Transform.{
  change, mentions, normalize, on_elf, kong_rpath, wasm_rpath, libxslt_globs, transform,
}

starts_with_self : (s : Text) → starts_with s s ≡ true
unfolding starts_with list_beq
starts_with_self [] = refl
starts_with_self (c ∷ s) = rw ((nat_beq_iff c c).1 refl) (starts_with_self s)

is_substring_self : (s : Text) → is_substring s s ≡ true
unfolding is_substring starts_with list_beq
is_substring_self [] = refl
is_substring_self (c ∷ s) = rw (starts_with_self (c ∷ s)) refl

mentions_self : (s : Text) → mentions s (some s) ≡ true
unfolding mentions
mentions_self s = is_substring_self s

normalize_idempotent :
    (expected : Text) (e : ElfInfo)
    → normalize expected (normalize expected e) ≡ normalize expected e
unfolding normalize
normalize_idempotent expected e = elim (Bool-cases (mentions expected e.rpath)) [
  | inl t ↦ rw (t, mentions_self expected) refl
  | inr t ↦ elim (Bool-cases (mentions expected e.runpath)) [
    | inl u ↦ rw (t, u, t, mentions_self expected) refl
    | inr u ↦ rw (t, u, t, u) refl
  ]
]

-- One block, run again on what it made, changes nothing, and it leaves the general attributes.
change-settles :
    (applies : Bool) (expected : Text) (i : Info) {j : Info}
    → change applies expected i ≡ ok j
    → (change applies expected j ≡ ok j) × (base j ≡ base i)
unfolding change on_elf base
change-settles false expected i h = (refl, ap base (sym (ok-injective h)))
change-settles true expected (plain f) h = cc
change-settles true expected (elf f e) h =
    rw (← ok-injective h) (ap (λ e'. ok (elf f e')) (normalize_idempotent expected e), refl)
change-settles true expected (nginx f e n) h =
    rw (← ok-injective h) (ap (λ e'. ok (nginx f e' n)) (normalize_idempotent expected e), refl)

-- The two blocks, of which one does not apply.
changes-settle :
    (a b : Bool) (p q : Text) (i : Info) {j : Info}
    → (a && b) ≡ false
    → change a p i >>= change b q ≡ ok j
    → (change a p j >>= change b q ≡ ok j) × (base j ≡ base i)
unfolding change
changes-settle true true p q i e h = cc
changes-settle false b p q i e h = change-settles b q i h
changes-settle true false p q i {j} e h =
    let (k, s, t) = >>=-eq-ok (change true p i) (change false q) h in
    let (u, v) = change-settles true p i s in
    subst (λ l. (change true p l >>= change false q ≡ ok l) × (base l ≡ base i)) (ok-injective t)
      (ap (λ r. r >>= change false q) u, v)

module _ (env : Env) where
  abbrev pub is_libxslt : Text → Bool
  is_libxslt path = env.glob_match path libxslt_globs

  abbrev pub is_wasm : Text → Bool
  is_wasm path = ends_with (codes "/modules/ngx_wasm_module.so") path

  abbrev changed_at : Text → Info → Result Info
  changed_at path i = change (is_libxslt path) kong_rpath i >>= change (is_wasm path) wasm_rpath

  transform-changed_at : (i : Info) → transform env i ≡ changed_at (base i).path i
  unfolding transform change
  transform-changed_at i = refl

  -- Where transform raises nothing on a file that is not both a libxslt library and the wasm
  -- module, it leaves the general attributes, and transforming the result again changes nothing.
  pub transform_idempotent :
      (i : Info) {j : Info}
      → (is_libxslt (base i).path && is_wasm (base i).path) ≡ false
      → transform env i ≡ ok j
      → (transform env j ≡ ok j) × (base j ≡ base i)
  transform_idempotent i {j} e h =
      let path = (base i).path in
      let (p, q) =
        changes-settle (is_libxslt path) (is_wasm path) kong_rpath wasm_rpath i e
          (sym (transform-changed_at i) ∙ h) in
      (transform-changed_at j ∙ ap (λ (f : FileInfo). changed_at f.path j) q ∙ p, q)
