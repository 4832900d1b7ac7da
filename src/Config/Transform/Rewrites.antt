-- ===== src/Config/Transform/Rewrites.antt =====
-- What `transform` makes of a file, by where the expected path stands in its rpaths.
use mathlib.Core.Logic.{◌⊎◌}
use kong_coco.Prelude.{
  ◌≡◌, ◌↔◌, refl, sym, ap, ◌∙◌, inl, inr, Bool, true, false, Option, none, some, [], ◌∷◌, ◌++◌,
  Text, codes, nat_beq_iff, arith, list_eq, nat_eq, list_beq, list_beq_iff, starts_with,
  is_substring, ends_with, Bool-cases, ◌==◌,
}
use kong_coco.Result.{ok, ◌>>=◌, >>=-eq-ok, ok-injective}
use kong_coco.Env.{Env}
use kong_coco.Explain.Info.{ElfInfo, Info, plain, elf, nginx, base}
use kong_coco.Config.Transform.{
  mentions, normalize, on_elf, change, kong_rpath, wasm_rpath, transform,
}

-- The path `p` stands somewhere in an rpath that is set.
abbrev pub Mentions : Text → Option Text → Type 0
Mentions p none = ⊥
Mentions p (some r) = (before : Text) × (after : Text) × (r ≡ before ++ (p ++ after))

-- The RPATH that mentions `p` is `p` now; only where it does not, a RUNPATH that does is `p` now.
-- All else stays.
abbrev pub Rewritten : Text → ElfInfo → ElfInfo → Type 0
Rewritten p e e' =
    (Mentions p e.rpath × (e' ≡ record e { rpath = some p }))
    ⊎ ((¬ Mentions p e.rpath)
        × ((Mentions p e.runpath × (e' ≡ record e { runpath = some p }))
            ⊎ ((¬ Mentions p e.runpath) × (e' ≡ e))))

-- A file to which the expected path `p` applies, or does not.
abbrev pub Shows : Bool → Text → Info → Info → Type 0
Shows false p i j = j ≡ i
Shows true p (plain f) j = ⊥
Shows true p (elf f e) j = (e' : ElfInfo) × Rewritten p e e' × (j ≡ elf f e')
Shows true p (nginx f e n) j = (e' : ElfInfo) × Rewritten p e e' × (j ≡ nginx f e' n)

starts_with-append : (p s : Text) → starts_with p (p ++ s) ≡ true
unfolding starts_with list_beq
starts_with-append [] [] = refl
starts_with-append [] (c ∷ s) = refl
starts_with-append (c ∷ p) s = rw ((nat_beq_iff c c).1 refl) (starts_with-append p s)

starts_with-true : (p s : Text) → starts_with p s ≡ true → (after : Text) × (s ≡ p ++ after)
unfolding starts_with list_beq
starts_with-true [] s h = (s, refl)
starts_with-true (b ∷ p) [] h = cc
starts_with-true (b ∷ p) (c ∷ s) h = elim (Bool-cases (b == c)) [
  | inl t ↦
      let (after, e) = starts_with-true p s (ground (arith, h, t)) in
      (after, cc ((nat_beq_iff b c).0 t, e))
  | inr t ↦ absurd (ground (arith, h, t))
]

is_substring-start : (p s : Text) → starts_with p s ≡ true → is_substring p s ≡ true
unfolding is_substring starts_with
is_substring-start p [] h = h
is_substring-start p (c ∷ s) h = rw h refl

is_substring-append : (before p after : Text) → is_substring p (before ++ (p ++ after)) ≡ true
unfolding is_substring
is_substring-append [] p after = is_substring-start p (p ++ after) (starts_with-append p after)
is_substring-append (c ∷ before) p after = rw (is_substring-append before p after) (ground arith)

is_substring-Mentions : (p s : Text) → is_substring p s ≡ true → Mentions p (some s)
unfolding is_substring list_beq
is_substring-Mentions p [] h = ([], [], ap (λ t. t ++ []) (sym ((list_beq_iff p []).0 h)))
is_substring-Mentions p (c ∷ s) h = elim (Bool-cases (starts_with p (c ∷ s))) [
  | inl t ↦ let (after, e) = starts_with-true p (c ∷ s) t in ([], after, e)
  | inr t ↦
      let (before, after, e) = is_substring-Mentions p s (ground (arith, h, t)) in
      (c ∷ before, after, ap (λ u. c ∷ u) e)
]

mentions-true : (p : Text) (r : Option Text) → mentions p r ≡ true → Mentions p r
unfolding mentions
mentions-true p none h = cc
mentions-true p (some r) h = is_substring-Mentions p r h

mentions-Mentions : (p : Text) (r : Option Text) → Mentions p r → mentions p r ≡ true
unfolding mentions
mentions-Mentions p none h = absurd h
mentions-Mentions p (some r) (before, after, e) = rw e (is_substring-append before p after)

mentions-false : (p : Text) (r : Option Text) → mentions p r ≡ false → ¬ Mentions p r
mentions-false p r h m = true-ne-false (sym (mentions-Mentions p r m) ∙ h)
  where
    true-ne-false : true ≡ false → ⊥
    true-ne-false e = cc

normalize-Rewritten : (p : Text) (e : ElfInfo) → Rewritten p e (normalize p e)
unfolding normalize
normalize-Rewritten p e = elim (Bool-cases (mentions p e.rpath)) [
  | inl t ↦ rw t (inl (mentions-true p e.rpath t, refl))
  | inr t ↦ elim (Bool-cases (mentions p e.runpath)) [
    | inl u ↦ rw (t, u) (inr (mentions-false p e.rpath t, inl (mentions-true p e.runpath u, refl)))
    | inr u ↦ rw (t, u) (inr (mentions-false p e.rpath t, inr (mentions-false p e.runpath u, refl)))
  ]
]

not_mentioned : (p : Text) (r : Option Text) → (¬ Mentions p r) → mentions p r ≡ false
not_mentioned p r n = elim (Bool-cases (mentions p r)) [
  | inl t ↦ absurd (n (mentions-true p r t))
  | inr t ↦ t
]

Rewritten-normalize : (p : Text) (e e' : ElfInfo) → Rewritten p e e' → normalize p e ≡ e'
unfolding normalize
Rewritten-normalize p e e' (inl (m, k)) = rw (mentions-Mentions p e.rpath m) (sym k)
Rewritten-normalize p e e' (inr (n, inl (m, k))) =
    rw (not_mentioned p e.rpath n, mentions-Mentions p e.runpath m) (sym k)
Rewritten-normalize p e e' (inr (n, inr (m, k))) =
    rw (not_mentioned p e.rpath n, not_mentioned p e.runpath m) (sym k)

change-Shows : (b : Bool) (p : Text) (i j : Info) → change b p i ≡ ok j ↔ Shows b p i j
unfolding change on_elf
change-Shows false p i j = (λ h. sym (ok-injective h), λ h. ap ok (sym h))
change-Shows true p (plain f) j = (λ h. cc h, λ h. absurd h)
change-Shows true p (elf f e) j = (
  λ h. (normalize p e, normalize-Rewritten p e, sym (ok-injective h)),
  λ (e', r, k). ap (λ x. ok (elf f x)) (Rewritten-normalize p e e' r) ∙ ap ok (sym k),
)
change-Shows true p (nginx f e n) j = (
  λ h. (normalize p e, normalize-Rewritten p e, sym (ok-injective h)),
  λ (e', r, k). ap (λ x. ok (nginx f x n)) (Rewritten-normalize p e e' r) ∙ ap ok (sym k),
)

module _ (env : Env) where
  -- The files whose rpath is rewritten.
  abbrev pub is_libxslt : Info → Bool
  is_libxslt i =
      env.glob_match (base i).path
        (codes "**/kong/lib/libxslt.so*" ∷ codes "**/kong/lib/libexslt.so*" ∷ [])

  abbrev pub is_wasm : Info → Bool
  is_wasm i = ends_with (codes "/modules/ngx_wasm_module.so") (base i).path

  -- What a file is shown as: first as a library of libxslt, then as the wasm module.
  abbrev pub Transformed : Info → Info → Type 0
  Transformed i j =
      (k : Info) × Shows (is_libxslt i) (codes "/usr/local/kong/lib") i k
      × Shows (is_wasm i)
          (codes "/usr/local/openresty/luajit/lib:/usr/local/kong/lib:/usr/local/openresty/lualib")
          k j

  -- transform returns j exactly where j is the file with these rewritings: of a libxslt library
  -- for the kong library path, then of the wasm module for its three paths, an RPATH that contains
  -- the path becomes the path, else a RUNPATH that contains it does, and all else of the file
  -- stays; so a file without such attributes is never returned where a rewriting applies, and any
  -- other file comes back as it is.
  pub transform-Transformed_iff : (i j : Info) → transform env i ≡ ok j ↔ Transformed i j
  unfolding transform change
  transform-Transformed_iff i j = (
    λ h.
        let (k, s, t) =
          >>=-eq-ok (change (is_libxslt i) kong_rpath i) (change (is_wasm i) wasm_rpath) h in
        (
          k,
          (change-Shows (is_libxslt i) kong_rpath i k).0 s,
          (change-Shows (is_wasm i) wasm_rpath k j).0 t,
        ),
    λ (k, s, t).
        ap (λ r. r >>= change (is_wasm i) wasm_rpath)
          ((change-Shows (is_libxslt i) kong_rpath i k).1 s)
        ∙ (change-Shows (is_wasm i) wasm_rpath k j).1 t,
  )
