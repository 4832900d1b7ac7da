-- ===== src/Expect/Compare/Keyless.antt =====
-- What a check with a key does not look at.
use kong_coco.Prelude.{ℕ, ◌≡◌, refl, ◌∙◌, ap, inl, inr, Bool, true, false, Option, some, List, []}
use kong_coco.Prelude.{◌∷◌, ◌++◌, Text, All, Any, all, arith, lookup, list_eq, nat_eq, map}
use kong_coco.Result.{Result, ok}
use kong_coco.Env.{Env, IsVersioned}
use kong_coco.Explain.Value.{Item, Value, dict, list, version, Literal}
use kong_coco.Explain.Info.{Info, relpath_of}
use kong_coco.Explain.Attributes.{attribute}
use kong_coco.Expect.State.{Chain, Reason, fail_file, greater_than}
use kong_coco.Expect.Operators.{is_greater_than}
use kong_coco.Expect.Operators.Versions.{is_greater_than-eq-all}
use kong_coco.Expect.Compare.{select, compare}
use kong_coco.Expect.Compare.Verdict.{Decides, Passes, IsKeyless, Clean}
use kong_coco.Expect.Compare.Exact.{counted, compare-Clean_iff}

Clean-append :
    (attr : Text) (fn : Value → Result (Bool × Reason)) (key : Option Text) (reverse : Bool)
    (pre rest : List Info)
    → All (Passes attr fn key reverse) pre
    → Clean attr fn key reverse rest
    → Clean attr fn key reverse (pre ++ rest)
Clean-append attr fn key reverse [] rest h k = k
Clean-append attr fn key reverse (f ∷ pre) rest (p, h) k =
    inr (p, Clean-append attr fn key reverse pre rest h k)

-- A check under a key passes as soon as it meets a file whose dict lacks the key, if all files
-- before it pass, whatever the files after it hold.
pub compare-IsKeyless :
    (attr : Text) (fn : Value → Result (Bool × Reason)) (c : Chain) (pre : List Info) (f : Info)
    (rest : List Info)
    → c.files ≡ pre ++ f ∷ rest
    → All (Passes attr fn c.key_name c.logical_reverse) pre
    → IsKeyless attr fn c.key_name c.logical_reverse f
    → compare attr fn c ≡ ok (true, counted c)
compare-IsKeyless attr fn c pre f rest e h k =
    (compare-Clean_iff attr fn c).1
      (rw e (Clean-append attr fn c.key_name c.logical_reverse pre (f ∷ rest) h (inl k)))

all-eq_false : (p : Text → Bool) (vs : List Text) → Any (λ v. p v ≡ false) vs → all p vs ≡ false
unfolding all
all-eq_false p [] h = absurd h
all-eq_false p (v ∷ vs) (inl h) = rw h
all-eq_false p (v ∷ vs) (inr h) = ground (arith, all-eq_false p vs h)

module _ (env : Env) (h : IsVersioned env) where
  -- is_not().greater_than(limit) under a key accepts the one file that it is asked about if that
  -- has some version under the key that is not above the limit, whatever its other versions are,
  -- if the comparison of versions is an order.
  pub compare-not_greater :
      (attr limit v : Text) (vs : List Text) (b : ℕ) (key : Text) (d : List (Text × List Item))
      (f : Info) (c : Chain)
      → c.files ≡ f ∷ []
      → c.logical_reverse ≡ true
      → c.key_name ≡ some (b ∷ key)
      → attribute attr f ≡ ok (dict d)
      → lookup (b ∷ key) d ≡ some (map version (v ∷ vs))
      → Any (λ w. env.version_lt limit w ≡ false) (v ∷ vs)
      → compare attr (is_greater_than env (Literal.str limit)) c ≡ ok (true, counted c)
  unfolding select
  compare-not_greater attr limit v vs b key d f c ef er ek ea el any =
      (compare-Clean_iff attr _ c).1 (rw (ef, er, ek) (inr (inr (_, decides), tt)))
    where
      fn : Value → Result (Bool × Reason)
      fn = is_greater_than env (Literal.str limit)

      selected : select (some (b ∷ key)) (dict d) ≡ some (list (map version (v ∷ vs)))
      selected = rw (el, select) refl

      decides : Decides attr fn (some (b ∷ key)) true f false (
          fail_file
            (relpath_of f)
            attr
            (list (map version (v ∷ vs)))
            (greater_than (Literal.str limit))
            true)
      decides = record {
        subject = list (map version (v ∷ vs));
        reads = record { value = dict d; is_attribute = ea; is_selected = selected };
        reason = greater_than (Literal.str limit);
        decides =
            is_greater_than-eq-all env h limit v vs
            ∙ ap (λ t. ok (t, greater_than (Literal.str limit)))
                (all-eq_false (env.version_lt limit) (v ∷ vs) any);
        is_failure = refl;
      }
