-- ===== src/Expect/Compare/Verdict.antt =====
-- What a check concludes, told file by file without the loop.
use kong_coco.Prelude.{◌≡◌, refl, ◌∙◌, inl, inr, Bool, true, false, Option, none, some}
use kong_coco.Prelude.{◌⊎◌, List, [], ◌∷◌, Text, not}
use kong_coco.Result.{Result, ok}
use kong_coco.Explain.Value.{Value}
use kong_coco.Explain.Info.{Info, relpath_of}
use kong_coco.Explain.Attributes.{attribute, has}
use kong_coco.Expect.State.{Chain, Failure, Reason, fail_file, print_fail}
use kong_coco.Expect.Compare.{same, select, compare_files}

module _ (attr : Text) (fn : Value → Result (Bool × Reason)) (key : Option Text)
    (reverse : Bool) where
  -- The file has the attribute, and the check looks at `o` of it.
  pub record Reads (f : Info) (o : Option Value) : Type 0 where
    pub value : Value
    pub is_attribute : attribute attr f ≡ ok value
    pub is_selected : select key value ≡ o

  -- The verb decides `good` on the file.
  pub record Decides (f : Info) (good : Bool) (m : Failure) : Type 0 where
    pub subject : Value
    pub reads : Reads f (some subject)
    pub reason : Reason
    pub decides : fn subject ≡ ok (good, reason)
    pub is_failure : m ≡ fail_file (relpath_of f) attr subject reason reverse

  -- The file lacks the attribute.
  abbrev pub Lacks : Info → Type 0
  Lacks f = has (attribute attr f) ≡ ok false

  -- The file is in order: it lacks the attribute, or the verb decides as is wanted.
  abbrev pub Passes : Info → Type 0
  Passes f = Lacks f ⊎ ((m : Failure) × Decides f (not reverse) m)

  abbrev pub Fails : Info → Failure → Type 0
  Fails f m = Decides f reverse m

  -- Its attribute is a dict without the key.
  abbrev pub IsKeyless : Info → Type 0
  IsKeyless f = Reads f none

  -- The files up to the first without the key pass, or all of them do.
  abbrev pub Clean : List Info → Type 0
  Clean [] = Unit
  Clean (f ∷ fs) = IsKeyless f ⊎ (Passes f × Clean fs)

  -- The files before one that fails pass, and have the key.
  abbrev pub Broken : Failure → List Info → Type 0
  Broken m [] = ⊥
  Broken m (f ∷ fs) = Fails f m ⊎ (Passes f × Broken m fs)

same-not : (b : Bool) → same (not b) b ≡ false
unfolding same
same-not true = refl
same-not false = refl

same_self : (b : Bool) → same b b ≡ true
unfolding same
same_self true = refl
same_self false = refl

has-ok : {r : Result Value} {v : Value} → r ≡ ok v → has r ≡ ok true
unfolding has
has-ok e = rw e

module _ (attr : Text) (fn : Value → Result (Bool × Reason)) (c : Chain) where
  compare_files-IsKeyless :
      (f : Info) (fs : List Info)
      → IsKeyless attr fn c.key_name c.logical_reverse f
      → compare_files attr fn (f ∷ fs) c ≡ ok (true, c)
  unfolding compare_files
  compare_files-IsKeyless f fs k =
      rw (has-ok k.is_attribute) (rw (k.is_attribute, k.is_selected) refl)

  compare_files-Fails :
      (f : Info) (fs : List Info) {m : Failure}
      → Fails attr fn c.key_name c.logical_reverse f m
      → compare_files attr fn (f ∷ fs) c ≡ ok (false, print_fail m c)
  unfolding compare_files
  compare_files-Fails f fs d =
      rw (has-ok d.reads.is_attribute)
        (rw (d.reads.is_attribute, d.reads.is_selected, d.decides, same_self, d.is_failure) refl)

  compare_files-Passes :
      (f : Info) (fs : List Info)
      → Passes attr fn c.key_name c.logical_reverse f
      → compare_files attr fn (f ∷ fs) c ≡ compare_files attr fn fs c
  unfolding compare_files
  compare_files-Passes f fs (inl l) = rw l
  compare_files-Passes f fs (inr (m, d)) =
      rw (has-ok d.reads.is_attribute)
        (rw (d.reads.is_attribute, d.reads.is_selected, d.decides, same-not) refl)

  pub compare_files-Clean :
      (fs : List Info)
      → Clean attr fn c.key_name c.logical_reverse fs
      → compare_files attr fn fs c ≡ ok (true, c)
  compare_files-Clean [] h = unfold compare_files in refl
  compare_files-Clean (f ∷ fs) (inl k) = compare_files-IsKeyless f fs k
  compare_files-Clean (f ∷ fs) (inr (p, h)) = compare_files-Passes f fs p ∙ compare_files-Clean fs h

  pub compare_files-Broken :
      (m : Failure) (fs : List Info)
      → Broken attr fn c.key_name c.logical_reverse m fs
      → compare_files attr fn fs c ≡ ok (false, print_fail m c)
  compare_files-Broken m [] h = absurd h
  compare_files-Broken m (f ∷ fs) (inl d) = compare_files-Fails f fs d
  compare_files-Broken m (f ∷ fs) (inr (p, h)) =
      compare_files-Passes f fs p ∙ compare_files-Broken m fs h
