-- ===== src/Expect/Chain/Accesses.antt =====
-- What `__getattr__` hands out, and from which state.
use kong_coco.Prelude.{
  ◌≡◌, refl, inl, inr, Bool, false, Option, none, some, [], ◌∷◌, Text, Bool-cases, contains,
  list_eq, nat_eq,
}
use kong_coco.Result.{Result, ok, >>=-eq-ok, ok-injective}
use kong_coco.Explain.Info.{Info}
use kong_coco.Expect.State.{Chain, Message, print_error}
use kong_coco.Expect.Chain.{
  Access, self, dummy_call, bound, getattr, set_attribute, first_absent, bind_verb, access_verb,
  verb_of, rpath_name, verbs,
}

-- A verb waits in the state that it was read in; the dummy has printed an error first.
pub data Reads (name : Text) (c : Chain) : Access → Type 0 where
  attribute :
      (use_rpath : Bool) (c' : Chain)
      → c' ≡ record c {
        last_attribute = some (rpath_name use_rpath name);
        logical_reverse = false;
        key_name = none;
      }
      → Reads name c (self c')
  refused : (m : Message) (c' : Chain) → c' ≡ print_error m c → Reads name c (dummy_call c')
  waits : (verb attr : Text) (c' : Chain) → c' ≡ c → Reads name c (bound verb attr c')

abbrev pub ReadsAll : Text → Chain → Result Access → Type 0
ReadsAll name c r = (a : Access) → r ≡ ok a → Reads name c a

ReadsAll-ok : {name : Text} {c : Chain} (a : Access) → Reads name c a → ReadsAll name c (ok a)
ReadsAll-ok a r a' h = rw (← ok-injective h) r

bind_verb-Reads :
    (name verb attr : Text) (c : Chain) (o : Option Info)
    → ReadsAll name c (bind_verb name verb attr c o)
unfolding bind_verb
bind_verb-Reads name verb attr c none = ReadsAll-ok _ (waits verb attr c refl)
bind_verb-Reads name verb attr c (some f) = ReadsAll-ok _ (refused _ _ refl)

access_verb-Reads :
    (name verb : Text) (c : Chain) (last : Option Text)
    → ReadsAll name c (access_verb name verb c last)
unfolding access_verb
access_verb-Reads name verb c none a = ReadsAll-ok _ (refused _ _ refl) a
access_verb-Reads name verb c (some []) a = ReadsAll-ok _ (refused _ _ refl) a
access_verb-Reads name verb c (some (b ∷ attr)) a = λ h.
    let (o, _, q) =
      >>=-eq-ok (first_absent (b ∷ attr) c.files) (bind_verb name verb (b ∷ attr) c) h in
    bind_verb-Reads name verb (b ∷ attr) c o a q

set_attribute-Reads :
    (name : Text) (c : Chain) (suite : Option Bool) → ReadsAll name c (set_attribute name c suite)
unfolding set_attribute
set_attribute-Reads name c none = λ a h. cc
set_attribute-Reads name c (some use_rpath) = ReadsAll-ok _ (attribute use_rpath _ refl)

pub getattr-Reads : (name : Text) (c : Chain) → ReadsAll name c (getattr name c)
unfolding getattr
getattr-Reads name c = elim (Bool-cases (contains (verb_of name) verbs)) [
  | inl e ↦ rw e (access_verb-Reads name (verb_of name) c c.last_attribute)
  | inr e ↦ rw e (set_attribute-Reads name c c.suite)
]
