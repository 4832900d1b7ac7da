-- ===== src/Explain/Attributes/Caching.antt =====
-- The cache of `__getattr__` is invisible: it changes no value that a later access returns.
use kong_coco.Prelude.{◌≡◌, refl, ◌∙◌, true, none, some, List, [], ◌∷◌, arith, inl, inr}
use kong_coco.Prelude.{
  Text, list_eq, nat_eq, lookup, insert, lookup-insert, list_beq_iff, ap, Bool-cases, Option-cases,
}
use kong_coco.Result.{ok, err}
use kong_coco.Explain.Value.{Value, truthy}
use kong_coco.Explain.Info.{Info, plain, elf, nginx}
use kong_coco.Explain.Attributes.{Object, object, getattr, getattr_missing, attribute}

-- What is cached is what the closure returns, and is true.
pub record IsCoherent (o : Object) : Type 0 where
  pub cached :
      (name : Text) (v : Value)
      → lookup name o.lazy_evaluate_cache ≡ some v
      → (lookup name o.lazy_evaluate_attrs ≡ some (ok v)) × (truthy v ≡ true)

fresh-IsCoherent : (i : Info) → IsCoherent (object i)
unfolding object lookup
fresh-IsCoherent (plain f) = record { cached = λ name v e. cc }
fresh-IsCoherent (elf f e) = record { cached = λ name v e. cc }
fresh-IsCoherent (nginx f e n) = record { cached = λ name v e. cc }

-- Reading attributes one after the other, for what this does to the object.
pub read_all : List Text → Object → Object
read_all [] o = o
read_all (name ∷ names) o = read_all names (getattr name o).1

-- The object without its cache.
abbrev forget : Object → Object
forget o = record o { lazy_evaluate_cache = [] }

forget-getattr : (name : Text) (o : Object) → forget (getattr name o).1 ≡ forget o
unfolding getattr
forget-getattr name o = ground arith

lookup-nil : (name : Text) → lookup {V = Value} name [] ≡ none
unfolding lookup
lookup-nil name = refl

getattr-forget :
    (name : Text) (o : Object) → IsCoherent o → (getattr name o).0 ≡ (getattr name (forget o)).0
unfolding getattr
getattr-forget name o h = elim (Option-cases (lookup name o.lazy_evaluate_cache)) [
  | inl e ↦ ground (arith, lookup-nil name)
  | inr (v, e) ↦ ground (arith, lookup-nil name, h.cached name v e)
]

insert-IsCoherent :
    (name : Text) (v : Value) (o : Object)
    → IsCoherent o
    → lookup name o.lazy_evaluate_attrs ≡ some (ok v)
    → truthy v ≡ true
    → IsCoherent (record o { lazy_evaluate_cache = insert name v o.lazy_evaluate_cache })
insert-IsCoherent name v o h p q = record {
  cached = λ j w e.
      ground
        (arith, e, lookup-insert j name v o.lazy_evaluate_cache, list_beq_iff j name, h.cached j w);
}

getattr_missing-IsCoherent :
    (name : Text) (o : Object) → IsCoherent o → IsCoherent (getattr_missing name o).1
unfolding getattr_missing
getattr_missing-IsCoherent name o h = elim (Option-cases (lookup name o.lazy_evaluate_cache)) [
  | inr (v, c) ↦ rw (c, getattr_missing) h
  | inl c ↦ elim (Option-cases (lookup name o.lazy_evaluate_attrs)) [
    | inl l ↦ rw (c, l, getattr_missing) h
    | inr (err e, l) ↦ rw (c, l, getattr_missing) h
    | inr (ok v, l) ↦ elim (Bool-cases (truthy v)) [
      | inl t ↦ rw (c, l, t, getattr_missing) (insert-IsCoherent name v o h l t)
      | inr t ↦ rw (c, l, t, getattr_missing) h
    ]
  ]
]

getattr-IsCoherent : (name : Text) (o : Object) → IsCoherent o → IsCoherent (getattr name o).1
unfolding getattr
getattr-IsCoherent name o h = elim (Option-cases (lookup name o.attrs)) [
  | inl e ↦ rw (e, getattr) (getattr_missing-IsCoherent name o h)
  | inr (v, e) ↦ rw (e, getattr) h
]

forget-read_all : (names : List Text) (o : Object) → forget (read_all names o) ≡ forget o
unfolding read_all
forget-read_all [] o = refl
forget-read_all (name ∷ names) o = forget-read_all names (getattr name o).1 ∙ forget-getattr name o

read_all-IsCoherent :
    (names : List Text) (o : Object) → IsCoherent o → IsCoherent (read_all names o)
unfolding read_all
read_all-IsCoherent [] o h = h
read_all-IsCoherent (name ∷ names) o h =
    read_all-IsCoherent names (getattr name o).1 (getattr-IsCoherent name o h)

object-forget : (i : Info) → forget (object i) ≡ object i
unfolding object
object-forget (plain f) = refl
object-forget (elf f e) = refl
object-forget (nginx f e n) = refl

-- Whatever attributes of a file were read before, reading one returns, or raises, what it does on
-- the freshly made object: the cache is invisible.
pub getattr-read_all :
    (i : Info) (reads : List Text) (name : Text)
    → (getattr name (read_all reads (object i))).0 ≡ attribute name i
unfolding attribute
getattr-read_all i reads name =
    getattr-forget name _ (read_all-IsCoherent reads (object i) (fresh-IsCoherent i))
    ∙ ap (λ o. (getattr name o).0) (forget-read_all reads (object i) ∙ object-forget i)
