-- ===== src/Expect/Operators.antt =====
-- What the verbs compute on one value: equality, search, membership and order.
pub mod Versions
use kong_coco.Prelude.{ℕ, Bool, true, false, Option, none, some, List, [], ◌∷◌, Text}
use kong_coco.Prelude.{list_eq, nat_eq, ◌==◌, ltb, text_lt, head?, get_last?, if◌then◌else◌, any}
use kong_coco.Prelude.Sorting.{sorted}
use kong_coco.Result.{Result, ok, err, type_error, index_error, ◌>>=◌}
use kong_coco.Env.{Env}
use kong_coco.Regex.Pattern.{re_search}
use kong_coco.Explain.Value.{Item, text, version, Value, bool, int, str, list, Literal}
use kong_coco.Expect.State.{Reason, equal_to, matches, less_than, greater_than, found_in_list}
use kong_coco.Expect.State.{is_empty_list, is_not_a_list}

-- Python counts `True` as 1.
abbrev as_int : Bool → ℕ
as_int true = 1
as_int false = 0

-- `a == expect`
unfoldable pub value_eq : Value → Literal → Bool
value_eq (bool b) (Literal.bool c) = as_int b == as_int c
value_eq (bool b) (Literal.int n) = as_int b == n
value_eq (int n) (Literal.bool c) = n == as_int c
value_eq (int n) (Literal.int m) = n == m
value_eq (str s) (Literal.str t) = s == t
value_eq _ _ = false

-- `_equal`
unfoldable pub equal : Literal → Value → Result (Bool × Reason)
unfolding value_eq
equal expect a = ok (value_eq a expect, equal_to expect)

module _ (env : Env) where
  -- `re.search(expect, a)`
  unfoldable pub search : Literal → Value → Result Bool
  unfolding re_search
  search (Literal.str p) (str s) = ok (re_search env p s)
  search _ _ = err type_error

  -- `_match`
  unfoldable pub match : Literal → Value → Result (Bool × Reason)
  unfolding search
  match expect a = search expect a >>= λ found. ok (found, matches expect)

  -- `<` between two elements of a list: a `LooseVersion` also compares with a text
  unfoldable pub item_lt : Item → Item → Bool
  item_lt (text s) (text t) = text_lt s t
  item_lt (text s) (version t) = env.version_lt s t
  item_lt (version s) (text t) = env.version_lt s t
  item_lt (version s) (version t) = env.version_lt s t

  -- `ll < expect`
  item_less : Item → Literal → Result Bool
  item_less (text s) (Literal.str t) = ok (text_lt s t)
  item_less (version s) (Literal.str t) = ok (env.version_lt s t)
  item_less _ _ = err type_error

  -- `ll > expect`
  item_greater : Item → Literal → Result Bool
  item_greater (text s) (Literal.str t) = ok (text_lt t s)
  item_greater (version s) (Literal.str t) = ok (env.version_lt t s)
  item_greater _ _ = err type_error

  value_less : Value → Literal → Result Bool
  value_less (str s) (Literal.str t) = ok (text_lt s t)
  value_less (int n) (Literal.int m) = ok (ltb n m)
  value_less (int n) (Literal.bool c) = ok (ltb n (as_int c))
  value_less (bool b) (Literal.int m) = ok (ltb (as_int b) m)
  value_less (bool b) (Literal.bool c) = ok (ltb (as_int b) (as_int c))
  value_less _ _ = err type_error

  value_greater : Value → Literal → Result Bool
  value_greater (str s) (Literal.str t) = ok (text_lt t s)
  value_greater (int n) (Literal.int m) = ok (ltb m n)
  value_greater (int n) (Literal.bool c) = ok (ltb (as_int c) n)
  value_greater (bool b) (Literal.int m) = ok (ltb m (as_int b))
  value_greater (bool b) (Literal.bool c) = ok (ltb (as_int c) (as_int b))
  value_greater _ _ = err type_error

  item_at : Option Item → (Item → Result Bool) → Result Bool
  item_at none k = err index_error
  item_at (some i) k = k i

  largest_less : Value → Literal → Result Bool
  unfolding item_at item_less value_less
  largest_less (list l) expect = item_at (get_last? (sorted item_lt l)) (λ i. item_less i expect)
  largest_less a expect = value_less a expect

  smallest_greater : Value → Literal → Result Bool
  unfolding item_at item_greater value_greater
  smallest_greater (list l) expect = item_at (head? (sorted item_lt l)) (λ i. item_greater i expect)
  smallest_greater a expect = value_greater a expect

  -- `_less_than`
  unfoldable pub is_less_than : Literal → Value → Result (Bool × Reason)
  unfolding largest_less
  is_less_than expect a = largest_less a expect >>= λ r. ok (r, less_than expect)

  -- `_greater_than`
  unfoldable pub is_greater_than : Literal → Value → Result (Bool × Reason)
  unfolding smallest_greater
  is_greater_than expect a = smallest_greater a expect >>= λ r. ok (r, greater_than expect)

  -- an element `== expect`
  unfoldable pub item_eq : Literal → Item → Bool
  item_eq (Literal.str t) (text s) = s == t
  item_eq (Literal.str t) (version s) = env.version_eq s t
  item_eq _ _ = false

  texts_of : List Item → Result (List Text)
  texts_of [] = ok []
  texts_of (text s ∷ l) = texts_of l >>= λ ss. ok (s ∷ ss)
  texts_of (version s ∷ l) = err type_error

  -- `difflib.get_close_matches(expect, a, 1)`, which wants texts
  closest : Literal → List Item → Result (Option Text)
  unfolding texts_of
  closest (Literal.str t) l = texts_of l >>= λ ss. ok (env.close_match t ss)
  closest _ l = err type_error

  contain_reason : Bool → Text → Literal → List Item → Result Reason
  unfolding closest
  contain_reason true attr expect l = ok (found_in_list expect none)
  contain_reason false attr expect [] = ok (is_empty_list attr)
  contain_reason false attr expect l = closest expect l >>= λ hint. ok (found_in_list expect hint)

  -- `_contain`
  unfoldable pub contain : Text → Literal → Value → Result (Bool × Reason)
  unfolding contain_reason item_eq
  contain attr expect (list l) =
      let found = any (item_eq expect) l in
      contain_reason found attr expect l >>= λ reason. ok (found, reason)
  contain attr expect _ = ok (false, is_not_a_list attr)

  match_item : Literal → Item → Result Bool
  unfolding re_search
  match_item (Literal.str p) (text s) = ok (re_search env p s)
  match_item _ _ = err type_error

  -- the loop of `_contain_match`, which stops at the first match
  any_match : Literal → List Item → Result Bool
  unfolding match_item
  any_match expect [] = ok false
  any_match expect (i ∷ l) =
      let rest = any_match expect l in
      match_item expect i >>= λ found. if found then ok true else rest

  -- `_contain_match`
  unfoldable pub contain_match : Text → Literal → Value → Result (Bool × Reason)
  unfolding any_match
  contain_match attr expect (list l) =
      any_match expect l >>= λ found. ok (found, found_in_list expect none)
  contain_match attr expect _ = ok (false, is_not_a_list attr)
