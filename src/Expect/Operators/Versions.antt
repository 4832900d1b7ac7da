-- ===== src/Expect/Operators/Versions.antt =====
-- `_less_than` and `_greater_than` on the version lists of an ELF file.
use kong_coco.Prelude.{
  ◌≡◌, refl, sym, ap, Bool, true, false, some, List, ◌∷◌, map, Text, arith, all, head?, get_last?,
  head?-map, get_last?-map,
}
use kong_coco.Prelude.Sorting.{
  sorted, all-eq-largest, all-eq-smallest, head?-sorted, get_last?-sorted, sorted-map,
}
use kong_coco.Result.{ok}
use kong_coco.Env.{Env, IsVersioned}
use kong_coco.Explain.Value.{version, list, Literal}
use kong_coco.Expect.State.{less_than, greater_than}
use kong_coco.Expect.Operators.{item_lt, is_less_than, is_greater_than}

module _ (env : Env) (h : IsVersioned env) where
  abbrev lt : Text → Text → Bool
  lt = env.version_lt

  item_lt-version : (a b : Text) → item_lt env (version a) (version b) ≡ lt a b
  unfolding item_lt
  item_lt-version a b = refl

  below_down : (limit a b : Text) → lt b a ≡ false → lt b limit ≡ true → lt a limit ≡ true
  below_down limit a b p q = ground (arith, h.version_order.le_trans limit a b)

  above_up : (limit a b : Text) → lt b a ≡ false → lt limit a ≡ true → lt limit b ≡ true
  above_up limit a b p q = ground (arith, h.version_order.le_trans a b limit)

  largest_item :
      (v : Text) (vs : List Text) (m : Text)
      → get_last? (sorted lt (v ∷ vs)) ≡ some m
      → get_last? (sorted (item_lt env) (map version (v ∷ vs))) ≡ some (version m)
  largest_item v vs m e =
      rw (sorted-map lt (item_lt env) version item_lt-version (v ∷ vs))
        (get_last?-map version (sorted lt (v ∷ vs)) e)

  smallest_item :
      (v : Text) (vs : List Text) (m : Text)
      → head? (sorted lt (v ∷ vs)) ≡ some m
      → head? (sorted (item_lt env) (map version (v ∷ vs))) ≡ some (version m)
  smallest_item v vs m e =
      rw (sorted-map lt (item_lt env) version item_lt-version (v ∷ vs))
        (head?-map version (sorted lt (v ∷ vs)) e)

  -- _less_than on a non-empty list of versions holds exactly when every version is below the
  -- limit, if the comparison of versions is an order.
  pub is_less_than-eq-all :
      (limit v : Text) (vs : List Text)
      → is_less_than env (Literal.str limit) (list (map version (v ∷ vs)))
        ≡ ok (all (λ x. lt x limit) (v ∷ vs), less_than (Literal.str limit))
  unfolding is_less_than
  is_less_than-eq-all limit v vs =
      let (m, e) = get_last?-sorted lt v vs in
      rw (largest_item v vs m e) (
        ap (λ b. ok (b, less_than (Literal.str limit)))
          (sym
            (all-eq-largest lt h.version_order (λ x. lt x limit) (below_down limit) (v ∷ vs) m e)))

  -- _greater_than on a non-empty list of versions holds exactly when every version is above the
  -- limit, if the comparison of versions is an order.
  pub is_greater_than-eq-all :
      (limit v : Text) (vs : List Text)
      → is_greater_than env (Literal.str limit) (list (map version (v ∷ vs)))
        ≡ ok (all (λ x. lt limit x) (v ∷ vs), greater_than (Literal.str limit))
  unfolding is_greater_than
  is_greater_than-eq-all limit v vs =
      let (m, e) = head?-sorted lt v vs in
      rw (smallest_item v vs m e) (
        ap (λ b. ok (b, greater_than (Literal.str limit)))
          (sym
            (all-eq-smallest lt h.version_order (λ x. lt limit x) (above_up limit) (v ∷ vs) m e)))
