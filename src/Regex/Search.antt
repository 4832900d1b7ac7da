-- ===== src/Regex/Search.antt =====
-- What the search finds.
use kong_coco.Prelude.{◌≡◌, ◌↔◌, refl, ap, inl, inr, ℕ, true, [], ◌∷◌, ◌++◌, Text}
use kong_coco.Regex.{Regex, nullable, behind, match_start, found}
use kong_coco.Regex.Matches.{
  Matches, or-cases, or-left, or-right, nullable-Matches, Matches-nullable, behind-Matches,
  Matches-behind,
}

same-first : (b c : ℕ) (s t : Text) → c ∷ s ≡ b ∷ t → b ≡ c
same-first b c s t e = cc

-- Some text at the start matches, exactly where `match_start` says so.
match_start_iff :
    (r : Regex) (s : Text)
    → (match_start r s ≡ true) ↔ ((u : Text) × (v : Text) × (s ≡ u ++ v) × Matches r u)
unfolding match_start
match_start_iff r s = (there r s, λ (u, v, e, m). back r u s v e m)
  where
    there :
        (r : Regex) (s : Text)
        → match_start r s ≡ true
        → (u : Text) × (v : Text) × (s ≡ u ++ v) × Matches r u
    there r [] h = ([], [], refl, nullable-Matches r h)
    there r (c ∷ s) h = elim (or-cases (nullable r) (match_start (behind c r) s) h) [
      | inl n ↦ ([], c ∷ s, refl, nullable-Matches r n)
      | inr p ↦
          let (u, v, e, m) = there (behind c r) s p in
          (c ∷ u, v, ap (λ t. c ∷ t) e, behind-Matches c r u m)
    ]

    back : (r : Regex) (u s v : Text) → s ≡ u ++ v → Matches r u → match_start r s ≡ true
    back r [] [] v e m = Matches-nullable r m
    back r [] (c ∷ s) v e m = or-left _ _ (Matches-nullable r m)
    back r (b ∷ u) [] v e m = cc
    back r (b ∷ u) (c ∷ s) v e m =
        or-right (nullable r) _
          (back (behind c r) u s v (cc) (Matches-behind c r u (rw (same-first b c s _ e) at m)))

-- Searching a text finds a regular expression exactly where some part of the text matches it.
pub found_iff :
    (r : Regex) (s : Text)
    → (found r s ≡ true)
      ↔ ((pre : Text) × (u : Text) × (post : Text) × (s ≡ pre ++ (u ++ post)) × Matches r u)
unfolding found
found_iff r s = (there s, λ (pre, u, post, e, m). back pre s u post e m)
  where
    there :
        (s : Text)
        → found r s ≡ true
        → (pre : Text) × (u : Text) × (post : Text) × (s ≡ pre ++ (u ++ post)) × Matches r u
    there [] h = let (u, v, e, m) = (match_start_iff r []).0 h in ([], u, v, e, m)
    there (c ∷ s) h = elim (or-cases (match_start r (c ∷ s)) (found r s) h) [
      | inl p ↦ let (u, v, e, m) = (match_start_iff r (c ∷ s)).0 p in ([], u, v, e, m)
      | inr p ↦ let (pre, u, v, e, m) = there s p in (c ∷ pre, u, v, ap (λ t. c ∷ t) e, m)
    ]

    back : (pre s u post : Text) → s ≡ pre ++ (u ++ post) → Matches r u → found r s ≡ true
    back [] [] u post e m = (match_start_iff r []).1 (u, post, e, m)
    back [] (c ∷ s) u post e m = or-left _ _ ((match_start_iff r (c ∷ s)).1 (u, post, e, m))
    back (b ∷ pre) [] u post e m = cc
    back (b ∷ pre) (c ∷ s) u post e m =
        or-right (match_start r (c ∷ s)) _ (back pre s u post (cc) m)
