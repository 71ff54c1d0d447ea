-- ===== src/Realtime/Aggregation/Catalog.antt =====
-- Which themes `affected_themes` of packages/realtime/aggregation.py names.
use dayjaview.Prelude.{
  ℕ, Bool, true, false, Option, none, some, String, if◌then◌else◌, List, [], ◌∷◌, ◌≡◌, All, Any,
  subst, arith, inr, Bool-cases, inl, sym, ◌∙◌, ap, ◌↔◌,
}
use dayjaview.Prelude.Exec.{ok, and_then-eq-ok, ok-injective}
use dayjaview.Realtime.Aggregation.{
  VersionedThemeCatalog, ThemeMembershipSnapshot, affected_among, affected_themes, select,
  has_member,
}
use dayjaview.Domain.Membership.{ThemeMembershipSnapshot, contains}

module _ (stock_id : String) (market_date decision_at : ℕ) (catalog : VersionedThemeCatalog) where
  -- The stock is a member of the theme, as far as the members were known at the decision.
  pub record HasStock (theme_id : String) : Type 0 where
    pub membership : ThemeMembershipSnapshot
    pub selected : select theme_id market_date decision_at catalog ≡ ok (some membership)
    pub has : contains stock_id membership ≡ true

  affected_sound :
      (ids affected : List String)
      → affected_among stock_id market_date decision_at catalog ids ≡ ok affected
      → All HasStock affected
  unfolding affected_among
  affected_sound [] affected h = subst (All HasStock) {x = []} (ok-injective h) tt
  affected_sound (id ∷ ids) affected h =
      let (m, selected, h1) = and_then-eq-ok (select id market_date decision_at catalog) _ h in
      let (rest, found, h2) =
        and_then-eq-ok (affected_among stock_id market_date decision_at catalog ids) _ h1 in
      added id m rest affected selected (affected_sound ids rest found) (ground arith)
    where
      added :
          (id : String) (m : Option ThemeMembershipSnapshot) (rest affected : List String)
          → select id market_date decision_at catalog ≡ ok m
          → All HasStock rest
          → (if has_member stock_id m then id ∷ rest else rest) ≡ affected
          → All HasStock affected
      added id none rest affected s hs q = subst (All HasStock) q hs
      added id (some x) rest affected s hs q = elim (Bool-cases (contains stock_id x)) [
        | inl has ↦
            subst (All HasStock) {x = id ∷ rest} (ground arith)
              (record { membership = x; selected = s; has = has }, hs)
        | inr lacks ↦ subst (All HasStock) {x = rest} (ground arith) hs
      ]

  affected_complete :
      (ids affected : List String) (id : String)
      → affected_among stock_id market_date decision_at catalog ids ≡ ok affected
      → HasStock id
      → Any (λ x. x ≡ id) ids
      → Any (λ x. x ≡ id) affected
  unfolding affected_among
  affected_complete [] affected id h has at = absurd at
  affected_complete (x ∷ ids) affected id h has at =
      let (m, selected, h1) = and_then-eq-ok (select x market_date decision_at catalog) _ h in
      let (rest, found, h2) =
        and_then-eq-ok (affected_among stock_id market_date decision_at catalog ids) _ h1 in
      let later = λ (p : Any (λ x. x ≡ id) ids). affected_complete ids rest id found has p in
      added m rest selected (ground arith) at later
    where
      added :
          (m : Option ThemeMembershipSnapshot) (rest : List String)
          → select x market_date decision_at catalog ≡ ok m
          → (if has_member stock_id m then x ∷ rest else rest) ≡ affected
          → Any (λ x. x ≡ id) (x ∷ ids)
          → (Any (λ x. x ≡ id) ids → Any (λ x. x ≡ id) rest)
          → Any (λ x. x ≡ id) affected
      added m rest s q (inr p) later =
          subst (Any (λ x. x ≡ id)) q (widen (has_member stock_id m) (later p))
        where
          widen :
              (b : Bool) → Any (λ x. x ≡ id) rest → Any (λ x. x ≡ id) (if b then x ∷ rest else rest)
          widen true p = inr p
          widen false p = p
      added m rest s q (inl same) later =
          let chosen : m ≡ some has.membership =
            ok-injective
              (sym s ∙ ap (λ i. select i market_date decision_at catalog) same ∙ has.selected) in
          let member : has_member stock_id m ≡ true = rw (chosen) has.has in
          subst (Any (λ x. x ≡ id)) (ap (λ b. if b then x ∷ rest else rest) (sym member) ∙ q)
            (inl same)

  found_in : (id : String) (xs : List String) → Any (λ x. x ≡ id) xs → All HasStock xs → HasStock id
  found_in id [] at h = absurd at
  found_in id (x ∷ xs) (inl same) h = subst HasStock same h.0
  found_in id (x ∷ xs) (inr later) h = found_in id xs later h.1

  -- A call that returns names, of the themes of the catalog, exactly those of which the stock is a
  -- member, as far as the members were effective on the day and known at the decision.
  pub affected_themes_exact :
      (affected : List String) (id : String)
      → affected_themes stock_id market_date decision_at catalog ≡ ok affected
      → Any (λ x. x ≡ id) catalog.theme_ids
      → Any (λ x. x ≡ id) affected ↔ HasStock id
  affected_themes_exact affected id h at = (
    λ found. found_in id affected found (affected_sound catalog.theme_ids affected h),
    λ has. affected_complete catalog.theme_ids affected id h has at,
  )
