-- ===== src/Prelude/Order.antt =====
-- `ORDER BY`: a stable insertion sort by a Boolean comparison, with what its result guarantees.
use Prim.Native.Nat.{suc}
use mathlib.Core.Path.{◌≡◌, refl, sym, subst}
use mathlib.Core.Logic.{inl, inr}
use mathlib.Core.Bool.{Bool, true, false}
use mathlib.Core.List.{List, [], ◌∷◌}
use native.Mathlib.Omega.{arith}
use ai_badge.Prelude.Tests.{if◌then◌else◌, Bool-cases}
use ai_badge.Prelude.Lists.{All, length, count_where}

module _ {ℓ} {A : Type ℓ} (before : A → A → Bool) where
  -- `before y x` says that `y` must come ahead of `x`; rows that tie keep their order.
  unfoldable pub insert : A → List A → List A
  insert x [] = x ∷ []
  insert x (y ∷ ys) = let rest = insert x ys in if before y x then y ∷ rest else x ∷ y ∷ ys

  unfoldable pub order_by : List A → List A
  unfolding insert
  order_by [] = []
  order_by (x ∷ xs) = insert x (order_by xs)

  count-insert :
      (p : A → Bool) (x : A) (ys : List A) → count_where p (insert x ys) ≡ count_where p (x ∷ ys)
  unfolding insert
  count-insert p x [] = refl
  count-insert p x (y ∷ ys) = ground (arith, count-insert p x ys)

  -- Every row is kept, as often as it was there.
  pub count-order_by : (p : A → Bool) (xs : List A) → count_where p (order_by xs) ≡ count_where p xs
  unfolding order_by
  count-order_by p [] = refl
  count-order_by p (x ∷ xs) = ground (arith, count-insert p x (order_by xs), count-order_by p xs)

  length-insert : (x : A) (ys : List A) → length (insert x ys) ≡ suc (length ys)
  unfolding insert
  length-insert x [] = refl
  length-insert x (y ∷ ys) = ground (arith, length-insert x ys)

  pub length-order_by : (xs : List A) → length (order_by xs) ≡ length xs
  unfolding order_by
  length-order_by [] = refl
  length-order_by (x ∷ xs) = ground (arith, length-insert x (order_by xs), length-order_by xs)

  All-insert : (P : A → Type 0) (x : A) (ys : List A) → P x → All P ys → All P (insert x ys)
  unfolding insert
  All-insert P x [] h hs = (h, tt)
  All-insert P x (y ∷ ys) h hs = elim (Bool-cases (before y x)) [
    | inl e ↦ rw e (hs.0, All-insert P x ys h hs.1)
    | inr e ↦ rw e (h, hs)
  ]

  pub All-order_by : (P : A → Type 0) (xs : List A) → All P xs → All P (order_by xs)
  unfolding order_by
  All-order_by P [] h = tt
  All-order_by P (x ∷ xs) h = All-insert P x (order_by xs) h.0 (All-order_by P xs h.1)

  All-of-insert : (P : A → Type 0) (x : A) (ys : List A) → All P (insert x ys) → P x × All P ys
  unfolding insert
  All-of-insert P x [] h = h
  All-of-insert P x (y ∷ ys) h = elim (Bool-cases (before y x)) [
    | inl e ↦
        let (hy, hs) : P y × All P (insert x ys) = rw e at h in
        let (hx, rest) = All-of-insert P x ys hs in (hx, (hy, rest))
    | inr e ↦ rw e at h
  ]

  pub All-of-order_by : (P : A → Type 0) (xs : List A) → All P (order_by xs) → All P xs
  unfolding order_by
  All-of-order_by P [] h = tt
  All-of-order_by P (x ∷ xs) h =
      let (hx, rest) = All-of-insert P x (order_by xs) h in (hx, All-of-order_by P xs rest)

  -- No row stands behind one that it should come ahead of.
  abbrev pub IsOrdered : List A → Type 0
  IsOrdered [] = Unit
  IsOrdered (x ∷ xs) = All (λ y. before y x ≡ false) xs × IsOrdered xs

  -- What `before` must satisfy for sorting to make sense: it is a strict weak order.
  pub record IsWeakOrder : Type ℓ where
    pub asym : (x y : A) → before x y ≡ true → before y x ≡ false
    pub trans : (x y z : A) → before y x ≡ false → before z y ≡ false → before z x ≡ false

  module _ (w : IsWeakOrder) where
    All-behind :
        (x y : A) (ys : List A)
        → before y x ≡ false
        → All (λ z. before z y ≡ false) ys
        → All (λ z. before z x ≡ false) ys
    All-behind x y [] e h = tt
    All-behind x y (z ∷ zs) e h = (w.trans x y z e h.0, All-behind x y zs e h.1)

    insert-IsOrdered : (x : A) (ys : List A) → IsOrdered ys → IsOrdered (insert x ys)
    unfolding insert
    insert-IsOrdered x [] h = (tt, tt)
    insert-IsOrdered x (y ∷ ys) h = elim (Bool-cases (before y x)) [
      | inl e ↦ rw e (All-insert _ x ys (w.asym y x e) h.0, insert-IsOrdered x ys h.1)
      | inr e ↦ rw e ((e, All-behind x y ys e h.0), h)
    ]

    pub order_by-IsOrdered : (xs : List A) → IsOrdered (order_by xs)
    unfolding order_by
    order_by-IsOrdered [] = tt
    order_by-IsOrdered (x ∷ xs) = insert-IsOrdered x (order_by xs) (order_by-IsOrdered xs)

    -- The first row of the order: no row comes ahead of it.
    pub order_by-first :
        (x : A) (rest xs : List A) → order_by xs ≡ x ∷ rest → All (λ y. before y x ≡ false) xs
    order_by-first x rest xs h =
        let o : IsOrdered (x ∷ rest) = subst IsOrdered h (order_by-IsOrdered xs) in
        let self : before x x ≡ false = elim (Bool-cases (before x x)) [
          | inl e ↦ w.asym x x e
          | inr e ↦ e
        ] in
        All-of-order_by (λ y. before y x ≡ false) xs
          (subst (All (λ y. before y x ≡ false)) (sym h) (self, o.0))
