-- ===== src/Prelude/Tables.antt =====
-- Laws of tables: what a lookup finds after an update or an insertion, and keys that are distinct.

use Prim.Native.Nat.{ℕ}
use mathlib.Core.Path.{◌≡◌, refl, sym, ◌∙◌, subst}
use mathlib.Core.Logic.{◌≢◌, inl, inr}
use mathlib.Core.Bool.{Bool, true, false, not}
use mathlib.Core.Option.{Option, none, some}
use mathlib.Core.List.{List, [], ◌∷◌, ◌++◌, map}
use native.Mathlib.Omega.{arith}
use ai_badge.Prelude.Tests.{if◌then◌else◌, Bool-cases, nat_beq, nat_beq_iff}
use ai_badge.Prelude.Lists.{All, find, select, update_where, delete_where}

abbrev pub omap {ℓ} : {A : Type ℓ} → (A → A) → Option A → Option A
omap f none = none
omap f (some x) = some (f x)

abbrev pub or_else {ℓ} : {A : Type ℓ} → Option A → Option A → Option A
or_else none o = o
or_else (some x) o = some x

-- What an update makes of one row.
abbrev pub updated {ℓ} : {A : Type ℓ} → (A → Bool) → (A → A) → A → A
updated p f x = if p x then f x else x

module _ {ℓ} {A : Type ℓ} where
  pub find-true : (p : A → Bool) (xs : List A) (x : A) → find p xs ≡ some x → p x ≡ true
  find-true p [] x h = cc
  find-true p (y ∷ ys) x h = ground (arith, find-true p ys x)

  pub find-append :
      (p : A → Bool) (xs ys : List A) → find p (xs ++ ys) ≡ or_else (find p xs) (find p ys)
  find-append p [] ys = refl
  find-append p (x ∷ xs) ys = ground (arith, find-append p xs ys)

  -- A lookup by what the update keeps finds the updated row.
  pub find-update_where :
      (q p : A → Bool) (f : A → A)
      → ((x : A) → q (f x) ≡ q x)
      → (xs : List A) → find q (update_where p f xs) ≡ omap (updated p f) (find q xs)
  find-update_where q p f keep [] = refl
  find-update_where q p f keep (x ∷ xs) = ground (arith, keep x, find-update_where q p f keep xs)

  pub select-update_where :
      (q p : A → Bool) (f : A → A)
      → ((x : A) → q (f x) ≡ q x)
      → (xs : List A) → select q (update_where p f xs) ≡ map (updated p f) (select q xs)
  select-update_where q p f keep [] = refl
  select-update_where q p f keep (x ∷ xs) =
      ground (arith, keep x, select-update_where q p f keep xs)

  pub select-append :
      (p : A → Bool) (xs ys : List A) → select p (xs ++ ys) ≡ select p xs ++ select p ys
  select-append p [] ys = refl
  select-append p (x ∷ xs) ys = ground (arith, select-append p xs ys)

  pub select-delete_where : (p : A → Bool) (xs : List A) → select p (delete_where p xs) ≡ []
  select-delete_where p [] = refl
  select-delete_where p (x ∷ xs) = ground (arith, select-delete_where p xs)

  pub All-select : (p : A → Bool) (xs : List A) → All (λ x. p x ≡ true) (select p xs)
  All-select p [] = tt
  All-select p (x ∷ xs) = elim (Bool-cases (p x)) [
    | inl e ↦ rw e (e, All-select p xs)
    | inr e ↦ rw e (All-select p xs)
  ]

module _ {ℓ κ} {A : Type ℓ} (P : A → Type κ) where
  pub All-append : (xs ys : List A) → All P xs → All P ys → All P (xs ++ ys)
  All-append [] ys h k = k
  All-append (x ∷ xs) ys h k = (h.0, All-append xs ys h.1 k)

  pub All-update_where :
      (p : A → Bool) (f : A → A)
      → ((x : A) → P x → P (f x))
      → (xs : List A) → All P xs
      → All P (update_where p f xs)
  All-update_where p f keep [] h = tt
  All-update_where p f keep (x ∷ xs) h = (row (p x), All-update_where p f keep xs h.1)
    where
      row : (b : Bool) → P (if b then f x else x)
      row true = keep x h.0
      row false = h.0

  pub All-delete_where : (p : A → Bool) (xs : List A) → All P xs → All P (delete_where p xs)
  All-delete_where p [] h = tt
  All-delete_where p (x ∷ xs) h = elim (Bool-cases (p x)) [
    | inl e ↦ rw e (All-delete_where p xs h.1)
    | inr e ↦ rw e (h.0, All-delete_where p xs h.1)
  ]

  pub All-find : (p : A → Bool) (xs : List A) (x : A) → All P xs → find p xs ≡ some x → P x
  All-find p [] x h e = cc
  All-find p (y ∷ ys) x h e = elim (Bool-cases (p y)) [
    | inl b ↦ let q : y ≡ x = ground arith in subst P q h.0
    | inr b ↦ All-find p ys x h.1 (rw b at e)
  ]

module _ {ℓ κ} {A : Type ℓ} {K : Type κ} (key : A → K) where
  -- No two rows of the table share a key.
  abbrev pub Distinct : List A → Type κ
  Distinct [] = Unit
  Distinct (x ∷ xs) = All (λ y. key x ≢ key y) xs × Distinct xs

  map_row :
      (p : A → Bool) (f : A → A)
      → ((x : A) → key (f x) ≡ key x)
      → (x : A) → key (updated p f x) ≡ key x
  map_row p f keep x = by_test (p x)
    where
      by_test : (b : Bool) → key (if b then f x else x) ≡ key x
      by_test true = keep x
      by_test false = refl

  All-ne-update :
      (k k' : K) (p : A → Bool) (f : A → A)
      → k ≡ k'
      → ((x : A) → key (f x) ≡ key x)
      → (xs : List A) → All (λ y. k' ≢ key y) xs
      → All (λ y. k ≢ key y) (update_where p f xs)
  All-ne-update k k' p f e keep [] h = tt
  All-ne-update k k' p f e keep (x ∷ xs) h =
      (λ q. h.0 (sym e ∙ q ∙ map_row p f keep x), All-ne-update k k' p f e keep xs h.1)

  pub Distinct-update_where :
      (p : A → Bool) (f : A → A)
      → ((x : A) → key (f x) ≡ key x)
      → (xs : List A) → Distinct xs
      → Distinct (update_where p f xs)
  Distinct-update_where p f keep [] h = tt
  Distinct-update_where p f keep (x ∷ xs) h = (
    All-ne-update (key (updated p f x)) (key x) p f (map_row p f keep x) keep xs h.0,
    Distinct-update_where p f keep xs h.1,
  )

  pub Distinct-delete_where :
      (p : A → Bool) (xs : List A) → Distinct xs → Distinct (delete_where p xs)
  Distinct-delete_where p [] h = tt
  Distinct-delete_where p (x ∷ xs) h = elim (Bool-cases (p x)) [
    | inl e ↦ rw e (Distinct-delete_where p xs h.1)
    | inr e ↦ rw e (All-delete_where (λ y. key x ≢ key y) p xs h.0, Distinct-delete_where p xs h.1)
  ]

  pub Distinct-append :
      (xs : List A) (y : A) → Distinct xs → All (λ x. key x ≢ key y) xs → Distinct (xs ++ y ∷ [])
  Distinct-append [] y h k = (tt, tt)
  Distinct-append (x ∷ xs) y h k =
      (All-append (λ z. key x ≢ key z) xs (y ∷ []) h.0 (k.0, tt), Distinct-append xs y h.1 k.1)

module _ {ℓ} {A : Type ℓ} where
  pub find-none : (p : A → Bool) (xs : List A) → find p xs ≡ none → All (λ x. p x ≡ false) xs
  find-none p [] h = tt
  find-none p (x ∷ xs) h = let e : p x ≡ false = ground arith in (e, find-none p xs (ground arith))

-- What an optional value satisfies, if it is there.
abbrev pub OnSome {ℓ κ} : {A : Type ℓ} → (A → Type κ) → Option A → Type κ
OnSome P none = Unit
OnSome P (some x) = P x

pub OnSome-if {ℓ κ} :
    {A : Type ℓ} (P : A → Type κ) (b : Bool) (o o' : Option A)
    → OnSome P o
    → OnSome P o'
    → OnSome P (if b then o else o')
OnSome-if P true o o' h k = h
OnSome-if P false o o' h k = k

-- Where keys are distinct, any lookup that finds a row finds the one with its key.
pub find_by_key {ℓ} :
    {A : Type ℓ} (key : A → ℕ) (q : A → Bool) (k : ℕ) (s : A) (xs : List A)
    → Distinct key xs
    → key s ≡ k
    → find q xs ≡ some s
    → find (λ x. nat_beq (key x) k) xs ≡ some s
find_by_key key q k s [] d e h = cc
find_by_key key q k s (x ∷ xs) d e h = elim (Bool-cases (q x)) [
  | inl b ↦ let p : x ≡ s = ground arith in rw p (rw ((nat_beq_iff (key s) k).1 e))
  | inr b ↦
      let p : find q xs ≡ some s = ground arith in
      let ne : key x ≢ key s = All-find (λ y. key x ≢ key y) q xs s d.0 p in
      ground (arith, find_by_key key q k s xs d.1 e p)
]

-- An update of the rows with one key is not seen among the others.
pub select-update_other {ℓ} :
    {A : Type ℓ} (key : A → ℕ) (k : ℕ) (f : A → A)
    → ((x : A) → key (f x) ≡ key x)
    → (xs : List A)
    → select (λ x. not (nat_beq (key x) k)) (update_where (λ x. nat_beq (key x) k) f xs)
      ≡ select (λ x. not (nat_beq (key x) k)) xs
select-update_other key k f keep [] = refl
select-update_other key k f keep (x ∷ xs) =
    ground (arith, keep x, select-update_other key k f keep xs)

Distinct_later {ℓ} :
    {A : Type ℓ} (key : A → ℕ) (x : A) (rows xs : List A)
    → All (λ y. key x ≢ key y) xs
    → All (λ y. find (λ z. nat_beq (key z) (key y)) rows ≡ some y) xs
    → All (λ y. find (λ z. nat_beq (key z) (key y)) (x ∷ rows) ≡ some y) xs
Distinct_later key x rows [] n h = tt
Distinct_later key x rows (y ∷ ys) n h =
    (ground (arith, nat_beq_iff (key x) (key y)), Distinct_later key x rows ys n.1 h.1)

-- Where keys are distinct, each row is found by its key.
pub Distinct-find {ℓ} :
    {A : Type ℓ} (key : A → ℕ) (xs : List A)
    → Distinct key xs
    → All (λ x. find (λ y. nat_beq (key y) (key x)) xs ≡ some x) xs
Distinct-find key [] d = tt
Distinct-find key (x ∷ xs) d = (
  rw ((nat_beq_iff (key x) (key x)).1 refl),
  Distinct_later key x xs xs d.0 (Distinct-find key xs d.1),
)
