-- ===== src/Model/Inversion.antt =====
-- What a successful action or request did on its way.
use ai_badge.Prelude.{◌≡◌, refl, Bool, true, false, Option, none, some, arith}
use ai_badge.Model.Effects.{
  Action, gets, or_raise, raise_if, ◌>>=◌, request, World, Error, Result, ok, err,
}

pub bind-eq-ok :
    {A B : Type 0} (m : Action A) (f : A → Action B) (w w' : World) (b : B)
    → (m >>= f) w ≡ (ok b, w')
    → (a : A) × (v : World) × (m w ≡ (ok a, v)) × (f a v ≡ (ok b, w'))
unfolding ◌>>=◌
bind-eq-ok {A} m f w w' b h = split (m w) refl
  where
    split :
        (r : Result A × World)
        → m w ≡ r
        → (a : A) × (v : World) × (m w ≡ (ok a, v)) × (f a v ≡ (ok b, w'))
    split (ok a, v) e = (a, v, e, ground arith)
    split (err x, v) e = absurd (ground arith)

pub gets-eq-ok :
    {A : Type 0} (f : World → A) (w w' : World) (a : A)
    → gets f w ≡ (ok a, w')
    → (a ≡ f w) × (w' ≡ w)
unfolding gets
gets-eq-ok f w w' a h = (ground arith, ground arith)

pub or_raise-eq-ok :
    {A : Type 0} (o : Option A) (e : Error) (w w' : World) (a : A)
    → or_raise o e w ≡ (ok a, w')
    → (o ≡ some a) × (w' ≡ w)
unfolding or_raise
or_raise-eq-ok none e w w' a h = absurd (ground arith)
or_raise-eq-ok (some x) e w w' a h = (ground arith, ground arith)

pub raise_if-eq-ok :
    (b : Bool) (e : Error) (w w' : World) (u : Unit {0})
    → raise_if b e w ≡ (ok u, w')
    → (b ≡ false) × (w' ≡ w)
unfolding raise_if
raise_if-eq-ok true e w w' u h = absurd (ground arith)
raise_if-eq-ok false e w w' u h = (refl, ground arith)

pub request-eq-ok :
    {A : Type 0} (m : Action A) (w w' : World) (a : A)
    → request m w ≡ (ok a, w')
    → (v : World) × (m w ≡ (ok a, v)) × (w' ≡ record v { saved = v.db })
unfolding request
request-eq-ok {A} m w w' a h = split (m w) refl
  where
    split :
        (r : Result A × World)
        → m w ≡ r
        → (v : World) × (m w ≡ (ok a, v)) × (w' ≡ record v { saved = v.db })
    split (ok x, v) e = (v, ground arith, ground arith)
    split (err x, v) e = absurd (ground arith)

-- One step of a do block that is known.
pub bind-ok :
    {A B : Type 0} (m : Action A) (f : A → Action B) (w u : World) (a : A) (r : Result B × World)
    → m w ≡ (ok a, u)
    → f a u ≡ r
    → (m >>= f) w ≡ r
unfolding ◌>>=◌
bind-ok m f w u a r h k = rw h k
