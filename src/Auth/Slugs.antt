-- ===== src/Auth/Slugs.antt =====
-- The shape of what _slugify of backend/app/auth/router.py gives.
use Prim.Native.Char.{Char}
use ai_badge.Prelude.{
  if◌then◌else◌, Bool-cases, String, ◌≡◌, refl, inl, inr, Bool, true, false, not, ◌&&◌, arith,
}
use ai_badge.Auth.Slug.{
  is_slug_char, collapse, is_dash, strip_left, cons_dash, cons_unless, strip_right, slugify,
}

-- A text of slug characters and single dashes, none of them at its front if `after` says that a dash
-- stands before it.
abbrev pub is_chain : Bool → String → Bool
is_chain after String.[] = true
is_chain after (String.◌∷◌ c s) =
    let inside = is_chain false s in
    let behind = is_chain true s in
    if is_dash c then not after && behind else is_slug_char c && inside

-- Whether the last character is a dash.
abbrev pub ends_in_dash : String → Bool
ends_in_dash String.[] = false
ends_in_dash (String.◌∷◌ c String.[]) = is_dash c
ends_in_dash (String.◌∷◌ c s) = ends_in_dash s

slug_char-not_dash : (c : Char) → is_slug_char c ≡ true → is_dash c ≡ false
slug_char-not_dash c h = ground arith

dashed-chain : (r : Bool) (s : String) → is_chain true s ≡ true → is_chain r (cons_dash r s) ≡ true
dashed-chain true s h = h
dashed-chain false s h = h

collapse-chain : (r : Bool) (s : String) → is_chain r (collapse r s) ≡ true
unfolding collapse
collapse-chain r String.[] = refl
collapse-chain r (String.◌∷◌ c s) = elim (Bool-cases (is_slug_char c)) [
  | inl e ↦ rw e (let d = slug_char-not_dash c e in rw (d, e) (collapse-chain false s))
  | inr e ↦ rw e (dashed-chain r (collapse true s) (collapse-chain true s))
]

strip_left-chain :
    (r : Bool) (s : String) → is_chain r s ≡ true → is_chain true (strip_left s) ≡ true
unfolding strip_left
strip_left-chain r String.[] h = refl
strip_left-chain r (String.◌∷◌ c s) h = elim (Bool-cases (is_dash c)) [
  | inl e ↦ rw e (strip_left-chain true s (ground (arith, h, e)))
  | inr e ↦ rw e (ground (arith, h, e))
]

kept-chain :
    (r b : Bool) (c : Char) (s : String)
    → is_chain r (String.◌∷◌ c s) ≡ true
    → is_chain r (cons_unless b c s) ≡ true
kept-chain r true c String.[] h = refl
kept-chain r true c (String.◌∷◌ d s) h = h
kept-chain r false c s h = h

strip_right-chain :
    (r : Bool) (s : String) → is_chain r s ≡ true → is_chain r (strip_right s) ≡ true
unfolding strip_right
strip_right-chain r String.[] h = refl
strip_right-chain r (String.◌∷◌ c s) h =
    kept-chain r (is_dash c) c (strip_right s) (elim (Bool-cases (is_dash c)) [
      | inl e ↦ ground (arith, h, e, strip_right-chain true s)
      | inr e ↦ ground (arith, h, e, strip_right-chain false s)
    ])

kept-ends :
    (c : Char) (s : String)
    → ends_in_dash s ≡ false
    → ends_in_dash (cons_unless (is_dash c) c s) ≡ false
kept-ends c String.[] h = elim (Bool-cases (is_dash c)) [
  | inl e ↦ rw e refl
  | inr e ↦ rw e (rw e refl)
]
kept-ends c (String.◌∷◌ d s) h = elim (Bool-cases (is_dash c)) [ inl e ↦ rw e h | inr e ↦ rw e h ]

strip_right-ends : (s : String) → ends_in_dash (strip_right s) ≡ false
unfolding strip_right
strip_right-ends String.[] = refl
strip_right-ends (String.◌∷◌ c s) = kept-ends c (strip_right s) (strip_right-ends s)

-- Whatever the name is, and however Python lowers and strips it, its slug has only the characters
-- a to z, 0 to 9 and single dashes, and has no dash at its front or at its end.
pub slugify-chain :
    (lower_strip : String → String) (name : String)
    → (is_chain true (slugify lower_strip name) ≡ true)
      × (ends_in_dash (slugify lower_strip name) ≡ false)
unfolding slugify
slugify-chain lower_strip name =
    let s = lower_strip name in
    (
      strip_right-chain true (strip_left (collapse false s))
          (strip_left-chain false (collapse false s) (collapse-chain false s)),
      strip_right-ends (strip_left (collapse false s)),
    )
