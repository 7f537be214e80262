-- ===== src/Auth/Slug.antt =====
-- _slugify of backend/app/auth/router.py. Python's `lower` and `strip` follow the Unicode tables and
-- are parameters; the two steps behind them are written out over the characters of a text.
use Prim.Native.Char.{Char, code}
use ai_badge.Prelude.{
  leb, if◌then◌else◌, ◌==◌, nat_eq, string_eq, String, ◌≡◌, refl, Bool, true, false, ◌&&◌, ◌||◌,
}

-- `[a-z0-9]`
abbrev pub is_slug_char : Char → Bool
is_slug_char c =
    (leb b'a' (code c) && leb (code c) b'z') || (leb b'0' (code c) && leb (code c) b'9')

abbrev pub cons_dash : Bool → String → String
cons_dash true s = s
cons_dash false s = String.◌∷◌ "-" s

-- `re.sub("[^a-z0-9]+", "-", s)`: the flag says that a run of other characters is open.
unfoldable pub collapse : Bool → String → String
collapse in_run String.[] = String.[]
collapse in_run (String.◌∷◌ c s) =
    let inside = collapse false s in
    let outside = collapse true s in
    if is_slug_char c then String.◌∷◌ c inside else cons_dash in_run outside

abbrev pub is_dash : Char → Bool
is_dash c = code c == b'-'

-- `s.strip("-")`, from the left and from the right
unfoldable pub strip_left : String → String
strip_left String.[] = String.[]
strip_left (String.◌∷◌ c s) = let rest = strip_left s in if is_dash c then rest else String.◌∷◌ c s

abbrev pub cons_unless : Bool → Char → String → String
cons_unless true c String.[] = String.[]
cons_unless _ c s = String.◌∷◌ c s

unfoldable pub strip_right : String → String
strip_right String.[] = String.[]
strip_right (String.◌∷◌ c s) = cons_unless (is_dash c) c (strip_right s)

unfoldable pub slugify : (String → String) → String → String
unfolding collapse strip_left strip_right
slugify lower_strip name = strip_right (strip_left (collapse false (lower_strip name)))

slugify_badge : slugify (λ s. s) "  ai badge: team 1!" ≡ "ai-badge-team-1"
unfolding slugify
slugify_badge = refl
