-- ===== src/Examples/Cipher.antt =====
-- A concrete stand-in for bcrypt and jose that satisfies what is assumed of them: the hash is the
-- password itself, and a token spells its claims, the numbers in unary.
use Prim.Native.Char.{code}
use ai_badge.Prelude.{
  if◌then◌else◌, ◌==◌, nat_eq, string_eq, ℕ, zero, suc, String, ◌≡◌, refl, Option, none, some, leb,
  beq_refl, ◌∙◌, arith,
}
use ai_badge.Auth.Crypto.{Claims, Crypto, IsSound}

spell : ℕ → String → String
spell zero rest = String.◌∷◌ ";" rest
spell (suc n) rest = String.◌∷◌ "1" (spell n rest)

bump : Option (ℕ × String) → Option (ℕ × String)
bump none = none
bump (some (n, rest)) = some (suc n, rest)

read : String → Option (ℕ × String)
unfolding bump
read String.[] = none
read (String.◌∷◌ c s) = let later = read s in if code c == b';' then some (0, s) else bump later

read-spell : (n : ℕ) (rest : String) → read (spell n rest) ≡ some (n, rest)
unfolding read spell
read-spell zero rest = refl
read-spell (suc n) rest = rw (read-spell n rest) refl

with_number : {A : Type 0} → Option (ℕ × String) → (ℕ → String → Option A) → Option A
with_number none f = none
with_number (some (n, rest)) f = f n rest

sub_number : Option ℕ → ℕ
sub_number none = 0
sub_number (some n) = suc n

sub_of : ℕ → Option ℕ
sub_of zero = none
sub_of (suc n) = some n

sub_of-sub_number : (o : Option ℕ) → sub_of (sub_number o) ≡ o
unfolding sub_of sub_number
sub_of-sub_number none = refl
sub_of-sub_number (some n) = refl

pub write : Claims → String
write k = spell (sub_number k.sub) (spell k.org_id (spell k.iat (spell k.exp k.role)))

unexpired : ℕ → Claims → Option Claims
unexpired now k = if leb now k.exp then some k else none

pub parse : ℕ → String → Option Claims
parse now token = with_number (read token) λ sub t. with_number (read t) λ org_id u.
    with_number (read u) λ iat v. with_number (read v) λ exp role.
      unexpired now
        (record { sub = sub_of sub; org_id = org_id; role = role; iat = iat; exp = exp })

parse-write : (now : ℕ) (k : Claims) → parse now (write k) ≡ unexpired now k
unfolding parse write with_number
parse-write now k =
    rw (read-spell (sub_number k.sub) (spell k.org_id (spell k.iat (spell k.exp k.role)))) (
      rw (read-spell k.org_id (spell k.iat (spell k.exp k.role))) (
        rw (read-spell k.iat (spell k.exp k.role))
          (rw (read-spell k.exp k.role) (rw (sub_of-sub_number k.sub) refl))))

abbrev pub open_crypto : Crypto
open_crypto = record {
  hashpw = λ p salt. p;
  checkpw = λ p h. p == h;
  encode = write;
  decode = parse;
}

pub open_crypto-IsSound : IsSound open_crypto
unfolding unexpired
open_crypto-IsSound = record {
  checkpw-hashpw = λ p salt. beq_refl p;
  decode-encode = λ now k le. parse-write now k ∙ ground arith;
  expired = λ now k lt. parse-write now k ∙ ground arith;
}

pub parse_nonsense : (now : ℕ) → parse now "no token" ≡ none
unfolding parse read bump with_number
parse_nonsense now = refl
