-- ===== src/Base/Texts.antt =====
-- Python's operations on texts: `strip`, `len`, and prefixes whatever the case.
use Prim.Native.Char.{Char, code}
use looma.Base.{
  [], ◌∷◌, true, List, ltb, ◌-◌, ◌%◌, arith, ◌≡◌, ◌<◌, ◌/◌, ◌*◌, leb, eqb, if◌then◌else◌, string_eq,
  nat_eq, ℕ, suc, ◌+◌, String, Bool, false, ◌&&◌, ◌||◌, Option, none, some, zero, refl, sym, ap,
  ◌∙◌, Bool-cases, inl, inr,
}

-- What `str.isspace` accepts of one character.
abbrev is_space : ℕ → Bool
is_space n =
    (leb 9 n && leb n 13)
    || (leb 28 n && leb n 32)
    || eqb n 133
    || eqb n 160
    || eqb n 5760
    || (leb 8192 n && leb n 8202)
    || eqb n 8232
    || eqb n 8233
    || eqb n 8239
    || eqb n 8287
    || eqb n 12288

unfoldable pub lstrip : String → String
lstrip String.[] = ""
lstrip (String.◌∷◌ c s) = let rest = lstrip s in if is_space (code c) then rest else String.◌∷◌ c s

abbrev drop_space : ℕ → String → String → String
drop_space n String.[] whole = if is_space n then "" else whole
drop_space n (String.◌∷◌ d t) whole = whole

unfoldable pub rstrip : String → String
rstrip String.[] = ""
rstrip (String.◌∷◌ c s) = let rest = rstrip s in drop_space (code c) rest (String.◌∷◌ c rest)

-- `s.strip()`
unfoldable pub strip : String → String
unfolding lstrip rstrip
strip s = rstrip (lstrip s)

-- `len(s)`
unfoldable pub text_length : String → ℕ
text_length String.[] = 0
text_length (String.◌∷◌ c s) = suc (text_length s)

-- `"@" in s`, by the number of the character.
unfoldable pub has_char : ℕ → String → Bool
has_char n String.[] = false
has_char n (String.◌∷◌ c s) = eqb (code c) n || has_char n s

abbrev lower_code : ℕ → ℕ
lower_code n = if leb 65 n && leb n 90 then n + 32 else n

-- What is left of `s` behind a prefix in small letters, which `s` may spell in any case.
unfoldable pub after_prefix : String → String → Option String
after_prefix String.[] s = some s
after_prefix (String.◌∷◌ p ps) String.[] = none
after_prefix (String.◌∷◌ p ps) (String.◌∷◌ c s) =
    let rest = after_prefix ps s in if eqb (lower_code (code c)) (code p) then rest else none

-- One more character of the first piece.
abbrev put_char : Char → List String → List String
put_char c [] = String.◌∷◌ c "" ∷ []
put_char c (s ∷ ss) = String.◌∷◌ c s ∷ ss

-- `s.split("/")`, by the number of the separator.
unfoldable pub split : ℕ → String → List String
split n String.[] = "" ∷ []
split n (String.◌∷◌ c s) =
    let rest = split n s in if eqb (code c) n then "" ∷ rest else put_char c rest

-- `s.startswith(p)`
unfoldable pub starts_with : String → String → Bool
starts_with String.[] s = true
starts_with (String.◌∷◌ d p) String.[] = false
starts_with (String.◌∷◌ d p) (String.◌∷◌ c s) = eqb (code c) (code d) && starts_with p s

-- `p in s`
unfoldable pub has_text : String → String → Bool
unfolding starts_with
has_text p String.[] = starts_with p ""
has_text p (String.◌∷◌ c s) = starts_with p (String.◌∷◌ c s) || has_text p s

-- `s + t`
unfoldable pub join : String → String → String
join String.[] t = t
join (String.◌∷◌ c s) t = String.◌∷◌ c (join s t)

abbrev digit : ℕ → Char
digit zero = "0"
digit (suc zero) = "1"
digit (suc (suc zero)) = "2"
digit (suc (suc (suc zero))) = "3"
digit (suc (suc (suc (suc zero)))) = "4"
digit (suc (suc (suc (suc (suc zero))))) = "5"
digit (suc (suc (suc (suc (suc (suc zero)))))) = "6"
digit (suc (suc (suc (suc (suc (suc (suc zero))))))) = "7"
digit (suc (suc (suc (suc (suc (suc (suc (suc zero)))))))) = "8"
digit (suc (suc (suc (suc (suc (suc (suc (suc (suc _))))))))) = "9"

code-digit : (n : ℕ) → n < 10 → code (digit n) ≡ 48 + n
code-digit zero h = refl
code-digit (suc zero) h = refl
code-digit (suc (suc zero)) h = refl
code-digit (suc (suc (suc zero))) h = refl
code-digit (suc (suc (suc (suc zero)))) h = refl
code-digit (suc (suc (suc (suc (suc zero))))) h = refl
code-digit (suc (suc (suc (suc (suc (suc zero)))))) h = refl
code-digit (suc (suc (suc (suc (suc (suc (suc zero))))))) h = refl
code-digit (suc (suc (suc (suc (suc (suc (suc (suc zero)))))))) h = refl
code-digit (suc (suc (suc (suc (suc (suc (suc (suc (suc n))))))))) h = omega (arith, h)

-- The decimal digits of `n` in front of a text.
digits : ℕ → ℕ → String → String
digits zero n s = s
digits (suc f) n s =
    let rest = digits f (n / 10) (String.◌∷◌ (digit (n % 10)) s) in
    if ltb n 10 then String.◌∷◌ (digit (n % 10)) s else rest

-- `str(n)`
unfoldable pub show : ℕ → String
unfolding digits
show n = digits (n + 1) n ""

-- The number that a text of digits stands for, behind a number read so far.
unfoldable pub read_from : ℕ → String → ℕ
read_from v String.[] = v
read_from v (String.◌∷◌ c s) = read_from (v * 10 + (code c - 48)) s

read_from-digits : (f n : ℕ) (s : String) → n < f → read_from 0 (digits f n s) ≡ read_from n s
unfolding digits read_from
read_from-digits zero n s h = absurd (omega (arith, h))
read_from-digits (suc f) n s h = elim (Bool-cases (ltb n 10)) [
  | inl small ↦ rw (small, read_from) (ground (arith, code-digit n, small))
  | inr large ↦ rw large (
      read_from-digits f (n / 10) (String.◌∷◌ (digit (n % 10)) s) (ground (arith, h, large))
      ∙ ap (λ v. read_from v s) (ground (arith, code-digit (n % 10))))
]

tail_of : {c : Char} {s t : String} → Path String (String.◌∷◌ c s) (String.◌∷◌ c t) → s ≡ t
tail_of e = cc

join_cancel : (s t u : String) → join s t ≡ join s u → t ≡ u
unfolding join
join_cancel String.[] t u e = e
join_cancel (String.◌∷◌ c s) t u e = join_cancel s t u (tail_of e)

-- Different numbers are different texts, also behind a common one.
pub join-show_cancel : (s : String) (m n : ℕ) → join s (show m) ≡ join s (show n) → m ≡ n
unfolding show read_from
join-show_cancel s m n e =
    sym (read_from-digits (m + 1) m "" (omega arith))
    ∙ ap (read_from 0) (join_cancel s (show m) (show n) e)
    ∙ read_from-digits (n + 1) n "" (omega arith)

-- `int(str(n))`
pub read_from-show : (n : ℕ) → read_from 0 (show n) ≡ n
unfolding show read_from
read_from-show n = read_from-digits (n + 1) n "" (omega arith)
