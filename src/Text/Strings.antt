-- ===== src/Text/Strings.antt =====
-- Python's `str` where the program looks into a text: stripping, words, prefixes and the character
-- classes of its short patterns.
use Prim.Native.Char.{Char, code}
use Prim.Native.String.{len, slice, count}
use sanare_agent_core.Base.{
  ℕ, zero, suc, ◌-◌, String, Bool, true, false, ◌&&◌, ◌||◌, List, [], ◌∷◌, ltb, leb, ◌==◌,
  if◌then◌else◌, str_eq, string_append, starts_with,
}
use sanare_agent_core.Text.{is_space}

-- len(s)
abbrev pub chars : String → ℕ
chars = count

unfoldable pub ends_with : String → String → Bool
ends_with s t = leb (len t) (len s) && str_eq (slice s (len s - len t) (len s)) t

unfoldable pub lstrip : String → String
lstrip String.[] = String.[]
lstrip (String.◌∷◌ c s) = let rest = lstrip s in if is_space (code c) then rest else String.◌∷◌ c s

rstrip_onto : Char → String → String
rstrip_onto c String.[] = if is_space (code c) then String.[] else String.◌∷◌ c String.[]
rstrip_onto c (String.◌∷◌ d s) = String.◌∷◌ c (String.◌∷◌ d s)

unfoldable pub rstrip : String → String
unfolding rstrip_onto
rstrip String.[] = String.[]
rstrip (String.◌∷◌ c s) = rstrip_onto c (rstrip s)

unfoldable pub strip : String → String
unfolding lstrip rstrip
strip s = rstrip (lstrip s)

-- The words of the rest of a text, one space before each that a gap comes before.
tidy_from : Bool → String → String
tidy_from gap String.[] = String.[]
tidy_from gap (String.◌∷◌ c s) = elim (is_space (code c)) [
  | true ↦ tidy_from true s
  | false ↦ string_append (if gap then " " else "") (String.◌∷◌ c (tidy_from false s))
]

-- ' '.join(s.split())
unfoldable pub tidy : String → String
unfolding tidy_from lstrip
tidy s = tidy_from false (lstrip s)

-- s[:n]
unfoldable pub first : ℕ → String → String
first zero s = String.[]
first (suc n) String.[] = String.[]
first (suc n) (String.◌∷◌ c s) = String.◌∷◌ c (first n s)

-- separator.join(parts)
unfoldable pub join_with : String → List String → String
join_with sep [] = ""
join_with sep (s ∷ []) = s
join_with sep (s ∷ (t ∷ ts)) = string_append s (string_append sep (join_with sep (t ∷ ts)))

-- Every character is of the class.
unfoldable pub every : (ℕ → Bool) → String → Bool
every p String.[] = true
every p (String.◌∷◌ c s) = p (code c) && every p s

-- [0-9a-f]
unfoldable pub is_hex : ℕ → Bool
is_hex c = (leb 48 c && leb c 57) || (leb 97 c && leb c 102)

-- [A-Za-z0-9_-]
unfoldable pub is_word : ℕ → Bool
is_word c =
    (leb 48 c && leb c 57)
    || (leb 65 c && leb c 90)
    || (leb 97 c && leb c 122)
    || c == 95
    || c == 45

-- [0-9a-f]{n}
unfoldable pub hex_digits : ℕ → String → Bool
unfolding is_hex every
hex_digits n s = chars s == n && every is_hex s

-- prefix[0-9a-f]{n}
unfoldable pub hex_after : String → ℕ → String → Bool
unfolding hex_digits
hex_after prefix n s = starts_with s prefix && hex_digits n (slice s (len prefix) (len s))

-- s[n:] of an ASCII text.
unfoldable pub behind : ℕ → String → String
behind n s = slice s n (len s)

-- [A-Za-z0-9_.-]+\.json
unfoldable pub json_name : String → Bool
unfolding is_word every ends_with
json_name s = ends_with s ".json" && ltb 5 (chars s) && every (λ c. is_word c || c == 46) s
