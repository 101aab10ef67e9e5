-- ===== src/Text.antt =====
-- Python texts as lists of code points, where the program measures or cuts them
-- (src/deep_agent/msty_compaction.py: `_clip`, `_clip_bytes`).
pub mod Cutting
pub mod Strings
use Prim.Native.Char.{code}
use sanare_agent_core.Base.{
  ℕ, ◌+◌, ◌-◌, String, Bool, true, false, not, ◌&&◌, ◌||◌, List, [], ◌∷◌, ◌++◌, ltb, leb, ◌==◌,
  if◌then◌else◌, length, take,
}

abbrev pub Text : Type 0
Text = List ℕ

-- The code points of a literal.
abbrev pub codes : String → Text
codes String.[] = []
codes (String.◌∷◌ c s) = code c ∷ codes s

-- The length of a code point in UTF-8.
unfoldable pub width : ℕ → ℕ
width c = if ltb c 0x80 then 1 else if ltb c 0x800 then 2 else if ltb c 0x10000 then 3 else 4

-- len(text.encode('utf-8'))
unfoldable pub bytes : Text → ℕ
unfolding width
bytes [] = 0
bytes (c ∷ t) = width c + bytes t

-- data[:n].decode('utf-8', 'ignore') of an encoded text: the whole characters within n bytes.
unfoldable pub cut : ℕ → Text → Text
unfolding width
cut n [] = []
cut n (c ∷ t) = let rest = cut (n - width c) t in if leb (width c) n then c ∷ rest else []

abbrev pub ellipsis : ℕ
ellipsis = 0x2026

unfoldable pub clip_bytes : Text → ℕ → Text
unfolding bytes cut
clip_bytes text limit =
    if leb (bytes text) limit then text else cut (limit - 3) text ++ ellipsis ∷ []

-- The whitespace of `str.split()`.
unfoldable pub is_space : ℕ → Bool
is_space c =
    (leb 9 c && leb c 13)
    || (leb 28 c && leb c 32)
    || c == 0x85
    || c == 0xa0
    || c == 0x1680
    || (leb 0x2000 c && leb c 0x200a)
    || c == 0x2028
    || c == 0x2029
    || c == 0x202f
    || c == 0x205f
    || c == 0x3000

-- bool(text.strip())
unfoldable pub has_ink : Text → Bool
unfolding is_space
has_ink [] = false
has_ink (c ∷ t) = not (is_space c) || has_ink t

-- The words read so far, given the text up to the next space.
flush : Text → List Text → List Text
flush [] ws = ws
flush (c ∷ w) ws = (c ∷ w) ∷ ws

split_from : Text → Text → List Text
split_from word [] = flush word []
split_from word (c ∷ t) =
    if is_space c then flush word (split_from [] t) else split_from (word ++ c ∷ []) t

-- text.split()
unfoldable pub split : Text → List Text
unfolding is_space flush split_from
split = split_from []

-- separator.join(parts)
unfoldable pub join : Text → List Text → Text
join sep [] = []
join sep (w ∷ []) = w
join sep (w ∷ v ∷ ws) = w ++ (sep ++ join sep (v ∷ ws))

-- `_clip` of a text: one space between words, then at most `limit` characters and the mark.
unfoldable pub clip : Text → ℕ → Text
unfolding split join
clip value limit =
    let text = join (codes " ") (split value) in
    if leb (length text) limit then text else take limit text ++ ellipsis ∷ []
