-- ===== src/Text/Trim.antt =====
-- `trim` and `toUpperCase` of strings, and the part before a separator. Of `toUpperCase`, the letters
-- a to z: no other code unit turns into a single letter A to Z but the two below.
use void.Base.{ℕ, ◌-◌, Bool, ◌||◌, ◌&&◌, List, [], ◌∷◌, map, if◌then◌else◌, leb, ◌==◌, any}
use void.Text.{Text}

-- The white space and line ends of the language.
abbrev pub space_codes : List ℕ
space_codes =
    9 ∷ 10 ∷ 11 ∷ 12 ∷ 13 ∷ 32 ∷ 160 ∷ 5760 ∷ 8232 ∷ 8233 ∷ 8239 ∷ 8287 ∷ 12288 ∷ 65279 ∷ []

unfoldable pub is_space : ℕ → Bool
is_space c = any (λ s. c == s) space_codes || leb 8192 c && leb c 8202

unfoldable pub trim_start : Text → Text
unfolding is_space
trim_start [] = []
trim_start (c ∷ cs) = let rest = trim_start cs in if is_space c then rest else c ∷ cs

unfoldable pub trim_end : Text → Text
unfolding is_space
trim_end [] = []
trim_end (c ∷ cs) = end_with c (trim_end cs)
  where
    end_with : ℕ → Text → Text
    end_with c [] = if is_space c then [] else c ∷ []
    end_with c (d ∷ ds) = c ∷ d ∷ ds

abbrev pub trim : Text → Text
trim t = trim_end (trim_start t)

-- The dotless i and the long s are the two others.
unfoldable pub upper_code : ℕ → ℕ
upper_code c =
    if leb 97 c && leb c 122 then c - 32 else if c == 305 then 73 else if c == 383 then 83 else c

unfoldable pub upper : Text → Text
unfolding upper_code
upper t = map upper_code t

-- `t.split(sep)[0]`
unfoldable pub before : ℕ → Text → Text
before sep [] = []
before sep (c ∷ cs) = let rest = before sep cs in if c == sep then [] else c ∷ rest
