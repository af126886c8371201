-- ===== src/Bench/Search.antt =====
-- Texts as lists of bytes, and `std::string::find`, which `main` of bench/cpp_protobuf/main.cc calls on its
-- JSON texts.
use Prim.Native.Char.{code}
use pbz.Common.{ℕ, List, [], ◌∷◌, Bool, true, false, not, ◌&&◌, ◌||◌, ◌==◌}
use pbz.Bench.Timing.{String}

-- The code points of a text: its bytes, since each text in `main` is ASCII.
abbrev pub codes : String → List ℕ
codes String.[] = []
codes (String.◌∷◌ c s) = code c ∷ codes s

unfoldable pub begins : List ℕ → List ℕ → Bool
begins [] text = true
begins (p ∷ ps) [] = false
begins (p ∷ ps) (c ∷ cs) = p == c && begins ps cs

-- `text.find(pattern) != std::string::npos`.
unfoldable pub contains : List ℕ → List ℕ → Bool
unfolding begins
contains [] pattern = begins pattern []
contains (c ∷ cs) pattern = begins pattern (c ∷ cs) || contains cs pattern

-- `text.find(pattern) == std::string::npos`.
abbrev pub lacks : List ℕ → String → Bool
lacks text pattern = not (contains text (codes pattern))
