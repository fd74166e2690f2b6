-- ===== src/Json/Utf8.antt =====
-- UTF-8, for the code points that `str.encode("utf-8")` takes.
use Prim.Native.Nat.{◌/◌, ◌%◌}
use n8n_operator.Base.{ℕ, ◌+◌, [], ◌∷◌, ◌++◌, Text, ltb, if◌then◌else◌, ◌≡◌, true, refl}

utf8_char : ℕ → Text
utf8_char c =
    if ltb c 128
    then c ∷ []
    else if ltb c 2048
    then (192 + c / 64) ∷ (128 + c % 64) ∷ []
    else if ltb c 65536
    then (224 + c / 4096) ∷ (128 + c / 64 % 64) ∷ (128 + c % 64) ∷ []
    else (240 + c / 262144) ∷ (128 + c / 4096 % 64) ∷ (128 + c / 64 % 64) ∷ (128 + c % 64) ∷ []

unfoldable pub utf8 : Text → Text
unfolding utf8_char
utf8 [] = []
utf8 (c ∷ s) = utf8_char c ++ utf8 s

pub utf8-ascii : (c : ℕ) → ltb c 128 ≡ true → utf8 (c ∷ []) ≡ c ∷ []
unfolding utf8 utf8_char
utf8-ascii c h = rw h refl
