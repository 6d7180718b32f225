-- ===== src/Text.antt =====
-- Texts as lists of code points, and the character classes of the patterns that the API checks.
use repo_mentor.Prelude.{
  Bool, List, String, [], false, leb, length, nat_eq, option_eq, string_eq, true, ℕ, ◌&&◌, ◌==◌,
  ◌||◌, ◌∷◌,
}
use Prim.Native.Char.{code}

abbrev pub codes : String → List ℕ
codes String.[] = []
codes (String.◌∷◌ c s) = code c ∷ codes s

unfoldable pub is_digit : ℕ → Bool
is_digit c = leb 48 c && leb c 57

unfoldable pub is_alphanumeric : ℕ → Bool
unfolding is_digit
is_alphanumeric c = is_digit c || (leb 65 c && leb c 90) || (leb 97 c && leb c 122)

unfoldable pub all_codes : (ℕ → Bool) → List ℕ → Bool
all_codes test [] = true
all_codes test (c ∷ cs) = test c && all_codes test cs

-- [A-Za-z0-9._~-]
unfoldable pub is_token_char : ℕ → Bool
unfolding is_alphanumeric
is_token_char c = is_alphanumeric c || c == 46 || c == 95 || c == 126 || c == 45

-- [a-f0-9]
unfoldable pub is_hex : ℕ → Bool
unfolding is_digit
is_hex c = is_digit c || (leb 97 c && leb c 102)

-- /^[A-Za-z0-9][A-Za-z0-9._~-]*$/u
unfoldable pub matches_opaque_id : List ℕ → Bool
unfolding is_alphanumeric is_token_char all_codes
matches_opaque_id [] = false
matches_opaque_id (c ∷ cs) = is_alphanumeric c && all_codes is_token_char cs

-- /^[a-f0-9]{64}$/u
unfoldable pub matches_hash : List ℕ → Bool
unfolding is_hex all_codes
matches_hash cs = all_codes is_hex cs && length cs == 64
