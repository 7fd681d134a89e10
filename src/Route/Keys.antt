-- ===== src/Route/Keys.antt =====
-- CREDENTIAL_QUERY_KEY of shared/model-route.ts, a search for one of its words in a key.
use zch_coding_agent.Base.{
  ℕ, ◌+◌, Bool, true, false, ◌&&◌, ◌||◌, List, [], ◌∷◌, leb, if◌then◌else◌, ◌==◌, nat_eq, string_eq,
}

-- Simple case folding as the flags `iu` make it, for the letters that occur in the words: beside
-- the ASCII capitals, the long s and the Kelvin sign.
pub fold_case : ℕ → ℕ
fold_case c =
    if leb b'A' c && leb c b'Z'
    then c + 32
    else if c == 0x17f
    then b's'
    else if c == 0x212a
    then b'k'
    else c

pub matches_at : List ℕ → List ℕ → Bool
matches_at [] s = true
matches_at (w ∷ word) [] = false
matches_at (w ∷ word) (c ∷ s) = fold_case c == w && matches_at word s

pub contains_word : List ℕ → List ℕ → Bool
contains_word word [] = matches_at word []
contains_word word (c ∷ s) = matches_at word (c ∷ s) || contains_word word s

abbrev pub words : List (List ℕ)
words =
    (b'a' ∷ b'p' ∷ b'i' ∷ b'k' ∷ b'e' ∷ b'y' ∷ [])
    ∷ (b'a' ∷ b'p' ∷ b'i' ∷ b'-' ∷ b'k' ∷ b'e' ∷ b'y' ∷ [])
    ∷ (b'a' ∷ b'p' ∷ b'i' ∷ b'_' ∷ b'k' ∷ b'e' ∷ b'y' ∷ [])
    ∷ (b'a' ∷ b'u' ∷ b't' ∷ b'h' ∷ b'o' ∷ b'r' ∷ b'i' ∷ b'z' ∷ b'a' ∷ b't' ∷ b'i' ∷ b'o' ∷ b'n'
        ∷ [])
    ∷ (b'c' ∷ b'r' ∷ b'e' ∷ b'd' ∷ b'e' ∷ b'n' ∷ b't' ∷ b'i' ∷ b'a' ∷ b'l' ∷ [])
    ∷ (b'p' ∷ b'a' ∷ b's' ∷ b's' ∷ b'w' ∷ b'o' ∷ b'r' ∷ b'd' ∷ [])
    ∷ (b's' ∷ b'e' ∷ b'c' ∷ b'r' ∷ b'e' ∷ b't' ∷ [])
    ∷ (b's' ∷ b'i' ∷ b'g' ∷ b'n' ∷ b'a' ∷ b't' ∷ b'u' ∷ b'r' ∷ b'e' ∷ [])
    ∷ (b't' ∷ b'o' ∷ b'k' ∷ b'e' ∷ b'n' ∷ [])
    ∷ []

any_word : List (List ℕ) → List ℕ → Bool
any_word [] key = false
any_word (w ∷ ws) key = contains_word w key || any_word ws key

pub is_credential_query_key : List ℕ → Bool
unfolding any_word contains_word matches_at fold_case
is_credential_query_key key = any_word words key
