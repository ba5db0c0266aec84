-- ===== src/Intent/Hangul.antt =====
-- brain/intent/catalog.py: Hangul syllables and their pronunciation keys
use nubjuk_brain.Prelude.{
  ℕ, ◌+◌, ◌*◌, ◌-◌, ◌/◌, ◌%◌, ◌<◌, ◌≤◌, ◌≡◌, Bool, true, ◌&&◌, not, List, [], ◌∷◌, ◌++◌, map, Text,
  codes, length, get_or, leb, ◌==◌, if◌then◌else◌, filter_by, arith,
}

unfoldable pub is_hangul_syllable : ℕ → Bool
is_hangul_syllable c = leb 0xAC00 c && leb c 0xD7A3

unfoldable pub hangul_syllables : Text → Text
hangul_syllables text = filter_by is_hangul_syllable text

unfoldable pub hangul_syllable_count : Text → ℕ
hangul_syllable_count text = length (hangul_syllables text)

abbrev pub chosung : Text
chosung = codes "ㄱㄲㄴㄷㄸㄹㅁㅂㅃㅅㅆㅇㅈㅉㅊㅋㅌㅍㅎ"

abbrev pub jungsung : Text
jungsung = codes "ㅏㅐㅑㅒㅓㅔㅕㅖㅗㅘㅙㅚㅛㅜㅝㅞㅟㅠㅡㅢㅣ"

-- The first entry, `""`, stands for a syllable without a final; it is never read.
abbrev pub jongsung : List Text
jongsung = [] ∷ map (λ c. c ∷ []) (codes "ㄱㄲㄳㄴㄵㄶㄷㄹㄺㄻㄼㄽㄾㄿㅀㅁㅂㅄㅅㅆㅇㅈㅊㅋㅌㅍㅎ")

unfoldable pub initial_index : ℕ → ℕ
initial_index c = (c - 0xAC00) / 588

unfoldable pub vowel_index : ℕ → ℕ
vowel_index c = (c - 0xAC00) % 588 / 28

unfoldable pub final_index : ℕ → ℕ
final_index c = (c - 0xAC00) % 28

-- the parts of one syllable
unfoldable pub syllable_key : ℕ → Text
syllable_key c =
    get_or chosung (initial_index c) 0
    ∷ get_or jungsung (vowel_index c) 0
    ∷ (if not (final_index c == 0) then get_or jongsung (final_index c) [] else [])

unfoldable pub hangul_pronunciation_key : Text → Text
hangul_pronunciation_key [] = []
hangul_pronunciation_key (c ∷ text) =
    let rest = hangul_pronunciation_key text in
    if not (is_hangul_syllable c) then rest else syllable_key c ++ rest

-- The tables are never read out of range, and the three indices determine the syllable.
pub syllable_indices :
    (c : ℕ)
    → is_hangul_syllable c ≡ true
    → (initial_index c < length chosung)
      × (vowel_index c < length jungsung)
      × (final_index c < length jongsung)
      × (c ≡ 0xAC00 + (initial_index c * 21 + vowel_index c) * 28 + final_index c)
unfolding is_hangul_syllable initial_index vowel_index final_index
syllable_indices c h =
    let low : 0xAC00 ≤ c = ground arith in
    let high : c ≤ 0xD7A3 = ground arith in (omega arith, omega arith, omega arith, omega arith)
