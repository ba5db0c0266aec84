-- ===== src/Pipeline/Qwen/Prompt.antt =====
-- brain/pipeline/qwen_slm.py: `build_intent_prompt`. The text of a score, `f"{score:.3f}"`, is a
-- parameter.
use nubjuk_brain.Prelude.{
  Bool, true, false, List, [], ◌∷◌, ◌++◌, map, Text, codes, length, take, ◌==◌, if◌then◌else◌,
}
use nubjuk_brain.Pipeline.{Float}
use nubjuk_brain.Intent.Normalize.{Unicode}
use nubjuk_brain.Intent.Phonetic.{Floats}
use nubjuk_brain.Intent.Recipe.{contains_text}
use nubjuk_brain.Intent.Catalog.{IntentCatalog, intent_ids, unknown}
use nubjuk_brain.Intent.Pronunciation.{
  IntentCandidate, PronunciationCandidate, candidates, pronunciation_candidates,
}

-- `separator.join(parts)`
unfoldable pub join : Text → List Text → Text
join separator [] = []
join separator (part ∷ []) = part
join separator (part ∷ next ∷ parts) = part ++ (separator ++ join separator (next ∷ parts))

abbrev pub instructions : List Text
instructions =
    codes "You map Korean robot voice ASR text to exactly one intent id."
    ∷ codes
        "ASR text may contain severe spacing errors, homophones, missing syllables, or pronunciation mistakes."
    ∷ codes
        "Compare the ASR text against aliases by robot command meaning and Korean pronunciation."
    ∷ codes
        "Use the pronunciation candidates as strong hints. They are computed from Hangul sound similarity."
    ∷ codes "Do not choose idle unless the ASR text means stay, stop, wait, or hold still."
    ∷ codes "Return only one id from the valid ids, or unknown if none fit."
    ∷ []
    ∷ codes "Valid intents:"
    ∷ []

-- the line of one candidate
unfoldable pub candidate_line : IntentCandidate → Text
candidate_line c =
    let description =
      if length c.description == 0 then [] else codes " (" ++ (c.description ++ codes ")") in
    codes "- "
    ++ (c.intent ++ (description ++ (codes ": " ++ join (codes ", ") (take 10 c.aliases))))

-- the examples for an intent of the catalog
unfoldable pub examples_if : Bool → List (Text × Text) → List (Text × Text)
examples_if true examples = examples
examples_if false examples = []

unfoldable pub prompt_examples : IntentCatalog → List (Text × Text)
prompt_examples c =
    let has = λ (id : Text). contains_text (intent_ids c) id in
    let left = codes "roll_left" in
    let right = codes "roll_right" in
    examples_if (has left)
      ((codes "좌로 글로", left) ∷ (codes "잘 어울려", left) ∷ (codes "잘 어글러", left) ∷ [])
    ++ (examples_if (has right)
          ((codes "우러글라", right) ∷ (codes "울어 굴러", right) ∷ (codes "오른쪽으로 글러", right) ∷ [])
        ++ (examples_if (has (codes "sit")) ((codes "안 자", codes "sit") ∷ [])
            ++ (examples_if (has (codes "stand")) ((codes "너 저기 일어서", codes "stand") ∷ [])
                ++ (examples_if (has (codes "give_hand")) ((codes "손 줘", codes "give_hand") ∷ [])
                    ++ ((codes "가만히 있어", if has (codes "idle") then codes "idle" else unknown)
                        ∷ [])))))

unfoldable pub example_lines : List (Text × Text) → List Text
example_lines [] = []
example_lines ((text, intent) ∷ rest) =
    (codes "ASR text: " ++ (text ++ (codes " -> " ++ intent))) ∷ example_lines rest

unfoldable pub hint_lines : (Float → Text) → List PronunciationCandidate → List Text
hint_lines fixed_3 [] = []
hint_lines fixed_3 (c ∷ rest) =
    (codes "- "
      ++ (c.intent
          ++ (codes ": alias=" ++ (c.alias ++ (codes ", sound_score=" ++ fixed_3 c.score)))))
    ∷ hint_lines fixed_3 rest

-- a heading with its lines, if there are any
unfoldable pub headed : Text → List Text → List Text
headed heading [] = []
headed heading (line ∷ lines) = [] ∷ heading ∷ line ∷ lines

unfoldable pub build_intent_prompt : Unicode → Floats → (Float → Text) → Text → IntentCatalog → Text
build_intent_prompt u fl fixed_3 raw_text c =
    let hints = pronunciation_candidates fl u c raw_text fl.candidate_floor 5 in
    let question = [] ∷ (codes "Current ASR text: \"" ++ (raw_text ++ codes "\"")) ∷ [] in
    join (10 ∷ []) (
      instructions
      ++ (map candidate_line (candidates c)
          ++ (headed (codes "Examples:") (example_lines (prompt_examples c))
              ++ (question
                  ++ (headed (codes "Current pronunciation candidates:") (hint_lines fixed_3 hints)
                      ++ ([] ∷ codes "Intent id:" ∷ []))))))
