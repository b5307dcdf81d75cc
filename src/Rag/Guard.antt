-- ===== src/Rag/Guard.antt =====
-- internal/rag/guard.go: the check for injected prompts, and the masking of personal data. `Regex`
-- is the package regexp.
use Prim.Native.String.{◌++◌}
use nimbus_app.Prelude.{
  ℕ, ◌+◌, String, Bool, true, false, List, [], ◌∷◌, ◌++◌ as ◌+++◌, if◌then◌else◌, replace_all,
}
use nimbus_app.Prelude.Fallible.{Fallible, value, failed, decimal}

-- A text cut up by a pattern's matches, as `ReplaceAllStringFunc` goes through it.
pub data Piece : Type 0 where
  kept : String → Piece
  hit : String → Piece

pub record Regex : Type 0 where
  pub matches : String → String → Bool
  pub pieces : String → String → List Piece

pub record PiiRule : Type 0 where
  pub re : String
  pub placeholder : String

-- `masks` in the order of insertion; each placeholder has a number of its own.
pub record MaskedInput : Type 0 where
  pub sanitized : String
  pub masks : List (String × String)

abbrev pub raw_injection_patterns : List String
raw_injection_patterns =
    "(?i)ignore\\s+(all\\s+)?(previous|prior|above)\\s+instructions?"
    ∷ "(?i)disregard\\s+(all\\s+)?instructions"
    ∷ "(?i)forget\\s+(everything|all|your\\s+instructions?)" ∷ "(?i)new\\s+instructions?\\s*:"
    ∷ "(?i)you\\s+are\\s+now\\s+(a\\s+)?\\w+"
    ∷ "(?i)act\\s+as\\s+(if\\s+you\\s+(are|were)\\s+)?(a\\s+)?\\w+"
    ∷ "(?i)(system|assistant|user)\\s*:\\s*" ∷ "(?i)###\\s*(system|user|assistant)"
    ∷ "(?i)\\[INST\\]|\\[/INST\\]|\\[SYS\\]" ∷ "(?i)<\\|im_start\\|>|<\\|im_end\\|>"
    ∷ "(?i)\\bDAN\\b.*mode" ∷ "(?i)do\\s+anything\\s+now" ∷ "(?i)jailbreak"
    ∷ "(?i)prompt\\s*injection"
    ∷ "(?i)(print|reveal|show|repeat|output)\\s+(your\\s+)?(system\\s+)?prompt"
    ∷ "(?i)what\\s+(are\\s+)?your\\s+(system\\s+)?instructions?" ∷ []

abbrev pub raw_pii_rules : List PiiRule
raw_pii_rules =
    record {
      re = "\\b[A-Za-z0-9._%+\\-]+@[A-Za-z0-9.\\-]+\\.[A-Za-z]{2,}\\b";
      placeholder = "[EMAIL]";
    }
    ∷ record {
      re = "\\b(\\+\\d{1,3}[\\s\\-]?)?\\(?\\d{3}\\)?[\\s\\-]?\\d{3}[\\s\\-]?\\d{4}\\b";
      placeholder = "[PHONE]";
    }
    ∷ record { re = "\\b\\d{3}-\\d{2}-\\d{4}\\b"; placeholder = "[SSN]" }
    ∷ record {
      re = "\\b(?:4[0-9]{12}(?:[0-9]{3})?|5[1-5][0-9]{14}|3[47][0-9]{13})\\b";
      placeholder = "[CARD]";
    }
    ∷ []

pub record Guard : Type 0 where
  pub injection_patterns : List String
  pub pii_rules : List PiiRule

abbrev pub new_guard : Guard
new_guard = record { injection_patterns = raw_injection_patterns; pii_rules = raw_pii_rules }

-- What the replacing function changes: `counter`, `masks`, and the text written so far.
pub record Masking : Type 0 where
  pub counter : ℕ
  pub masks : List (String × String)
  pub written : String

abbrev pub numbered : String → ℕ → String
numbered placeholder n = placeholder ++ "_" ++ decimal n

abbrev pub mask_piece : String → Masking → Piece → Masking
mask_piece placeholder m (kept t) = record m { written = m.written ++ t }
mask_piece placeholder m (hit t) = record {
  counter = m.counter + 1;
  masks = m.masks +++ (numbered placeholder (m.counter + 1), t) ∷ [];
  written = m.written ++ numbered placeholder (m.counter + 1);
}

unfoldable pub mask_pieces : String → Masking → List Piece → Masking
mask_pieces placeholder m [] = m
mask_pieces placeholder m (p ∷ ps) = mask_pieces placeholder (mask_piece placeholder m p) ps

-- `HasMaskedPII`
abbrev pub has_masked_pii : MaskedInput → Bool
has_masked_pii m = has_any m.masks
  where
    has_any : List (String × String) → Bool
    has_any [] = false
    has_any (p ∷ ps) = true

module _ (X : Regex) where
  unfoldable pub check_injection : List String → String → Fallible (Unit {0})
  check_injection [] query = value tt
  check_injection (re ∷ more) query =
      let rest = check_injection more query in
      if X.matches re query
      then failed "query contains disallowed patterns and was blocked"
      else rest

  -- Each rule goes over the text that the rules before it wrote.
  unfoldable pub mask_rules : List PiiRule → Masking → Masking
  mask_rules [] m = m
  mask_rules (r ∷ rs) m =
      mask_rules rs
        (mask_pieces r.placeholder (record m { written = "" }) (X.pieces r.re m.written))

  abbrev pub masked_input : Masking → MaskedInput
  masked_input m = record { sanitized = m.written; masks = m.masks }

  unfoldable pub mask_pii : Guard → String → MaskedInput
  mask_pii g query =
      masked_input (mask_rules g.pii_rules (record { counter = 0; masks = []; written = query }))

-- `Restore`, over the masks in the order in which the map is gone through.
unfoldable pub restore : List (String × String) → String → String
restore [] response = response
restore ((placeholder, real) ∷ more) response = restore more (replace_all response placeholder real)
