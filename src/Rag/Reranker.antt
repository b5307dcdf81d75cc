-- ===== src/Rag/Reranker.antt =====
-- internal/rag/reranker.go: the second scoring of the documents found.
use Prim.Native.Char.{code}
use Prim.Native.String.{slice, len, ◌++◌}
use nimbus_app.Prelude.{
  ℕ, ◌+◌, ◌-◌, String, Bool, not, ◌&&◌, ◌||◌, List, [], ◌∷◌, map, take, length, ltb, leb, ◌==◌,
  str_eq, if◌then◌else◌,
}
use nimbus_app.Db.Sorter.{Sorter}
use nimbus_app.Rag.{Floats, Document}

abbrev codes : String → List ℕ
codes String.[] = []
codes (String.◌∷◌ c s) = code c ∷ codes s

-- `strings.ToLower`, as far as its result is an ASCII letter: these, and the two that lie outside.
abbrev lower : ℕ → ℕ
lower c =
    if leb 65 c && leb c 90 then c + 32 else if c == 304 then 105 else if c == 8490 then 107 else c

abbrev is_letter : ℕ → Bool
is_letter c = leb 97 c && leb c 122

abbrev is_digit : ℕ → Bool
is_digit c = leb 48 c && leb c 57

-- The character of a letter's or a digit's code.
abbrev character : ℕ → String
character c =
    if is_letter c
    then slice "abcdefghijklmnopqrstuvwxyz" (c - 97) (c - 96)
    else slice "0123456789" (c - 48) (c - 47)

abbrev stopwords : List String
stopwords =
    "the" ∷ "a" ∷ "an" ∷ "is" ∷ "are" ∷ "was" ∷ "were" ∷ "be" ∷ "been" ∷ "have" ∷ "has" ∷ "had"
    ∷ "do" ∷ "does" ∷ "did" ∷ "for" ∷ "of" ∷ "to" ∷ "in" ∷ "on" ∷ "at" ∷ "by" ∷ "with" ∷ "from"
    ∷ "that" ∷ "this" ∷ "it" ∷ "as" ∷ "or" ∷ "and" ∷ []

unfoldable pub occurrences : String → List String → ℕ
occurrences t [] = 0
occurrences t (s ∷ ss) = (if str_eq s t then 1 else 0) + occurrences t ss

abbrev with_term : String → List String → List String
with_term p rest = if occurrences p stopwords == 0 && ltb 1 (len p) then p ∷ rest else rest

-- Maximal runs of letters and digits, `strings.Fields` of what `strings.Map` leaves; `cur` is the
-- run so far.
unfoldable pub terms_from : String → List ℕ → List String
terms_from cur [] = with_term cur []
terms_from cur (c ∷ cs) =
    let longer = terms_from (cur ++ character (lower c)) cs in
    let closed = with_term cur (terms_from "" cs) in
    if is_letter (lower c) || is_digit (lower c) then longer else closed

unfoldable pub tokenize : String → List String
tokenize text = terms_from "" (codes text)

module _ (N : Floats) where
  -- the loop over `queryTerms`
  unfoldable pub score_from : N.Double → List String → List String → N.Double
  score_from score [] doc_terms = score
  score_from score (q ∷ qs) doc_terms =
      score_from
        (let f = occurrences q doc_terms in
          if f == 0 then score else N.plus score (N.log_one_plus f (length doc_terms)))
        qs doc_terms

  abbrev score_of : List String → List String → N.Double
  score_of query_terms [] = N.zero
  score_of query_terms (t ∷ ts) = score_from N.zero query_terms (t ∷ ts)

  abbrev pub cross_encoder_score : List String → String → N.Single
  cross_encoder_score query_terms content = N.single (score_of query_terms (tokenize content))

  abbrev pub by_score : Document N → Document N → Bool
  by_score a b = not (N.greater b.score a.score)

  abbrev pub rescored : List String → Document N → Document N
  rescored query_terms d = record d { score = cross_encoder_score query_terms d.content }

  -- No document is scored and sorted where there is none.
  unfoldable pub rerank :
      Sorter (Document N) by_score → String → List (Document N) → ℕ → List (Document N)
  rerank sorter query [] top_k = []
  rerank sorter query (d ∷ ds) top_k =
      take top_k (sorter.sort (map (rescored (tokenize query)) (d ∷ ds)))
