-- ===== src/Settings/Split.antt =====
-- Splitting a text of internal/config/config.go that was put together from plain parts.
use Prim.Native.Char.{Char, char, code}
use Prim.Native.String.{◌++◌}
use Prim.Native.String.append
use text.Mathlib.TextLemmas.{append_assoc, append-nil}
use nimbus_app.Prelude.{
  ℕ, ◌≡◌, refl, ap, sym, ◌∙◌, String, Bool, true, false, List, [], ◌∷◌, map, All, arith, ◌==◌,
  ==_refl, if◌then◌else◌, join,
}
use nimbus_app.Settings.Texts.{split_from, split_comma, split_colon}

-- A text has a byte.
unfoldable pub mentions : ℕ → String → Bool
mentions sep String.[] = false
mentions sep (String.◌∷◌ c s) = if code c == sep then true else mentions sep s

mentions_head :
    (sep : ℕ) (c : Char) (s : String)
    → mentions sep (String.◌∷◌ c s) ≡ false
    → (code c == sep) ≡ false
unfolding mentions
mentions_head sep c s h = ground arith

mentions_tail :
    (sep : ℕ) (c : Char) (s : String)
    → mentions sep (String.◌∷◌ c s) ≡ false
    → mentions sep s ≡ false
unfolding mentions
mentions_tail sep c s h = ground arith

one-append : (c : Char) (s : String) → String.◌∷◌ c String.[] ++ s ≡ String.◌∷◌ c s
one-append c s = append.cons c String.[] s ∙ ap (String.◌∷◌ c) (append.nil s)

push-append :
    (s : String) (c : Char) (t : String) → (s ++ String.◌∷◌ c String.[]) ++ t ≡ s ++ String.◌∷◌ c t
push-append s c t = append_assoc s (String.◌∷◌ c String.[]) t ∙ ap (λ x. s ++ x) (one-append c t)

split_past :
    (sep : ℕ) (cur a rest : String)
    → mentions sep a ≡ false
    → split_from sep cur (a ++ rest) ≡ split_from sep (cur ++ a) rest
unfolding mentions split_from
split_past sep cur String.[] rest h =
    ap (split_from sep cur) (append.nil rest)
    ∙ ap (λ x. split_from sep x rest) (sym (append-nil cur))
split_past sep cur (String.◌∷◌ c a) rest h =
    ap (split_from sep cur) (append.cons c a rest)
    ∙ rw (mentions_head sep c a h) (
        split_past sep (cur ++ String.◌∷◌ c String.[]) a rest (mentions_tail sep c a h)
        ∙ ap (λ x. split_from sep x rest) (push-append cur c a))

mentions-append :
    (sep : ℕ) (a b : String)
    → mentions sep a ≡ false
    → mentions sep b ≡ false
    → mentions sep (a ++ b) ≡ false
unfolding mentions
mentions-append sep String.[] b h k = ap (mentions sep) (append.nil b) ∙ k
mentions-append sep (String.◌∷◌ c a) b h k =
    ap (mentions sep) (append.cons c a b)
    ∙ rw (mentions_head sep c a h) (mentions-append sep a b (mentions_tail sep c a h) k)

split_end :
    (sep : ℕ) (cur a : String) → mentions sep a ≡ false → split_from sep cur a ≡ (cur ++ a) ∷ []
unfolding split_from
split_end sep cur a h = ap (split_from sep cur) (sym (append-nil a)) ∙ split_past sep cur a "" h

-- A text without the separator, and then the separator.
split_head :
    (a rest : String)
    → (sep : Char) → mentions (code sep) a ≡ false
    → split_from (code sep) "" (a ++ (String.◌∷◌ sep String.[] ++ rest))
      ≡ a ∷ split_from (code sep) "" rest
unfolding split_from
split_head a rest sep h =
    split_past (code sep) "" a (String.◌∷◌ sep String.[] ++ rest) h
    ∙ ap (split_from (code sep) ("" ++ a)) (one-append sep rest)
    ∙ rw (==_refl (code sep)) (ap (λ x. x ∷ split_from (code sep) "" rest) (append.nil a))

-- A pair as the variable has it.
abbrev pub pair_text : String × String → String
pair_text p = p.0 ++ ":" ++ p.1

abbrev pub IsPlain : String × String → Type 0
IsPlain p =
    (mentions 58 p.0 ≡ false)
    × (mentions 58 p.1 ≡ false)
    × (mentions 44 p.0 ≡ false)
    × (mentions 44 p.1 ≡ false)

abbrev colon : Char
colon = char 58 tt

abbrev comma : Char
comma = char 44 tt

pair_plain : (p : String × String) → IsPlain p → mentions 44 (pair_text p) ≡ false
unfolding mentions
pair_plain p h = mentions-append 44 p.0 (":" ++ p.1) h.2 (mentions-append 44 ":" p.1 refl h.3)

pub split_pair : (p : String × String) → IsPlain p → split_colon (pair_text p) ≡ p.0 ∷ p.1 ∷ []
split_pair p h =
    split_head p.0 p.1 colon h.0
    ∙ ap (λ l. p.0 ∷ l) (split_end 58 "" p.1 h.1 ∙ ap (λ x. x ∷ []) (append.nil p.1))

pub split_list :
    (ps : List (String × String)) (p : String × String)
    → All IsPlain (p ∷ ps)
    → split_comma (join "," (map pair_text (p ∷ ps))) ≡ map pair_text (p ∷ ps)
split_list [] p h =
    ap (split_from 44 "") (append-nil (pair_text p))
    ∙ split_end 44 "" (pair_text p) (pair_plain p h.0)
    ∙ ap (λ x. x ∷ []) (append.nil (pair_text p))
split_list (q ∷ qs) p h =
    split_head (pair_text p) (join "," (map pair_text (q ∷ qs))) comma (pair_plain p h.0)
    ∙ ap (λ l. pair_text p ∷ l) (split_list qs q h.1)
