-- ===== src/Redis/Memory.antt =====
-- A server that keeps its keys in a list, which shows that the laws of `Server` can hold.
use nimbus_app.Prelude.{
  str_eq_refl, str_eq_apart, ℕ, ◌+◌, ◌≤◌, ◌<◌, ◌≡◌, refl, sym, ap, subst, ◌≢◌, String, Bool, true,
  false, not, Option, none, some, List, [], ◌∷◌, keep, arith, ltb, str_eq, eq_iff, if◌then◌else◌,
  Bool-cases, inl, inr,
}
use nimbus_app.Redis.{Value, Server}

abbrev pub Entry : Type 0
Entry = String × Value × ℕ

abbrev pub alive : ℕ → Value → ℕ → Option Value
alive now v deadline = if ltb now deadline then some v else none

unfoldable pub get : ℕ → String → List Entry → Option Value
get now k [] = none
get now k ((l, v, deadline) ∷ es) = if str_eq l k then alive now v deadline else get now k es

abbrev pub set : ℕ → String → Value → ℕ → List Entry → List Entry
set now k v ttl es = (k, v, now + ttl) ∷ es

abbrev pub unless_present : ℕ → String → Value → ℕ → List Entry → Option Value → Bool × List Entry
unless_present now k v ttl es none = (true, set now k v ttl es)
unless_present now k v ttl es (some u) = (false, es)

abbrev pub del : String → List Entry → List Entry
del k es = keep (λ (e : Entry). not (str_eq e.0 k)) es

str_eq_moved : (m k l : String) → l ≢ k → str_eq m k ≡ true → str_eq m l ≡ false
str_eq_moved m k l h e =
    subst (λ x. str_eq x l ≡ false) (sym ((eq_iff m k).0 e)) (str_eq_apart k l (λ e. h (sym e)))

pub get-del : (t : ℕ) (k : String) (es : List Entry) → get t k (del k es) ≡ none
unfolding get
get-del t k [] = refl
get-del t k ((l, v, d) ∷ es) = elim (Bool-cases (str_eq l k)) [
  | inl e ↦ rw e (get-del t k es)
  | inr e ↦ rw e (rw e (get-del t k es))
]

pub get-del_other :
    (t : ℕ) (k l : String) (es : List Entry) → l ≢ k → get t l (del k es) ≡ get t l es
unfolding get
get-del_other t k l [] h = refl
get-del_other t k l ((m, v, d) ∷ es) h = elim (Bool-cases (str_eq m k)) [
  | inl e ↦ rw e (rw (str_eq_moved m k l h e) (get-del_other t k l es h))
  | inr e ↦ rw e (ap (λ r. if str_eq m l then alive t v d else r) (get-del_other t k l es h))
]

pub get-set :
    (now t : ℕ) (k : String) (v : Value) (ttl : ℕ) (es : List Entry)
    → t < now + ttl
    → get t k (set now k v ttl es) ≡ some v
unfolding get
get-set now t k v ttl es h = rw (str_eq_refl k) (ground arith)

pub get-set_late :
    (now t : ℕ) (k : String) (v : Value) (ttl : ℕ) (es : List Entry)
    → now + ttl ≤ t
    → get t k (set now k v ttl es) ≡ none
unfolding get
get-set_late now t k v ttl es h = rw (str_eq_refl k) (ground arith)

pub get-set_other :
    (now t : ℕ) (k l : String) (v : Value) (ttl : ℕ) (es : List Entry)
    → l ≢ k
    → get t l (set now k v ttl es) ≡ get t l es
unfolding get
get-set_other now t k l v ttl es h = rw (str_eq_apart k l (λ e. h (sym e))) refl

abbrev pub memory : Server
memory = record {
  Store = List Entry;
  get = get;
  set = set;
  set_nx = λ now k v ttl es. unless_present now k v ttl es (get now k es);
  del = del;
  get-set = get-set;
  get-set_late = get-set_late;
  get-set_other = get-set_other;
  set_nx-absent = λ now k v ttl es h. rw h refl;
  set_nx-present = λ now k v u ttl es h. rw h refl;
  get-del = get-del;
  get-del_other = get-del_other;
}
