-- ===== src/Redis/RateLimit/Memory.antt =====
-- Sorted sets kept in a function from keys, with exact scores, which shows that the laws of
-- `SortedSets` can hold.
use nimbus_app.Prelude.{
  ℕ, ◌+◌, ◌≤◌, ◌≡◌, refl, ap, String, false, not, Option, none, some, List, [], ◌∷◌, keep, arith,
  ltb, lt→ltb, str_eq, str_eq_refl, if◌then◌else◌, Bool-cases, inl, inr,
}
use nimbus_app.Db.Statement.{any}
use nimbus_app.Redis.RateLimit.{Member, above, named, SortedSets}

-- A key's members and the time at which they are gone.
abbrev pub Entry : Type 0
Entry = List Member × Option ℕ

abbrev pub live : ℕ → Entry → List Member
live now (ms, none) = ms
live now (ms, some d) = if ltb now d then ms else []

abbrev pub live_deadline : ℕ → Option ℕ → Option ℕ
live_deadline now none = none
live_deadline now (some d) = if ltb now d then some d else none

abbrev pub put : String → Entry → (String → Entry) → String → Entry
put k e s l = if str_eq l k then e else s l

abbrev pub without : ℕ → Entry → Entry
without max e = (keep (above max) e.0, e.1)

abbrev pub with_one : ℕ → Member → Entry → Entry
with_one now m e = (m ∷ keep (λ o. not (named m.0 o)) (live now e), live_deadline now e.1)

pub live-without : (t max : ℕ) (e : Entry) → live t (without max e) ≡ keep (above max) (live t e)
live-without t max (ms, none) = refl
live-without t max (ms, some d) = elim (Bool-cases (ltb t d)) [
  | inl h ↦ rw h refl
  | inr h ↦ rw h refl
]

pub keep_absent :
    (name : String) (ms : List Member)
    → any (named name) ms ≡ false
    → keep (λ o. not (named name o)) ms ≡ ms
unfolding any
keep_absent name [] h = refl
keep_absent name (m ∷ ms) h = elim (Bool-cases (named name m)) [
  | inl e ↦ absurd (ground arith)
  | inr e ↦ rw e (ap (λ l. m ∷ l) (keep_absent name ms (ground arith)))
]

pub live-with_one :
    (now : ℕ) (m : Member) (e : Entry)
    → live now (with_one now m e) ≡ m ∷ keep (λ o. not (named m.0 o)) (live now e)
live-with_one now m (ms, none) = refl
live-with_one now m (ms, some d) = elim (Bool-cases (ltb now d)) [
  | inl h ↦ rw (h, h) refl
  | inr h ↦ rw h refl
]

pub not_before : (a b : ℕ) → b ≤ a → ltb a b ≡ false
not_before a b h = ground arith

abbrev pub memory : SortedSets
memory = record {
  Store = String → Entry;
  double = λ a. a;
  members = λ now k s. live now (s k);
  zrem_up_to = λ now k max s. put k (without max (s k)) s;
  zadd = λ now k m s. put k (with_one now m (s k)) s;
  expire = λ now k ttl s. put k (live now (s k), some (now + ttl)) s;
  double_mono = λ a b h. h;
  double_idem = λ a. refl;
  members-zrem = λ now t k max s h. rw (str_eq_refl k) (live-without t max (s k));
  members-zadd = λ now k m s p h.
      rw (str_eq_refl k, live-with_one now m (s k), keep_absent m.0 (live now (s k)) h) refl;
  members-expire = λ now t k ttl s g h. rw (str_eq_refl k) (rw (lt→ltb t (now + ttl) h) refl);
  members-expire_late =
      λ now t k ttl s h. rw (str_eq_refl k) (rw (not_before t (now + ttl) h) refl);
}
