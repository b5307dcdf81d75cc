-- ===== src/Redis/RateLimit/Names.antt =====
-- The members of internal/redis/ratelimit.go at different times have different names: `%d` can be
-- read back.
use Prim.Native.Char.{code}
use Prim.Native.String.{String, ◌++◌, slice}
use Prim.Native.String.append
use text.Mathlib.TextLemmas.{append_cancel_right}
use nimbus_app.Prelude.{
  ℕ, zero, suc, ◌+◌, ◌-◌, ◌*◌, ◌/◌, ◌%◌, ◌^◌, ◌<◌, ◌≡◌, ◌≢◌, refl, ap, sym, ◌∙◌, arith, ltb,
  Bool-cases, inl, inr,
}
use nimbus_app.Prelude.Fallible.{decimal_in, decimal}
use nimbus_app.Redis.RateLimit.{member_name}

-- What a text of digits stands for, after a number that is read already.
read_on : ℕ → String → ℕ
read_on n String.[] = n
read_on n (String.◌∷◌ c s) = read_on (10 * n + (code c - 48)) s

read_on-append : (n : ℕ) (s t : String) → read_on n (s ++ t) ≡ read_on (read_on n s) t
unfolding read_on
read_on-append n String.[] t = ap (read_on n) (append.nil t)
read_on-append n (String.◌∷◌ c s) t =
    ap (read_on n) (append.cons c s t) ∙ read_on-append (10 * n + (code c - 48)) s t

read-digit : (n d : ℕ) → d < 10 → read_on n (slice "0123456789" d (suc d)) ≡ 10 * n + d
unfolding read_on
read-digit n zero h = refl
read-digit n (suc zero) h = refl
read-digit n (suc (suc zero)) h = refl
read-digit n (suc (suc (suc zero))) h = refl
read-digit n (suc (suc (suc (suc zero)))) h = refl
read-digit n (suc (suc (suc (suc (suc zero))))) h = refl
read-digit n (suc (suc (suc (suc (suc (suc zero)))))) h = refl
read-digit n (suc (suc (suc (suc (suc (suc (suc zero))))))) h = refl
read-digit n (suc (suc (suc (suc (suc (suc (suc (suc zero)))))))) h = refl
read-digit n (suc (suc (suc (suc (suc (suc (suc (suc (suc zero))))))))) h = refl
read-digit n (suc (suc (suc (suc (suc (suc (suc (suc (suc (suc d)))))))))) h = absurd (omega arith)

read-decimal_in : (fuel n : ℕ) → n < 10 ^ fuel → read_on 0 (decimal_in fuel n) ≡ n
unfolding decimal_in read_on
read-decimal_in zero n h = omega arith
read-decimal_in (suc fuel) n h = elim (Bool-cases (ltb n 10)) [
  | inl e ↦ rw e (read-digit 0 n (ground arith) ∙ omega arith)
  | inr e ↦ rw e (
      read_on-append 0 (decimal_in fuel (n / 10)) (slice "0123456789" (n % 10) (suc (n % 10)))
      ∙ read-digit (read_on 0 (decimal_in fuel (n / 10))) (n % 10) (omega arith)
      ∙ ap (λ x. 10 * x + n % 10) (read-decimal_in fuel (n / 10) (omega arith))
      ∙ omega arith)
]

decimal_injective : (n k : ℕ) → n < 2 ^ 64 → k < 2 ^ 64 → decimal n ≡ decimal k → n ≡ k
decimal_injective n k hn hk e =
    sym (read-decimal_in 20 n (omega arith)) ∙ ap (read_on 0) e ∙ read-decimal_in 20 k (omega arith)

-- The first members of two calls.
pub names_differ : (n k : ℕ) → n < 2 ^ 64 → k < 2 ^ 64 → n ≢ k → member_name n 0 ≢ member_name k 0
names_differ n k hn hk apart e =
    apart (
      decimal_injective n k hn hk
        (append_cancel_right (decimal n) (decimal k) ("-" ++ decimal 0) e))
