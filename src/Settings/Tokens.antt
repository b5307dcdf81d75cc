-- ===== src/Settings/Tokens.antt =====
-- Whom the tokens of internal/config/config.go authenticate in internal/grpc/interceptor.go.
use Prim.Native.String.{slice, len, ◌++◌}
use text.Mathlib.TextPositions.{starts_with-append, slice-append_right, len-append}
use nimbus_app.Prelude.{
  ℕ, zero, suc, ◌-◌, false, some, ◌≡◌, refl, ap, sym, ◌∙◌, String, List, [], ◌∷◌, map, All, arith,
  str_eq, eq_iff, if◌then◌else◌, Bool-cases, inl, inr, join,
}
use nimbus_app.Rpc.{
  Reply, answer, status, plain, unauthenticated, tenant_of, extract_and_validate, is_blank,
  trim_left, trim_right, trim_space, trim_bearer,
}
use nimbus_app.Settings.{Environment, Config, Loaded, loaded, invalid, ◌>>=◌, load, number}
use nimbus_app.Prelude.Int.{pos}
use nimbus_app.Settings.Split.{pair_text, IsPlain, split_list, split_pair}
use nimbus_app.Settings.Texts.{
  split_from, split_comma, set_token, set_parts, set_pairs, auth_tokens, dev_token, dev_tenant,
}

-- Pair by pair.
abbrev set_all : List (String × String) → List (String × String) → List (String × String)
set_all [] m = m
set_all (p ∷ ps) m = set_all ps (set_token p.0 p.1 m)

pairs_set :
    (ps m : List (String × String)) → All IsPlain ps → set_pairs (map pair_text ps) m ≡ set_all ps m
unfolding set_pairs
pairs_set [] m h = refl
pairs_set (p ∷ ps) m h =
    ap (λ l. set_pairs (map pair_text ps) (set_parts l m)) (split_pair p h.0)
    ∙ pairs_set ps (set_token p.0 p.1 m) h.1

tenant-set_token :
    (k v : String) (m : List (String × String)) (t : String)
    → tenant_of (set_token k v m) t ≡ (if str_eq k t then answer v else tenant_of m t)
unfolding tenant_of set_token
tenant-set_token k v [] t = refl
tenant-set_token k v ((l, w) ∷ m) t =
    ground (arith, eq_iff k t, eq_iff l k, eq_iff l t, tenant-set_token k v m t)

-- The tenant of the last pair with the token, or `other` where no pair has it.
unfoldable pub last_for : List (String × String) → String → Reply String → Reply String
last_for [] t other = other
last_for (p ∷ ps) t other = last_for ps t (if str_eq p.0 t then answer p.1 else other)

tenant-set_all :
    (ps m : List (String × String)) (t : String)
    → tenant_of (set_all ps m) t ≡ last_for ps t (tenant_of m t)
unfolding last_for
tenant-set_all [] m t = refl
tenant-set_all (p ∷ ps) m t =
    tenant-set_all ps (set_token p.0 p.1 m) t ∙ ap (last_for ps t) (tenant-set_token p.0 p.1 m t)

-- No text is a text without pairs.
no_pairs : (m : List (String × String)) → set_pairs (split_comma "") m ≡ m
unfolding set_pairs split_from
no_pairs m = refl

every_text :
    (raw : String) → auth_tokens raw ≡ set_pairs (split_comma raw) ((dev_token, dev_tenant) ∷ [])
unfolding auth_tokens
every_text raw = elim (Bool-cases (str_eq raw "")) [
  | inl e ↦ rw e (
      sym (
        ap (λ x. set_pairs (split_comma x) ((dev_token, dev_tenant) ∷ [])) ((eq_iff raw "").0 e)
        ∙ no_pairs ((dev_token, dev_tenant) ∷ [])))
  | inr e ↦ rw e refl
]

auth_tokens-set_all :
    (ps : List (String × String))
    → All IsPlain ps
    → auth_tokens (join "," (map pair_text ps)) ≡ set_all ps ((dev_token, dev_tenant) ∷ [])
auth_tokens-set_all [] h = every_text "" ∙ no_pairs ((dev_token, dev_tenant) ∷ [])
auth_tokens-set_all (p ∷ ps) h =
    every_text (join "," (map pair_text (p ∷ ps)))
    ∙ ap (λ l. set_pairs l ((dev_token, dev_tenant) ∷ [])) (split_list ps p h)
    ∙ pairs_set (p ∷ ps) ((dev_token, dev_tenant) ∷ []) h

-- What a chain of settings ends in is what its last step says.
end_of_chain :
    {A B : Type 0} (P : Type 0) (b : B) (m : Loaded A) (f : A → Loaded B)
    → ((a : A) → f a ≡ loaded b → P)
    → (m >>= f) ≡ loaded b
    → P
end_of_chain P b (loaded a) f k h = k a h
end_of_chain P b (invalid v e) f k h = absurd (ground arith)

tokens_in : Loaded Config → List (String × String)
tokens_in (loaded cfg) = cfg.grpc_auth_tokens
tokens_in (invalid v e) = []

load-auth_tokens :
    (env : Environment) (cfg : Config)
    → load env ≡ loaded cfg
    → cfg.grpc_auth_tokens ≡ auth_tokens (env "GRPC_AUTH_TOKENS")
unfolding load tokens_in
load-auth_tokens env cfg h =
    let P = cfg.grpc_auth_tokens ≡ auth_tokens (env "GRPC_AUTH_TOKENS") in
    end_of_chain P cfg (number env "PORT" (pos 8080)) _
      (λ a1 h1.
        end_of_chain P cfg (number env "DB_PORT" (pos 5432)) _
          (λ a2 h2.
            end_of_chain P cfg (number env "REDIS_PORT" (pos 6379)) _
              (λ a3 h3.
                end_of_chain P cfg (number env "REDIS_DB" (pos 0)) _
                  (λ a4 h4.
                    end_of_chain P cfg (number env "SMTP_PORT" (pos 587)) _
                      (λ a5 h5.
                        end_of_chain P cfg (number env "WEBHOOK_TIMEOUT" (pos 30)) _
                          (λ a6 h6.
                            end_of_chain P cfg (number env "GRPC_PORT" (pos 9090)) _
                              (λ a7 h7. sym (ap tokens_in h7)) h6)
                          h5)
                      h4)
                  h3)
              h2)
          h1)
      h

-- A token that neither begins nor ends with a blank.
abbrev pub HasNoBlankEnds : String → Type 0
HasNoBlankEnds t =
    (is_blank (slice t 0 1) ≡ false) × (is_blank (slice t (len t - 1) (len t)) ≡ false)

trim_left-clean : (n : ℕ) (t : String) → is_blank (slice t 0 1) ≡ false → trim_left n t ≡ t
unfolding trim_left
trim_left-clean zero t h = refl
trim_left-clean (suc n) t h = rw h refl

trim_right-clean :
    (n : ℕ) (t : String) → is_blank (slice t (len t - 1) (len t)) ≡ false → trim_right n t ≡ t
unfolding trim_right
trim_right-clean zero t h = refl
trim_right-clean (suc n) t h = rw h refl

trim_space-clean : (t : String) → HasNoBlankEnds t → trim_space t ≡ t
trim_space-clean t (l, r) =
    ap (λ s. trim_right (len s) s) (trim_left-clean (len t) t l) ∙ trim_right-clean (len t) t r

trim_bearer-append : (t : String) → trim_bearer ("Bearer " ++ t) ≡ t
trim_bearer-append t =
    ap (λ b. if b then slice ("Bearer " ++ t) 7 (len ("Bearer " ++ t)) else "Bearer " ++ t)
      (starts_with-append "Bearer " t)
    ∙ ap (slice ("Bearer " ++ t) 7) (len-append "Bearer " t)
    ∙ slice-append_right "Bearer " t

-- Pairs of a token and a tenant, none of whose texts has a comma or a colon, written into
-- `GRPC_AUTH_TOKENS` as `token:tenant,token:tenant`, with any other variables from which the
-- configuration loads: the interceptor gives a caller whose metadata is "Bearer " and the token `t`,
-- which has no blank at either end, the tenant of the last pair with this token; where no pair has it,
-- the token is invalid, unless it is the development token, which stays valid for the development
-- tenant.
pub tokens_authenticate :
    (env : Environment) (cfg : Config) (ps : List (String × String)) (t : String)
    (values : List String)
    → All IsPlain ps
    → env "GRPC_AUTH_TOKENS" ≡ join "," (map pair_text ps)
    → load env ≡ loaded cfg
    → HasNoBlankEnds t
    → extract_and_validate cfg.grpc_auth_tokens (some (("Bearer " ++ t) ∷ values))
      ≡ last_for ps t (
          if str_eq dev_token t
          then answer dev_tenant
          else status (plain unauthenticated "invalid token"))
unfolding tenant_of extract_and_validate
tokens_authenticate env cfg ps t values h set good clean =
    ap (λ s. tenant_of cfg.grpc_auth_tokens (trim_space s)) (trim_bearer-append t)
    ∙ ap (tenant_of cfg.grpc_auth_tokens) (trim_space-clean t clean)
    ∙ ap (λ m. tenant_of m t)
        (load-auth_tokens env cfg good ∙ ap auth_tokens set ∙ auth_tokens-set_all ps h)
    ∙ tenant-set_all ps ((dev_token, dev_tenant) ∷ []) t
