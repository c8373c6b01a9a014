-- ===== src/Server/Auth.antt =====
-- Which requests the check of the API key lets through.
use worker_thoth.Base.{
  ◌<◌, ◌≡◌, refl, ◌≢◌, subst, true, false, [], ◌∷◌, ◌++◌, arith, Text, codes, is_empty, text_eq_iff,
  text_eq_refl, trim_space, length, length-append, take, drop, ltb,
}
use worker_thoth.Server.{
  Config, Reply, equal_fold, bearer, bearer_token, extract_api_key, unauthorized, auth,
}

take-append : (s t : Text) → take (length s) (s ++ t) ≡ s
take-append [] [] = refl
take-append [] (x ∷ t) = refl
take-append (x ∷ s) t = ground (arith, take-append s t)

drop-append : (s t : Text) → drop (length s) (s ++ t) ≡ t
drop-append [] [] = refl
drop-append [] (x ∷ t) = refl
drop-append (x ∷ s) t = ground (arith, drop-append s t)

seven_lt :
    (scheme key : Text) → length scheme ≡ 7 → 0 < length key → ltb 7 (length (scheme ++ key)) ≡ true
seven_lt scheme key seven given = ground (arith, length-append scheme key)

append-not_empty : (scheme key : Text) → length scheme ≡ 7 → is_empty (scheme ++ key) ≡ false
append-not_empty [] key seven = absurd (omega arith)
append-not_empty (x ∷ scheme) key seven = refl

bearer_token-append :
    (scheme key : Text)
    → length scheme ≡ 7
    → equal_fold scheme bearer ≡ true
    → key ≢ []
    → bearer_token (scheme ++ key) ≡ trim_space key
bearer_token-append scheme [] seven folds given = absurd (given refl)
bearer_token-append scheme (k ∷ key) seven folds given =
    let front =
      subst (λ n. take n (scheme ++ k ∷ key) ≡ scheme) seven (take-append scheme (k ∷ key)) in
    let back =
      subst (λ n. drop n (scheme ++ k ∷ key) ≡ k ∷ key) seven (drop-append scheme (k ∷ key)) in
    rw (seven_lt scheme (k ∷ key) seven (omega arith), front, back, folds)

module _ (c : Config) (header : Text → Text) where
  extract-bearer :
      (scheme key : Text)
      → header (codes "X-API-Key") ≡ []
      → header (codes "Authorization") ≡ scheme ++ key
      → length scheme ≡ 7
      → equal_fold scheme bearer ≡ true
      → key ≢ []
      → extract_api_key header ≡ trim_space key
  unfolding extract_api_key
  extract-bearer scheme key no_key sent seven folds given =
      rw (no_key, sent, append-not_empty scheme key seven)
        (bearer_token-append scheme key seven folds given)

  -- With an API key that is not empty and has no space around it, a request without X-API-Key,
  -- whose Authorization header is the bearer scheme, in any case of its letters, and that key,
  -- reaches its handler.
  pub auth-bearer :
      {S : Type 0} (next : S → Reply × S) (s : S) (scheme : Text)
      → header (codes "X-API-Key") ≡ []
      → header (codes "Authorization") ≡ scheme ++ c.api_key
      → length scheme ≡ 7
      → equal_fold scheme bearer ≡ true
      → c.api_key ≢ []
      → trim_space c.api_key ≡ c.api_key
      → auth c header next s ≡ next s
  unfolding auth
  auth-bearer next s scheme no_key sent seven folds given trimmed = rw (
    extract-bearer scheme c.api_key no_key sent seven folds given,
    trimmed,
    text_eq_refl c.api_key,
  )

  bearer_token-other : (v : Text) → equal_fold (take 7 v) bearer ≡ false → bearer_token v ≡ []
  bearer_token-other v other = ground arith

  -- With an API key that is not empty, a request without X-API-Key, whose Authorization header does
  -- not begin with the bearer scheme, is refused with 401, and its handler does not run.
  pub auth-refuses :
      {S : Type 0} (next : S → Reply × S) (s : S)
      → header (codes "X-API-Key") ≡ []
      → equal_fold (take 7 (header (codes "Authorization"))) bearer ≡ false
      → c.api_key ≢ []
      → auth c header next s ≡ (unauthorized, s)
  unfolding auth extract_api_key
  auth-refuses next s no_key other given =
      rw (no_key, bearer_token-other (header (codes "Authorization")) other)
        (ground (arith, text_eq_iff [] c.api_key))
