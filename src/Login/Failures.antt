-- ===== src/Login/Failures.antt =====
-- login.go and signin.go: fragments that proc does not expect.
use datafoundry_proxy.Base.{
  ℕ, ◌≡◌, refl, ◌⊎◌, inl, inr, Bool, true, false, List, [], ◌∷◌, ◌++◌, Option, none, some, Str,
  codes, str_eq,
}
use datafoundry_proxy.Errors.{GoError, plain}
use datafoundry_proxy.Effect.{ok, Outcome, returns, fails, panics, fatal, ◌>>=◌}
use datafoundry_proxy.Backend.{Backend}
use datafoundry_proxy.Auth.{Request}
use datafoundry_proxy.Login.{TextMap, RegionToken, split_byte, set_parts, proc_loop, proc}
use datafoundry_proxy.Login.Fragment.{lacks, split_byte-lacks}
use datafoundry_proxy.Login.Handlers.{
  Oauth, token_proxy, login, get_token, region_tokens, both_tokens, sign_in,
}

-- The loop panics at a part without "=", if it has not done so before.
proc_loop-bare :
    (m : TextMap) (front : List Str) (bare : Str) (back : List Str)
    → lacks b'=' bare ≡ true
    → proc_loop m (front ++ bare ∷ back) ≡ none
unfolding proc_loop
proc_loop-bare m [] bare back h = rw (proc_loop, split_byte-lacks b'=' bare h) refl
proc_loop-bare m (v ∷ front) bare back h =
    go (set_parts (split_byte b'=' v) m) (λ m'. proc_loop-bare m' front bare back h)
  where
    go :
        (next : Option TextMap)
        → ((m' : TextMap) → proc_loop m' (front ++ bare ∷ back) ≡ none)
        → ◌≡◌ {A = Option TextMap}
            (elim next [ none ↦ none | some m' ↦ proc_loop m' (front ++ bare ∷ back) ])
            none
    go none rest = refl
    go (some m') rest = rest m'

module _ {W : Type 0} (B : Backend W) (A : Oauth W) where
  -- The authorization server at this address always redirects with the fragment.
  abbrev pub Redirects : Str → Str → Str → Type 0
  Redirects apiserver auth fragment =
      (w : W)
      → (status : ℕ) × (w' : W) × (A.round_trip apiserver auth w
          ≡ (ok (record { status_code = status; fragment = ok fragment }), w'))

  -- A goroutine of SignIn either returns or ends the process.
  abbrev pub Ends : Outcome (List RegionToken) × W → Type 0
  Ends r =
      ((l : List RegionToken) × (w' : W) × (r ≡ (returns l, w')))
      ⊎ ((e : GoError) × (w' : W) × (r ≡ (fatal e, w')))

  region_tokens-Ends :
      (auth apiserver : Str) (extra : Bool) (region : Str) (w : W)
      → Ends (region_tokens B A auth apiserver extra region w)
  unfolding region_tokens ◌>>=◌
  region_tokens-Ends auth apiserver extra region w = go (get_token B A auth apiserver extra w) refl
    where
      go :
          (r : Outcome RegionToken × W)
          → get_token B A auth apiserver extra w ≡ r
          → Ends (region_tokens B A auth apiserver extra region w)
      go (returns t, w') e = inl (record t { region = region } ∷ [], w', rw e refl)
      go (fails x, w') e = inl ([], w', rw e refl)
      go (panics, w') e = inr (plain (codes "panic"), w', rw e refl)
      go (fatal x, w') e = inr (x, w', rw e refl)

  module _ (auth fragment : Str) (front : List Str) (bare : Str) (back : List Str)
      (valid : B.url_is_valid A.region_jd ≡ true) (answers : Redirects A.region_jd auth fragment)
      (parts : split_byte b'&' fragment ≡ front ++ bare ∷ back) (h : lacks b'=' bare ≡ true) where
    token_proxy-panics :
        (w : W) → (w' : W) × (token_proxy B A auth A.region_jd true w ≡ (panics, w'))
    unfolding token_proxy proc ◌>>=◌
    token_proxy-panics w =
        let (status, w', answered) = answers w in
        (w', rw (valid, answered, parts, proc_loop-bare [] front bare back h) refl)

    region_tokens-fatal :
        (region : Str) (w : W)
        → (w' : W) × (region_tokens B A auth A.region_jd true region w
            ≡ (fatal (plain (codes "panic")), w'))
    unfolding region_tokens get_token ◌>>=◌
    region_tokens-fatal region w = let (w', stops) = token_proxy-panics w in (w', rw stops refl)

    both_tokens-fatal :
        (jd_first : Bool) (w : W)
        → (e : GoError) × (w' : W) × (both_tokens B A jd_first auth w ≡ (fatal e, w'))
    unfolding both_tokens ◌>>=◌
    both_tokens-fatal true w =
        let (w', stops) = region_tokens-fatal (codes "cn-north-1") w in
        (plain (codes "panic"), w', rw stops refl)
    both_tokens-fatal false w =
        go (region_tokens-Ends auth A.region_aws false (codes "cn-north-2") w)
      where
        go :
            Ends (region_tokens B A auth A.region_aws false (codes "cn-north-2") w)
            → (e : GoError) × (w' : W) × (both_tokens B A false auth w ≡ (fatal e, w'))
        go (inl (l, w1, e)) =
            let (w', stops) = region_tokens-fatal (codes "cn-north-1") w1 in
            (plain (codes "panic"), w', rw (e, stops) refl)
        go (inr (x, w1, e)) = (x, w1, rw e refl)

  -- Where the authorization server of the first region redirects with a fragment that has, between its
  -- "&", a part without "=" (as an empty fragment does), Login with an Authorization header panics,
  -- which net/http survives, and SignIn, which asks in goroutines of its own, ends the process of the
  -- server, in whichever order its two goroutines run and whatever the other region answers.
  pub malformed_fragment-ends_server :
      (r : Request) (c : ℕ) (auth fragment : Str) (front : List Str) (bare : Str) (back : List Str)
      (jd_first : Bool) (w : W)
      → r.method ≡ codes "GET"
      → r.authorization ≡ c ∷ auth
      → B.url_is_valid A.region_jd ≡ true
      → Redirects A.region_jd (c ∷ auth) fragment
      → split_byte b'&' fragment ≡ front ++ bare ∷ back
      → lacks b'=' bare ≡ true
      → ((w' : W) × (login B A r w ≡ (panics, w')))
        × ((e : GoError) × (w' : W) × (sign_in B A jd_first r w ≡ (fatal e, w')))
  unfolding login sign_in ◌>>=◌ str_eq
  malformed_fragment-ends_server r c auth fragment front bare back jd_first w get given valid
        answers parts h =
      let (w1, stops) =
        token_proxy-panics (c ∷ auth) fragment front bare back valid answers parts h w in
      let (e, w2, ends) =
        both_tokens-fatal (c ∷ auth) fragment front bare back valid answers parts h jd_first w in
      ((w1, rw (get, given, stops) refl), (e, w2, rw (get, given, ends) refl))
